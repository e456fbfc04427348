-- ===== src/CString/Defs.antt =====
-- The functions of <string.h> and <stdlib.h> in use, over lists of bytes.
use cs537projects.Base.{
  ℕ, ◌+◌, ◌-◌, ◌*◌, ◌≡◌, refl, Bool, true, false, ◌&&◌, ◌||◌, Option, none, some, List, [], ◌∷◌,
  ltb, leb, ◌==◌, if◌then◌else◌,
}
use cs537projects.Base.Int.{ℤ, pos, negsuc, ◌-ℤ◌}

-- What the NUL-terminated reading of a buffer sees.
unfoldable pub c_string : List ℕ → List ℕ
c_string [] = []
c_string (c ∷ s) = if c == 0 then [] else c ∷ c_string s

-- `char` is signed.
unfoldable pub char_value : ℕ → ℤ
unfolding ◌-ℤ◌
char_value c = if ltb c 128 then pos c else pos c -ℤ pos 256

-- strcmp(s, t) == 0
unfoldable pub str_eq : List ℕ → List ℕ → Bool
str_eq [] [] = true
str_eq [] (d ∷ t) = false
str_eq (c ∷ s) [] = false
str_eq (c ∷ s) (d ∷ t) = c == d && str_eq s t

-- strncmp(s, p, strlen(p)) == 0
unfoldable pub starts_with : List ℕ → List ℕ → Bool
starts_with [] s = true
starts_with (d ∷ p) [] = false
starts_with (d ∷ p) (c ∷ s) = c == d && starts_with p s

-- `strstr`: the rest of the text from the first occurrence on.
unfoldable pub strstr : List ℕ → List ℕ → Option (List ℕ)
strstr [] p = if starts_with p [] then some [] else none
strstr (c ∷ s) p = if starts_with p (c ∷ s) then some (c ∷ s) else strstr s p

-- `strtok`: delimiters are skipped, and the token ends at the next one, which is passed over.
unfoldable pub token_end : (ℕ → Bool) → List ℕ → List ℕ × List ℕ
token_end delim [] = ([], [])
token_end delim (c ∷ s) =
    let rest = token_end delim s in if delim c then ([], s) else (c ∷ rest.0, rest.1)

unfoldable pub strtok : (ℕ → Bool) → List ℕ → Option (List ℕ × List ℕ)
unfolding token_end
strtok delim [] = none
strtok delim (c ∷ s) =
    let rest = strtok delim s in if delim c then rest else some (token_end delim (c ∷ s))

unfoldable pub is_digit : ℕ → Bool
is_digit c = leb b'0' c && leb c b'9'

unfoldable pub is_space : ℕ → Bool
is_space c = (c == 32) || (leb 9 c && leb c 13)

-- The digits at the front, as a number after `acc`.
unfoldable pub digits_from : ℕ → List ℕ → ℕ
digits_from acc [] = acc
digits_from acc (c ∷ s) =
    let rest = digits_from (acc * 10 + (c - 48)) s in if is_digit c then rest else acc

unfoldable pub skip_space : List ℕ → List ℕ
skip_space [] = []
skip_space (c ∷ s) = if is_space c then skip_space s else c ∷ s

atoi_signed : List ℕ → ℤ
unfolding digits_from ◌-ℤ◌
atoi_signed [] = pos 0
atoi_signed (c ∷ s) =
    if c == b'-'
    then pos 0 -ℤ pos (digits_from 0 s)
    else (if c == b'+' then pos (digits_from 0 s) else pos (digits_from 0 (c ∷ s)))

-- `atoi`, for values that an `int` holds.
unfoldable pub atoi : List ℕ → ℤ
unfolding atoi_signed skip_space
atoi s = atoi_signed (skip_space s)

atoi_tests :
    (atoi (32 ∷ b'-' ∷ b'1' ∷ b'2' ∷ b'x' ∷ []) ≡ negsuc 11)
    × (atoi (b'0' ∷ b'7' ∷ []) ≡ pos 7)
    × (atoi [] ≡ pos 0)
unfolding atoi is_space is_digit
atoi_tests = (refl, refl, refl)
