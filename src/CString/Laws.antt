-- ===== src/CString/Laws.antt =====
-- Laws of strstr and atoi that the programs' proofs share.
use cs537projects.Base.{
  ℕ, ◌+◌, ◌-◌, ◌*◌, ◌≡◌, refl, ◌≢◌, true, none, some, List, [], ◌∷◌, ◌++◌, arith,
}
use cs537projects.Base.Int.{pos}
use cs537projects.CString.Defs.{starts_with, strstr, is_digit, is_space, digits_from, atoi}

abbrev pub AllDigits : List ℕ → Type 0
AllDigits [] = Unit {0}
AllDigits (c ∷ s) = (is_digit c ≡ true) × AllDigits s

-- The number that a digit string denotes, most significant digit first.
abbrev pub decimal_from : ℕ → List ℕ → ℕ
decimal_from acc [] = acc
decimal_from acc (c ∷ s) = decimal_from (acc * 10 + (c - 48)) s

digits_from-AllDigits :
    (acc : ℕ) (s : List ℕ) → AllDigits s → digits_from acc s ≡ decimal_from acc s
unfolding digits_from
digits_from-AllDigits acc [] h = refl
digits_from-AllDigits acc (c ∷ s) h =
    ground (arith, digits_from-AllDigits (acc * 10 + (c - 48)) s h.1)

pub atoi-AllDigits : (s : List ℕ) → AllDigits s → atoi s ≡ pos (decimal_from 0 s)
unfolding atoi is_digit is_space
atoi-AllDigits [] h = refl
atoi-AllDigits (c ∷ s) h = ground (arith, digits_from-AllDigits 0 (c ∷ s))

abbrev pub NoByte : ℕ → List ℕ → Type 0
NoByte b [] = Unit {0}
NoByte b (c ∷ s) = (c ≢ b) × NoByte b s

starts_with-append : (p s : List ℕ) → starts_with p (p ++ s) ≡ true
unfolding starts_with
starts_with-append [] s = refl
starts_with-append (c ∷ p) s = ground (arith, starts_with-append p s)

-- A text without the first byte of the pattern is passed over.
pub strstr-append :
    (b : ℕ) (p s t : List ℕ)
    → NoByte b s
    → strstr (s ++ ((b ∷ p) ++ t)) (b ∷ p) ≡ some ((b ∷ p) ++ t)
unfolding strstr starts_with
strstr-append b p [] t h = ground (arith, starts_with-append p t)
strstr-append b p (c ∷ s) t h = ground (arith, strstr-append b p s t h.1)

pub strstr-none : (b : ℕ) (p s : List ℕ) → NoByte b s → strstr s (b ∷ p) ≡ none
unfolding strstr starts_with
strstr-none b p [] h = refl
strstr-none b p (c ∷ s) h = ground (arith, strstr-none b p s h.1)
