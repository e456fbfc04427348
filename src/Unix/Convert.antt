-- ===== src/Unix/Convert.antt =====
-- convert_line of p1/tests/wgroff.c: the escapes of a line become ANSI sequences, in place, in a
-- buffer of 1024 bytes. A line is its bytes before the NUL.
pub mod Passes
pub mod Loops
pub mod Escapes
pub mod Squeezed
pub mod Result
use cs537projects.Base.{
  ℕ, zero, suc, ◌+◌, ◌-◌, ◌≡◌, Bool, true, false, ◌&&◌, Option, none, some, List, [], ◌∷◌, ◌++◌,
  ◌==◌, ltb, if◌then◌else◌, length, take, drop,
}
use cs537projects.CString.{strstr}

abbrev pub max_line_length : ℕ
max_line_length = 1024

-- Out of fuel, a write past the buffer, or the line.
pub data Converted : Type 0 where
  unfinished : Converted
  overflow : Converted
  line : List ℕ → Converted

-- The two `memmove`s: `pos` is the rest of the line from the match on.
unfoldable pub replace_at : List ℕ → List ℕ → List ℕ → List ℕ → List ℕ
replace_at ori sub s pos = take (length s - length pos) s ++ (sub ++ drop (length ori) pos)

-- One `while` of convert_line; the search starts at the head of the line each time.
unfoldable pub replace_loop : ℕ → List ℕ → List ℕ → List ℕ → Converted
unfolding replace_at strstr
replace_loop zero ori sub s = unfinished
replace_loop (suc fuel) ori sub s = elim (strstr s ori) [
  | none ↦ line s
  | some pos ↦
      let next = replace_at ori sub s pos in
      let rest = replace_loop fuel ori sub next in
      if ltb (length next) max_line_length then rest else overflow
]

abbrev pub slash : ℕ
slash = b'/'

-- "/f" and a letter
abbrev pub escape : ℕ → List ℕ
escape c = slash ∷ b'f' ∷ c ∷ []

-- "\033[", a digit, and "m"
abbrev pub sequence : ℕ → List ℕ
sequence d = 27 ∷ b'[' ∷ d ∷ b'm' ∷ []

abbrev pub and_then : Converted → (List ℕ → Converted) → Converted
and_then unfinished k = unfinished
and_then overflow k = overflow
and_then (line s) k = k s

unfoldable pub convert_line : ℕ → List ℕ → Converted
unfolding replace_loop
convert_line fuel s =
    and_then
      (and_then
        (and_then
          (and_then (replace_loop fuel (escape b'B') (sequence b'1') s)
            (replace_loop fuel (escape b'I') (sequence b'3')))
          (replace_loop fuel (escape b'U') (sequence b'4')))
        (replace_loop fuel (escape b'P') (sequence b'0')))
      (replace_loop fuel (slash ∷ slash ∷ []) (slash ∷ []))
