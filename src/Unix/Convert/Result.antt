-- ===== src/Unix/Convert/Result.antt =====
-- The result of convert_line (p1/tests/wgroff.c): its five loops as five passes over the line.
use cs537projects.Base.{
  ℕ, ◌+◌, ◌<◌, ◌≤◌, ◌≡◌, refl, ap, ◌∙◌, List, [], ◌∷◌, ltb, length, arith, Bool-cases, inl, inr,
  ltb→lt, lt→ltb,
}
use cs537projects.Unix.Convert.{
  Converted, unfinished, overflow, line, slash, escape, sequence, replace_loop, and_then,
  convert_line, max_line_length,
}
use cs537projects.Unix.Convert.Passes.{pass, squeeze, slashes, length-squeeze}
use cs537projects.Unix.Convert.Loops.{fitting, replace_loop-Rewrites}
use cs537projects.Unix.Convert.Escapes.{Letters, pass-Rewrites, slashes-pass, length-slashes-pass}
use cs537projects.Unix.Convert.Squeezed.{squeeze-Rewrites}

-- A pass for each escape, then the slashes; the buffer has to hold what each pass makes.
unfoldable pub convert_by_passes : List ℕ → Converted
convert_by_passes s =
    and_then
      (and_then
        (and_then (and_then (fitting (pass b'B' b'1' s)) (λ t. fitting (pass b'I' b'3' t)))
          (λ t. fitting (pass b'U' b'4' t)))
        (λ t. fitting (pass b'P' b'0' t)))
      (λ t. fitting (squeeze t))

-- What a loop leaves: a line that fits, with no more slashes than `n`.
abbrev Small : ℕ → Converted → Type 0
Small n unfinished = Unit {0}
Small n overflow = Unit {0}
Small n (line t) = (slashes t ≤ n) × (length t < max_line_length)

fitting-Small : (n : ℕ) (t : List ℕ) → slashes t ≤ n → Small n (fitting t)
fitting-Small n t h = elim (Bool-cases (ltb (length t) max_line_length)) [
  | inl e ↦ rw e (h, ltb→lt (length t) max_line_length e)
  | inr e ↦ rw e tt
]

and_then-Small :
    (n : ℕ) (c : Converted) (k : List ℕ → Converted)
    → Small n c
    → ((t : List ℕ) → slashes t ≤ n → length t < max_line_length → Small n (k t))
    → Small n (and_then c k)
and_then-Small n unfinished k h step = tt
and_then-Small n overflow k h step = tt
and_then-Small n (line t) k h step = step t h.0 h.1

-- Two chains with the same first part, and second parts that agree on small lines.
and_then-same :
    (n : ℕ) (c c' : Converted) (k k' : List ℕ → Converted)
    → c ≡ c'
    → Small n c'
    → ((t : List ℕ) → slashes t ≤ n → length t < max_line_length → k t ≡ k' t)
    → and_then c k ≡ and_then c' k'
and_then-same n c unfinished k k' e h step = ap (λ d. and_then d k) e
and_then-same n c overflow k k' e h step = ap (λ d. and_then d k) e
and_then-same n c (line t) k k' e h step = ap (λ d. and_then d k) e ∙ step t h.0 h.1

pass-Small :
    {c d : ℕ} (l : Letters c d) (n : ℕ) (t : List ℕ)
    → slashes t ≤ n
    → Small n (fitting (pass c d t))
pass-Small {c} {d} l n t h = fitting-Small n (pass c d t) (omega (arith, h, slashes-pass l t))

bold_ok : Letters b'B' b'1'
bold_ok = record { letter_not_slash = refl; letter_not_escape = refl; digit_not_slash = refl }

italic_ok : Letters b'I' b'3'
italic_ok = record { letter_not_slash = refl; letter_not_escape = refl; digit_not_slash = refl }

underline_ok : Letters b'U' b'4'
underline_ok = record { letter_not_slash = refl; letter_not_escape = refl; digit_not_slash = refl }

reset_ok : Letters b'P' b'0'
reset_ok = record { letter_not_slash = refl; letter_not_escape = refl; digit_not_slash = refl }

-- Two results that are one, and small.
abbrev Agree : ℕ → Converted → Converted → Type 0
Agree n c c' = (c ≡ c') × Small n c'

replace_loop-Agree :
    {c d : ℕ} (l : Letters c d) (fuel n : ℕ) (s : List ℕ)
    → n < fuel
    → slashes s ≤ n
    → length s < max_line_length
    → Agree n (replace_loop fuel (escape c) (sequence d) s) (fitting (pass c d s))
replace_loop-Agree l fuel n s enough few short = (
  replace_loop-Rewrites (pass-Rewrites l) fuel s (omega (arith, enough, few)) short,
  pass-Small l n s few,
)

and_then-Agree :
    {c d : ℕ} (l : Letters c d) (fuel n : ℕ) (u v : Converted)
    → n < fuel
    → Agree n u v
    → Agree n
        (and_then u (replace_loop fuel (escape c) (sequence d)))
        (and_then v (λ t. fitting (pass c d t)))
and_then-Agree {c} {d} l fuel n u v enough h = (
  and_then-same n u v (replace_loop fuel (escape c) (sequence d)) (λ t. fitting (pass c d t)) h.0
      h.1 (λ t few short. (replace_loop-Agree l fuel n t enough few short).0),
  and_then-Small n v (λ t. fitting (pass c d t)) h.1 (λ t few short. pass-Small l n t few),
)

-- On a line that the buffer holds, with fuel for more replacements than the line has slashes,
-- convert_line is the five passes from left to right: it runs out of the buffer exactly when a
-- pass does, and otherwise leaves what they leave.
pub convert_line-convert_by_passes :
    (fuel : ℕ) (s : List ℕ)
    → slashes s < fuel
    → length s < max_line_length
    → convert_line fuel s ≡ convert_by_passes s
unfolding convert_line convert_by_passes
convert_line-convert_by_passes fuel s enough short =
    let after_B = replace_loop-Agree bold_ok fuel (slashes s) s enough (omega arith) short in
    let after_I = and_then-Agree italic_ok fuel (slashes s) _ _ enough after_B in
    let after_U = and_then-Agree underline_ok fuel (slashes s) _ _ enough after_I in
    let after_P = and_then-Agree reset_ok fuel (slashes s) _ _ enough after_U in
    and_then-same (slashes s) _ _ (replace_loop fuel (slash ∷ slash ∷ []) (slash ∷ []))
      (λ t. fitting (squeeze t)) after_P.0 after_P.1
      (λ t few fits.
        replace_loop-Rewrites squeeze-Rewrites fuel t (omega (arith, few, enough)) fits)

-- The line with its escapes and slashes converted, in a buffer without bounds.
abbrev pub converted : List ℕ → List ℕ
converted s = squeeze (pass b'P' b'0' (pass b'U' b'4' (pass b'I' b'3' (pass b'B' b'1' s))))

fitting-line : (t : List ℕ) → length t < max_line_length → fitting t ≡ line t
fitting-line t h = rw (lt→ltb (length t) max_line_length h) refl

chain-line :
    (b i u p q : List ℕ) (f g h k : List ℕ → Converted) (c : Converted)
    → c ≡ line b
    → f b ≡ line i
    → g i ≡ line u
    → h u ≡ line p
    → k p ≡ line q
    → and_then (and_then (and_then (and_then c f) g) h) k ≡ line q
chain-line b i u p q f g h k c is_b is_i is_u is_p is_q = rw (is_b, is_i, is_u, is_p, is_q) refl

-- With one byte to spare for each slash of the line, convert_line stays in the buffer and leaves
-- the converted line.
pub convert_line-line :
    (fuel : ℕ) (s : List ℕ)
    → slashes s < fuel
    → length s + slashes s < max_line_length
    → convert_line fuel s ≡ line (converted s)
unfolding convert_by_passes
convert_line-line fuel s enough room =
    let b = pass b'B' b'1' s in
    let i = pass b'I' b'3' b in
    let u = pass b'U' b'4' i in
    let p = pass b'P' b'0' u in
    let grown_b = length-slashes-pass bold_ok s in
    let grown_i = length-slashes-pass italic_ok b in
    let grown_u = length-slashes-pass underline_ok i in
    let grown_p = length-slashes-pass reset_ok u in
    convert_line-convert_by_passes fuel s enough (omega (arith, room))
    ∙ chain-line b i u p (squeeze p) (λ t. fitting (pass b'I' b'3' t))
        (λ t. fitting (pass b'U' b'4' t)) (λ t. fitting (pass b'P' b'0' t))
        (λ t. fitting (squeeze t)) (fitting b) (fitting-line b (omega (arith, grown_b, room)))
        (fitting-line i (omega (arith, grown_b, grown_i, room)))
        (fitting-line u (omega (arith, grown_b, grown_i, grown_u, room)))
        (fitting-line p (omega (arith, grown_b, grown_i, grown_u, grown_p, room)))
        (fitting-line (squeeze p)
          (omega (arith, grown_b, grown_i, grown_u, grown_p, room, length-squeeze p)))
