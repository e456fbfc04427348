-- ===== src/Unix/Convert/Loops.antt =====
-- The replacement loops of convert_line (p1/tests/wgroff.c) run as passes over the line.
use cs537projects.Base.{
  ℕ, zero, suc, ◌<◌, ◌≤◌, ◌≡◌, refl, ap, ◌∙◌, sym, false, Option, none, some, List, ltb,
  if◌then◌else◌, length, arith, Bool-cases, Option-cases, inl, inr, lt→ltb, ltb→lt,
}
use cs537projects.CString.{strstr}
use cs537projects.Unix.Convert.{
  Converted, overflow, line, replace_at, replace_loop, max_line_length,
}
use cs537projects.Unix.Convert.Passes.{slashes, replaced, by_strstr, replaced_lem}

-- The line, when the buffer holds it.
abbrev pub fitting : List ℕ → Converted
fitting t = if ltb (length t) max_line_length then line t else overflow

-- The replacement of `ori` by `sub`, over and over, comes to the function `f`.
pub record Rewrites (ori sub : List ℕ) (f : List ℕ → List ℕ) : Type 0 where
  pub fixed : (s : List ℕ) → replaced ori sub s ≡ none → f s ≡ s
  pub kept : (s t : List ℕ) → replaced ori sub s ≡ some t → f t ≡ f s
  pub falls : (s t : List ℕ) → replaced ori sub s ≡ some t → slashes t < slashes s
  pub room :
      (s t : List ℕ)
      → replaced ori sub s ≡ some t
      → length s < max_line_length
      → max_line_length ≤ length t
      → max_line_length ≤ length (f s)

abbrev continued : ℕ → List ℕ → List ℕ → List ℕ → Option (List ℕ) → Converted
continued fuel ori sub s none = line s
continued fuel ori sub s (some next) =
    let rest = replace_loop fuel ori sub next in
    if ltb (length next) max_line_length then rest else overflow

replace_loop-replaced :
    (fuel : ℕ) (ori sub s : List ℕ)
    → replace_loop (suc fuel) ori sub s ≡ continued fuel ori sub s (replaced ori sub s)
unfolding replace_loop replace_at
replace_loop-replaced fuel ori sub s = elim (Option-cases (strstr s ori)) [
  | inl e ↦
      rw (e, replace_loop)
        (ap (continued fuel ori sub s) (ap (by_strstr ori sub s) (sym e) ∙ replaced_lem ori sub s))
  | inr (found, e) ↦
      rw (e, replace_loop)
        (ap (continued fuel ori sub s) (ap (by_strstr ori sub s) (sym e) ∙ replaced_lem ori sub s))
]

not_ltb→le : (a b : ℕ) → ltb a b ≡ false → b ≤ a
not_ltb→le a b h = ground arith

not_lt→ltb : (a b : ℕ) → b ≤ a → ltb a b ≡ false
not_lt→ltb a b h = ground arith

module _ {ori sub : List ℕ} {f : List ℕ → List ℕ} (r : Rewrites ori sub f) where
  pub replace_loop-Rewrites :
      (fuel : ℕ) (s : List ℕ)
      → slashes s < fuel
      → length s < max_line_length
      → replace_loop fuel ori sub s ≡ fitting (f s)
  replace_loop-Rewrites zero s enough short = absurd (omega (arith, enough))
  replace_loop-Rewrites (suc fuel) s enough short = elim (Option-cases (replaced ori sub s)) [
    | inl e ↦
        replace_loop-replaced fuel ori sub s
        ∙ ap (continued fuel ori sub s) e
        ∙ sym (ap fitting (r.fixed s e) ∙ rw (lt→ltb (length s) max_line_length short) refl)
    | inr (next, e) ↦
        replace_loop-replaced fuel ori sub s
        ∙ ap (continued fuel ori sub s) e
        ∙ elim (Bool-cases (ltb (length next) max_line_length)) [
          | inl small ↦ rw small (
              replace_loop-Rewrites fuel next (omega (arith, r.falls s next e, enough))
                (ltb→lt (length next) max_line_length small)
              ∙ ap fitting (r.kept s next e))
          | inr large ↦ rw large (
              sym (
                rw
                  (not_lt→ltb (length (f s)) max_line_length
                    (r.room s next e short (not_ltb→le (length next) max_line_length large)))
                  refl))
        ]
  ]
