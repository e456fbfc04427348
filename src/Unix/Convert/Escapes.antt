-- ===== src/Unix/Convert/Escapes.antt =====
-- The loops of convert_line (p1/tests/wgroff.c) that replace "/f" and a letter by a sequence.
use cs537projects.Base.{
  ℕ, ◌+◌, ◌<◌, ◌≤◌, ◌≡◌, refl, ap, ◌∙◌, sym, subst, Bool, true, false, ◌&&◌, none, some, List, [],
  ◌∷◌, ◌++◌, ◌==◌, length, drop, arith, Bool-cases, inl, inr,
}
use cs537projects.CString.{starts_with}
use cs537projects.Unix.Convert.{slash, escape, sequence, max_line_length}
use cs537projects.Unix.Convert.Passes.{
  pass, slashes, slashes-grown, slashes-same_head, slashes-same_head_lt, slashes-slash,
  slashes-drop, slashes-sequence, replaced, replaced-some, replaced-none,
}
use cs537projects.Unix.Convert.Loops.{Rewrites}

-- The letter of an escape, and the digit of its sequence.
pub record Letters (c d : ℕ) : Type 0 where
  pub letter_not_slash : (c == slash) ≡ false
  pub letter_not_escape : (27 == c) ≡ false
  pub digit_not_slash : (d == slash) ≡ false

and-true : (a b : Bool) → (a && b) ≡ true → (a ≡ true) × (b ≡ true)
and-true true true h = (refl, refl)
and-true true false h = absurd (cc (h))
and-true false b h = absurd (cc (h))

abbrev NoEscape : List ℕ → Type 0
NoEscape [] = Unit {0}
NoEscape (a ∷ p) = ((27 == a) ≡ false) × NoEscape p

-- A replacement by a sequence makes no text appear at the head that has no ESC in it.
starts_with-replaced :
    (b : ℕ) (ori sub p s t : List ℕ)
    → NoEscape p
    → replaced (b ∷ ori) (27 ∷ sub) s ≡ some t
    → starts_with p t ≡ true
    → starts_with p s ≡ true
unfolding starts_with replaced
starts_with-replaced b ori sub [] s t clean h at = refl
starts_with-replaced b ori sub (a ∷ p) [] t clean h at = absurd (cc (h))
starts_with-replaced b ori sub (a ∷ p) (x ∷ s) t clean h at =
    elim (replaced-some (b ∷ ori) (27 ∷ sub) x s t h) [
      | inl (e, is_t) ↦
          let at_head = subst (λ l. starts_with (a ∷ p) l ≡ true) is_t at in
          let both = and-true (27 == a) (starts_with p (sub ++ drop (length ori) s)) at_head in
          absurd (cc (clean.0, both.0))
      | inr (e, (behind, (h', is_t))) ↦
          let at_head = subst (λ l. starts_with (a ∷ p) l ≡ true) is_t at in
          let both = and-true (x == a) (starts_with p behind) at_head in
          rw (both.0) (starts_with-replaced b ori sub p s behind clean.1 h' both.1)
    ]

pass-skip : (c d x : ℕ) (s : List ℕ) → (x == slash) ≡ false → pass c d (x ∷ s) ≡ x ∷ pass c d s
unfolding pass starts_with
pass-skip c d x [] h = refl
pass-skip c d x (y ∷ []) h = refl
pass-skip c d x (y ∷ z ∷ s) h = rw h refl

pass-no_match :
    (c d x : ℕ) (s : List ℕ)
    → starts_with (escape c) (x ∷ s) ≡ false
    → pass c d (x ∷ s) ≡ x ∷ pass c d s
unfolding pass
pass-no_match c d x [] h = refl
pass-no_match c d x (y ∷ []) h = refl
pass-no_match c d x (y ∷ z ∷ s) h = rw (h, pass) refl

module _ {c d : ℕ} (l : Letters c d) where
  letters-NoEscape : NoEscape (escape c)
  letters-NoEscape = (refl, (refl, (l.letter_not_escape, tt)))

  pass-sequence : (s : List ℕ) → pass c d (sequence d ++ s) ≡ sequence d ++ pass c d s
  pass-sequence s =
      pass-skip c d 27 (b'[' ∷ d ∷ b'm' ∷ s) refl
      ∙ ap (λ t. 27 ∷ t) (pass-skip c d b'[' (d ∷ b'm' ∷ s) refl)
      ∙ ap (λ t. 27 ∷ b'[' ∷ t) (pass-skip c d d (b'm' ∷ s) l.digit_not_slash)
      ∙ ap (λ t. 27 ∷ b'[' ∷ d ∷ t) (pass-skip c d b'm' s refl)

  pass-match :
      (x : ℕ) (s : List ℕ)
      → starts_with (escape c) (x ∷ s) ≡ true
      → pass c d (x ∷ s) ≡ sequence d ++ pass c d (drop 2 s)
  unfolding pass starts_with
  pass-match x [] e = absurd (cc ((and-true (x == slash) false e).1))
  pass-match x (y ∷ []) e =
      absurd (cc ((and-true (y == b'f') false (and-true (x == slash) (y == b'f' && false) e).1).1))
  pass-match x (y ∷ z ∷ s) e = rw (e, pass) refl

  pass-kept : (s t : List ℕ) → replaced (escape c) (sequence d) s ≡ some t → pass c d t ≡ pass c d s
  unfolding replaced starts_with
  pass-kept [] t h = absurd (cc (h))
  pass-kept (x ∷ s) t h = elim (replaced-some (escape c) (sequence d) x s t h) [
    | inl (e, is_t) ↦ ap (pass c d) is_t ∙ pass-sequence (drop 2 s) ∙ sym (pass-match x s e)
    | inr (e, (behind, (h', is_t))) ↦
        let none_made : starts_with (escape c) (x ∷ behind) ≡ false =
          elim (Bool-cases (starts_with (escape c) (x ∷ behind))) [
            | inl seen ↦ absurd (
                cc (
                  e,
                  starts_with-replaced slash (b'f' ∷ c ∷ []) (b'[' ∷ d ∷ b'm' ∷ []) (escape c)
                      (x ∷ s) (x ∷ behind) letters-NoEscape (h ∙ ap some is_t) seen,
                ))
            | inr unseen ↦ unseen
          ] in
        ap (pass c d) is_t
        ∙ pass-no_match c d x behind none_made
        ∙ ap (λ r. x ∷ r) (pass-kept s behind h')
        ∙ sym (pass-no_match c d x s e)
  ]

  pass-fixed : (s : List ℕ) → replaced (escape c) (sequence d) s ≡ none → pass c d s ≡ s
  unfolding pass
  pass-fixed [] h = refl
  pass-fixed (x ∷ s) h =
      let at = replaced-none (escape c) (sequence d) x s h in
      pass-no_match c d x s at.0 ∙ ap (λ r. x ∷ r) (pass-fixed s at.1)

  length-pass : (s : List ℕ) → length s ≤ length (pass c d s)
  unfolding pass
  length-pass [] = omega arith
  length-pass (x ∷ []) = omega arith
  length-pass (x ∷ y ∷ []) = omega arith
  length-pass (x ∷ y ∷ z ∷ s) = elim (Bool-cases (starts_with (escape c) (x ∷ y ∷ z ∷ s))) [
    | inl e ↦ rw (e, pass) (omega (arith, length-pass s))
    | inr e ↦ rw (e, pass) (omega (arith, length-pass (y ∷ z ∷ s)))
  ]

  pub slashes-pass : (s : List ℕ) → slashes (pass c d s) ≤ slashes s
  unfolding pass
  slashes-pass [] = omega arith
  slashes-pass (x ∷ []) = omega arith
  slashes-pass (x ∷ y ∷ []) = omega arith
  slashes-pass (x ∷ y ∷ z ∷ s) = elim (Bool-cases (starts_with (escape c) (x ∷ y ∷ z ∷ s))) [
    | inl e ↦
        subst (λ r. slashes r ≤ slashes (x ∷ y ∷ z ∷ s)) (sym (pass-match x (y ∷ z ∷ s) e))
          (omega (
            arith,
            slashes-sequence d (pass c d s) l.digit_not_slash,
            slashes-pass s,
            slashes-drop 3 (x ∷ y ∷ z ∷ s),
          ))
    | inr e ↦
        subst (λ r. slashes r ≤ slashes (x ∷ y ∷ z ∷ s)) (sym (pass-no_match c d x (y ∷ z ∷ s) e))
          (slashes-same_head x (pass c d (y ∷ z ∷ s)) (y ∷ z ∷ s) (slashes-pass (y ∷ z ∷ s)))
  ]

  -- A sequence is one byte longer than its escape, which has a slash.
  pub length-slashes-pass :
      (s : List ℕ) → length (pass c d s) + slashes (pass c d s) ≤ length s + slashes s
  unfolding pass starts_with
  length-slashes-pass [] = omega arith
  length-slashes-pass (x ∷ []) = omega arith
  length-slashes-pass (x ∷ y ∷ []) = omega arith
  length-slashes-pass (x ∷ y ∷ z ∷ s) = elim (Bool-cases (starts_with (escape c) (x ∷ y ∷ z ∷ s))) [
    | inl e ↦
        let at_slash = and-true (x == slash) (starts_with (b'f' ∷ c ∷ []) (y ∷ z ∷ s)) e in
        subst (λ r. length r + slashes r ≤ length (x ∷ y ∷ z ∷ s) + slashes (x ∷ y ∷ z ∷ s))
          (sym (pass-match x (y ∷ z ∷ s) e))
          (omega (
            arith,
            slashes-sequence d (pass c d s) l.digit_not_slash,
            length-slashes-pass s,
            slashes-slash x (y ∷ z ∷ s) at_slash.0,
            slashes-drop 2 (y ∷ z ∷ s),
          ))
    | inr e ↦
        subst (λ r. length r + slashes r ≤ length (x ∷ y ∷ z ∷ s) + slashes (x ∷ y ∷ z ∷ s))
          (sym (pass-no_match c d x (y ∷ z ∷ s) e))
          (slashes-grown x (pass c d (y ∷ z ∷ s)) (y ∷ z ∷ s) (length-slashes-pass (y ∷ z ∷ s)))
  ]

  pass-falls : (s t : List ℕ) → replaced (escape c) (sequence d) s ≡ some t → slashes t < slashes s
  unfolding replaced starts_with
  pass-falls [] t h = absurd (cc (h))
  pass-falls (x ∷ s) t h = elim (replaced-some (escape c) (sequence d) x s t h) [
    | inl (e, is_t) ↦
        let at_slash = and-true (x == slash) (starts_with (b'f' ∷ c ∷ []) s) e in
        subst (λ r. slashes r < slashes (x ∷ s)) (sym is_t)
          (omega (
            arith,
            slashes-sequence d (drop 2 s) l.digit_not_slash,
            slashes-drop 2 s,
            slashes-slash x s at_slash.0,
          ))
    | inr (e, (behind, (h', is_t))) ↦
        subst (λ r. slashes r < slashes (x ∷ s)) (sym is_t)
          (slashes-same_head_lt x behind s (pass-falls s behind h'))
  ]

  pub pass-Rewrites : Rewrites (escape c) (sequence d) (pass c d)
  pass-Rewrites = record {
    fixed = pass-fixed;
    kept = pass-kept;
    falls = pass-falls;
    room = λ s t h short long.
        subst (λ r. max_line_length ≤ length r) (pass-kept s t h)
          (omega (arith, long, length-pass t));
  }
