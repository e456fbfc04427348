-- ===== src/Unix/Convert/Squeezed.antt =====
-- The last loop of convert_line (p1/tests/wgroff.c), which replaces two slashes by one.
use cs537projects.Base.{
  ℕ, ◌<◌, ◌≤◌, ◌≡◌, refl, ap, ◌∙◌, sym, subst, subst₂, ap₂, Bool, true, false, ◌&&◌, none, some,
  List, [], ◌∷◌, ◌==◌, length, drop, arith, inl, inr, length-drop,
}
use cs537projects.CString.{starts_with}
use cs537projects.Unix.Convert.{slash}
use cs537projects.Unix.Convert.Passes.{
  squeeze, slashes, slashes-slash, slashes-same_head_lt, replaced, replaced-some, replaced-none,
}
use cs537projects.Unix.Convert.Loops.{Rewrites}

abbrev two : List ℕ
two = slash ∷ slash ∷ []

abbrev one : List ℕ
one = slash ∷ []

-- A match at the head is two slashes.
two-head :
    (x : ℕ) (s : List ℕ) → starts_with two (x ∷ s) ≡ true → (x ≡ slash) × (s ≡ slash ∷ drop 1 s)
unfolding starts_with
two-head x [] h = absurd (ground arith)
two-head x (y ∷ s) h =
    let y_slash : y ≡ slash = ground arith in (ground arith, ap (λ c. c ∷ s) y_slash)

-- A conjunct that implies another fails wherever that fails.
and-weaker :
    (a b weaker : Bool) → (weaker ≡ true → b ≡ true) → (a && b) ≡ false → (a && weaker) ≡ false
and-weaker false b weaker k h = refl
and-weaker true b false k h = refl
and-weaker true b true k h = absurd (cc (h, k refl))

squeeze-no_match :
    (x : ℕ) (s : List ℕ) → starts_with two (x ∷ s) ≡ false → squeeze (x ∷ s) ≡ x ∷ squeeze s
unfolding squeeze starts_with
squeeze-no_match x [] h = refl
squeeze-no_match x (y ∷ s) h =
    let apart : ((x == slash) && (y == slash)) ≡ false = ground arith in rw (apart, squeeze) refl

squeeze-match : (s : List ℕ) → squeeze (slash ∷ slash ∷ s) ≡ squeeze (slash ∷ s)
unfolding squeeze
squeeze-match s = refl

head-replaced :
    (a : ℕ) (s t : List ℕ)
    → replaced two one s ≡ some t
    → starts_with (a ∷ []) t ≡ true
    → starts_with (a ∷ []) s ≡ true
unfolding replaced starts_with
head-replaced a [] t h at = absurd (cc (h))
head-replaced a (x ∷ s) t h at = elim (replaced-some two one x s t h) [
  | inl (e, is_t) ↦
      let at_head = subst (λ l. starts_with (a ∷ []) l ≡ true) is_t at in
      let is_slash = (two-head x s e).0 in
      subst (λ c. starts_with (a ∷ []) (c ∷ s) ≡ true) (sym is_slash) at_head
  | inr (e, (behind, (h', is_t))) ↦ subst (λ l. starts_with (a ∷ []) l ≡ true) is_t at
]

squeeze-fixed : (s : List ℕ) → replaced two one s ≡ none → squeeze s ≡ s
unfolding squeeze
squeeze-fixed [] h = refl
squeeze-fixed (x ∷ s) h =
    let at = replaced-none two one x s h in
    squeeze-no_match x s at.0 ∙ ap (λ r. x ∷ r) (squeeze-fixed s at.1)

squeeze-kept : (s t : List ℕ) → replaced two one s ≡ some t → squeeze t ≡ squeeze s
unfolding replaced starts_with
squeeze-kept [] t h = absurd (cc (h))
squeeze-kept (x ∷ s) t h = elim (replaced-some two one x s t h) [
  | inl (e, is_t) ↦
      let at = two-head x s e in
      ap squeeze is_t ∙ sym (ap squeeze (ap₂ (λ c r. c ∷ r) at.0 at.1) ∙ squeeze-match (drop 1 s))
  | inr (e, (behind, (h', is_t))) ↦
      let none_made : starts_with two (x ∷ behind) ≡ false =
        and-weaker (x == slash) (starts_with one s) (starts_with one behind)
          (head-replaced slash s behind h') e in
      ap squeeze is_t
      ∙ squeeze-no_match x behind none_made
      ∙ ap (λ r. x ∷ r) (squeeze-kept s behind h')
      ∙ sym (squeeze-no_match x s e)
]

squeeze-falls : (s t : List ℕ) → replaced two one s ≡ some t → slashes t < slashes s
unfolding replaced starts_with
squeeze-falls [] t h = absurd (cc (h))
squeeze-falls (x ∷ s) t h = elim (replaced-some two one x s t h) [
  | inl (e, is_t) ↦
      let at = two-head x s e in
      subst₂ (λ r l. slashes r < slashes l) (sym is_t) (sym (ap₂ (λ c r. c ∷ r) at.0 at.1))
        (omega
          (arith, slashes-slash slash (drop 1 s) refl, slashes-slash slash (slash ∷ drop 1 s) refl))
  | inr (e, (behind, (h', is_t))) ↦
      subst (λ r. slashes r < slashes (x ∷ s)) (sym is_t)
        (slashes-same_head_lt x behind s (squeeze-falls s behind h'))
]

length-replaced : (s t : List ℕ) → replaced two one s ≡ some t → length t ≤ length s
unfolding replaced starts_with
length-replaced [] t h = absurd (cc (h))
length-replaced (x ∷ s) t h = elim (replaced-some two one x s t h) [
  | inl (e, is_t) ↦ omega (arith, ap length is_t, length-drop 1 s)
  | inr (e, (behind, (h', is_t))) ↦ omega (arith, ap length is_t, length-replaced s behind h')
]

pub squeeze-Rewrites : Rewrites two one squeeze
squeeze-Rewrites = record {
  fixed = squeeze-fixed;
  kept = squeeze-kept;
  falls = squeeze-falls;
  room = λ s t h short long. absurd (omega (arith, short, long, length-replaced s t h));
}
