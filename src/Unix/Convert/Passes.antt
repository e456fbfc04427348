-- ===== src/Unix/Convert/Passes.antt =====
-- What convert_line of p1/tests/wgroff.c comes to, written as passes over the line from left to
-- right, and how one replacement of the first match relates to a pass.
use cs537projects.Base.{
  ℕ, zero, suc, ◌+◌, ◌-◌, ◌<◌, ◌≤◌, ◌≡◌, refl, ap, ◌∙◌, sym, true, false, ◌&&◌, Option, none, some,
  List, [], ◌∷◌, ◌++◌, ◌==◌, if◌then◌else◌, length, take, drop, arith, Bool-cases, inl, inr, ◌⊎◌,
}
use cs537projects.CString.{strstr, starts_with}
use cs537projects.Unix.Convert.{replace_at, slash, escape, sequence}

-- Each "/f" with the letter `c` becomes the sequence with the digit `d`, in one pass.
unfoldable pub pass : ℕ → ℕ → List ℕ → List ℕ
pass c d [] = []
pass c d (x ∷ []) = x ∷ []
pass c d (x ∷ y ∷ []) = x ∷ y ∷ []
pass c d (x ∷ y ∷ z ∷ s) =
    let behind = pass c d s in
    let next = pass c d (y ∷ z ∷ s) in
    if starts_with (escape c) (x ∷ y ∷ z ∷ s) then sequence d ++ behind else x ∷ next

-- Each run of slashes becomes one.
unfoldable pub squeeze : List ℕ → List ℕ
squeeze [] = []
squeeze (x ∷ []) = x ∷ []
squeeze (x ∷ y ∷ s) =
    let next = squeeze (y ∷ s) in if (x == slash) && (y == slash) then next else x ∷ next

unfoldable pub slashes : List ℕ → ℕ
slashes [] = 0
slashes (x ∷ s) = let rest = slashes s in if x == slash then suc rest else rest

abbrev with_head : ℕ → Option (List ℕ) → Option (List ℕ)
with_head x none = none
with_head x (some t) = some (x ∷ t)

-- The line with its first match replaced.
unfoldable pub replaced : List ℕ → List ℕ → List ℕ → Option (List ℕ)
replaced ori sub [] = if starts_with ori [] then some (sub ++ drop (length ori) []) else none
replaced ori sub (x ∷ s) =
    if starts_with ori (x ∷ s)
    then some (sub ++ drop (length ori) (x ∷ s))
    else with_head x (replaced ori sub s)

abbrev pub by_strstr : List ℕ → List ℕ → List ℕ → Option (List ℕ) → Option (List ℕ)
by_strstr ori sub s none = none
by_strstr ori sub s (some pos) = some (replace_at ori sub s pos)

-- A match lies inside the line.
abbrev Inside : List ℕ → Option (List ℕ) → Type 0
Inside s none = Unit {0}
Inside s (some pos) = length pos ≤ length s

Inside-weaken : (x : ℕ) (s : List ℕ) (o : Option (List ℕ)) → Inside s o → Inside (x ∷ s) o
Inside-weaken x s none h = tt
Inside-weaken x s (some pos) h = omega arith

strstr-Inside : (s ori : List ℕ) → Inside s (strstr s ori)
unfolding strstr
strstr-Inside [] ori = elim (Bool-cases (starts_with ori [])) [
  | inl e ↦ rw e (omega arith)
  | inr e ↦ rw e tt
]
strstr-Inside (x ∷ s) ori = elim (Bool-cases (starts_with ori (x ∷ s))) [
  | inl e ↦ rw e (omega arith)
  | inr e ↦ rw e (Inside-weaken x s (strstr s ori) (strstr-Inside s ori))
]

by_strstr-cons :
    (ori sub : List ℕ) (x : ℕ) (s : List ℕ) (o : Option (List ℕ))
    → Inside s o
    → by_strstr ori sub (x ∷ s) o ≡ with_head x (by_strstr ori sub s o)
unfolding replace_at
by_strstr-cons ori sub x s none h = refl
by_strstr-cons ori sub x s (some pos) h =
    let e : suc (length s) - length pos ≡ suc (length s - length pos) = omega arith in
    ap (λ k. some (take k (x ∷ s) ++ (sub ++ drop (length ori) pos))) e

pub replaced_lem : (ori sub s : List ℕ) → by_strstr ori sub s (strstr s ori) ≡ replaced ori sub s
unfolding replaced strstr replace_at
replaced_lem ori sub [] = elim (Bool-cases (starts_with ori [])) [
  | inl e ↦ rw e refl
  | inr e ↦ rw e refl
]
replaced_lem ori sub (x ∷ s) = elim (Bool-cases (starts_with ori (x ∷ s))) [
  | inl e ↦
      let none_before : suc (length s) - suc (length s) ≡ 0 = omega arith in
      rw e (ap (λ k. some (take k (x ∷ s) ++ (sub ++ drop (length ori) (x ∷ s)))) none_before)
  | inr e ↦ rw e (
      by_strstr-cons ori sub x s (strstr s ori) (strstr-Inside s ori)
      ∙ ap (with_head x) (replaced_lem ori sub s))
]

with_head-none : (x : ℕ) (o : Option (List ℕ)) → with_head x o ≡ none → o ≡ none
with_head-none x none h = refl
with_head-none x (some t) h = absurd (cc (h))

with_head-some :
    (x : ℕ) (o : Option (List ℕ)) (t : List ℕ)
    → with_head x o ≡ some t
    → (t' : List ℕ) × ((o ≡ some t') × (t ≡ x ∷ t'))
with_head-some x none t h = absurd (cc (h))
with_head-some x (some t') t h = (t', (refl, cc (h)))

replaced-here :
    (ori sub : List ℕ) (x : ℕ) (s : List ℕ)
    → starts_with ori (x ∷ s) ≡ true
    → replaced ori sub (x ∷ s) ≡ some (sub ++ drop (length ori) (x ∷ s))
unfolding replaced
replaced-here ori sub x s e = rw (e, replaced) refl

replaced-behind :
    (ori sub : List ℕ) (x : ℕ) (s : List ℕ)
    → starts_with ori (x ∷ s) ≡ false
    → replaced ori sub (x ∷ s) ≡ with_head x (replaced ori sub s)
unfolding replaced
replaced-behind ori sub x s e = rw (e, replaced) refl

-- The first match is at the head, or behind it.
pub replaced-some :
    (ori sub : List ℕ) (x : ℕ) (s t : List ℕ)
    → replaced ori sub (x ∷ s) ≡ some t
    → ((starts_with ori (x ∷ s) ≡ true) × (t ≡ sub ++ drop (length ori) (x ∷ s)))
      ⊎ ((starts_with ori (x ∷ s) ≡ false)
          × ((t' : List ℕ) × ((replaced ori sub s ≡ some t') × (t ≡ x ∷ t'))))
replaced-some ori sub x s t h = elim (Bool-cases (starts_with ori (x ∷ s))) [
  | inl e ↦
      let found : some (sub ++ drop (length ori) (x ∷ s)) ≡ some t =
        sym (replaced-here ori sub x s e) ∙ h in
      inl (e, cc (found))
  | inr e ↦
      inr (e, with_head-some x (replaced ori sub s) t (sym (replaced-behind ori sub x s e) ∙ h))
]

pub replaced-none :
    (ori sub : List ℕ) (x : ℕ) (s : List ℕ)
    → replaced ori sub (x ∷ s) ≡ none
    → (starts_with ori (x ∷ s) ≡ false) × (replaced ori sub s ≡ none)
replaced-none ori sub x s h = elim (Bool-cases (starts_with ori (x ∷ s))) [
  | inl e ↦
      let found : some (sub ++ drop (length ori) (x ∷ s)) ≡ none =
        sym (replaced-here ori sub x s e) ∙ h in
      absurd (cc (found))
  | inr e ↦ (e, with_head-none x (replaced ori sub s) (sym (replaced-behind ori sub x s e) ∙ h))
]

slashes-cons : (x : ℕ) (s : List ℕ) → slashes s ≤ slashes (x ∷ s)
unfolding slashes
slashes-cons x s = ground arith

pub slashes-same_head :
    (x : ℕ) (s t : List ℕ) → slashes s ≤ slashes t → slashes (x ∷ s) ≤ slashes (x ∷ t)
unfolding slashes
slashes-same_head x s t h = ground arith

pub slashes-same_head_lt :
    (x : ℕ) (s t : List ℕ) → slashes s < slashes t → slashes (x ∷ s) < slashes (x ∷ t)
unfolding slashes
slashes-same_head_lt x s t h = ground arith

pub slashes-slash : (x : ℕ) (s : List ℕ) → (x == slash) ≡ true → slashes (x ∷ s) ≡ suc (slashes s)
unfolding slashes
slashes-slash x s h = ground arith

pub slashes-drop : (n : ℕ) (s : List ℕ) → slashes (drop n s) ≤ slashes s
unfolding slashes
slashes-drop zero s = omega arith
slashes-drop (suc n) [] = omega arith
slashes-drop (suc n) (x ∷ s) = omega (arith, slashes-drop n s, slashes-cons x s)

pub slashes-sequence :
    (d : ℕ) (s : List ℕ) → (d == slash) ≡ false → slashes (sequence d ++ s) ≡ slashes s
unfolding slashes
slashes-sequence d s h = ground arith

pub slashes-grown :
    (x : ℕ) (s t : List ℕ)
    → length s + slashes s ≤ length t + slashes t
    → length (x ∷ s) + slashes (x ∷ s) ≤ length (x ∷ t) + slashes (x ∷ t)
unfolding slashes
slashes-grown x s t h = ground arith

pub length-squeeze : (s : List ℕ) → length (squeeze s) ≤ length s
unfolding squeeze
length-squeeze [] = omega arith
length-squeeze (x ∷ []) = omega arith
length-squeeze (x ∷ y ∷ s) = ground (arith, length-squeeze (y ∷ s))
