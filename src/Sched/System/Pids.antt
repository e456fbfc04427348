-- ===== src/Sched/System/Pids.antt =====
-- Lists of pids: 0 stands for none, and any other stands once.
use cs537projects.Base.{
  ℕ, zero, suc, ◌+◌, ◌<◌, ◌≡◌, ◌≢◌, ◌⊎◌, inl, inr, List, [], ◌∷◌, arith, set, ℕ_discrete, sym,
}

abbrev pub NotIn : ℕ → List ℕ → Type 0
NotIn n [] = Unit {0}
NotIn n (m ∷ l) = (m ≢ n) × NotIn n l

abbrev pub Distinct : List ℕ → Type 0
Distinct [] = Unit {0}
Distinct (n ∷ l) = ((n ≡ 0) ⊎ NotIn n l) × Distinct l

abbrev pub AllBelow : ℕ → List ℕ → Type 0
AllBelow n [] = Unit {0}
AllBelow n (m ∷ l) = (m < n) × AllBelow n l

pub NotIn-of_below : (n : ℕ) (l : List ℕ) → AllBelow n l → NotIn n l
NotIn-of_below n [] h = tt
NotIn-of_below n (m ∷ l) h = (omega arith, NotIn-of_below n l h.1)

NotIn-set : (n v i : ℕ) (l : List ℕ) → v ≢ n → NotIn n l → NotIn n (set l i v)
NotIn-set n v i [] ne h = tt
NotIn-set n v zero (m ∷ l) ne h = (ne, h.1)
NotIn-set n v (suc i) (m ∷ l) ne h = (h.0, NotIn-set n v i l ne h.1)

differs : (v n : ℕ) (l : List ℕ) → n ≢ 0 → (v ≡ 0) ⊎ NotIn v (n ∷ l) → v ≢ n
differs v n l nz (inl z) = omega arith
differs v n l nz (inr h) = λ e. h.0 (sym e)

weaken : (v n : ℕ) (l : List ℕ) → (v ≡ 0) ⊎ NotIn v (n ∷ l) → (v ≡ 0) ⊎ NotIn v l
weaken v n l (inl z) = inl z
weaken v n l (inr h) = inr h.1

head-set :
    (n v i : ℕ) (l : List ℕ)
    → (v ≡ 0) ⊎ NotIn v (n ∷ l)
    → (n ≡ 0) ⊎ NotIn n l
    → (n ≡ 0) ⊎ NotIn n (set l i v)
head-set n v i l h (inl z) = inl z
head-set n v i l h (inr other) = elim (ℕ_discrete n 0) [
  | yes z ↦ inl z
  | no nz ↦ inr (NotIn-set n v i l (differs v n l nz h) other)
]

pub Distinct-set : (v i : ℕ) (l : List ℕ) → (v ≡ 0) ⊎ NotIn v l → Distinct l → Distinct (set l i v)
Distinct-set v i [] h d = tt
Distinct-set v zero (n ∷ l) h d = (weaken v n l h, d.1)
Distinct-set v (suc i) (n ∷ l) h d =
    (head-set n v i l h d.0, Distinct-set v i l (weaken v n l h) d.1)

pub AllBelow-set : (n v i : ℕ) (l : List ℕ) → v < n → AllBelow n l → AllBelow n (set l i v)
AllBelow-set n v i [] h b = tt
AllBelow-set n v zero (m ∷ l) h b = (h, b.1)
AllBelow-set n v (suc i) (m ∷ l) h b = (b.0, AllBelow-set n v i l h b.1)

pub AllBelow-suc : (n : ℕ) (l : List ℕ) → AllBelow n l → AllBelow (n + 1) l
AllBelow-suc n [] b = tt
AllBelow-suc n (m ∷ l) b = (omega arith, AllBelow-suc n l b.1)
