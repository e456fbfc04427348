-- ===== src/Wsh/Jobs/Least.antt =====
-- The id that setjobid of p3/wsh.c gives to a new job.
use cs537projects.Base.{
  ℕ, zero, suc, ◌<◌, ◌≡◌, refl, ◌≢◌, Option, none, some, List, [], ◌∷◌, arith, ◌==◌, get_or, set,
  length, subst, Bool-cases, Option-cases, inl, inr, ==_iff,
}
use cs537projects.Wsh.Jobs.{Shell, find_free, setjobid}

-- A free id with none below it; without one all are taken.
abbrev pub Free : List ℕ → Option ℕ → Type 0
Free ids none = (i : ℕ) → i < length ids → get_or ids i 0 ≢ 0
Free ids (some i) = (i < length ids) × (get_or ids i 0 ≡ 0) × ((k : ℕ) → k < i → get_or ids k 0 ≢ 0)

below_suc :
    (x : ℕ) (xs : List ℕ) (n : ℕ)
    → x ≢ 0
    → ((k : ℕ) → k < n → get_or xs k 0 ≢ 0)
    → (k : ℕ) → k < suc n
    → get_or (x ∷ xs) k 0 ≢ 0
below_suc x xs n h rest zero lt = h
below_suc x xs n h rest (suc k) lt = rest k (omega arith)

find_free-Free : (ids : List ℕ) → Free ids (find_free ids)
unfolding find_free
find_free-Free [] = λ i lt. absurd (omega arith)
find_free-Free (x ∷ xs) =
    let rest = find_free-Free xs in
    elim (Bool-cases (x == 0)) [
      | inl free ↦ rw free (omega arith, (==_iff x 0).0 free, λ k lt. absurd (omega arith))
      | inr taken ↦
          let used : x ≢ 0 = ground (arith, taken) in
          elim (Option-cases (find_free xs)) [
            | inl full ↦
                rw taken
                  (rw full (below_suc x xs (length xs) used (subst (λ o. Free xs o) full rest)))
            | inr (i, at) ↦
                let there : Free xs (some i) = subst (λ o. Free xs o) at rest in
                rw taken (rw at (omega (arith, there.0), there.1, below_suc x xs i used there.2))
          ]
    ]

-- What `setjobid` returns: the least free id, from 1 on, which is then marked and no other changed;
-- or 0, when none is free.
abbrev pub LeastId : Shell → ℕ × Shell → Type 0
LeastId sh (zero, after) = (after ≡ sh) × ((i : ℕ) → i < length sh.ids → get_or sh.ids i 0 ≢ 0)
LeastId sh (suc i, after) =
    (i < length sh.ids)
    × (get_or sh.ids i 0 ≡ 0)
    × ((k : ℕ) → k < i → get_or sh.ids k 0 ≢ 0)
    × (after ≡ record sh { ids = set sh.ids i 1 })

-- setjobid gives the least free id and marks it, or gives 0 if there is none.
setjobid-LeastId : (sh : Shell) → LeastId sh (setjobid sh)
unfolding setjobid
setjobid-LeastId sh =
    let free = find_free-Free sh.ids in
    elim (Option-cases (find_free sh.ids)) [
      | inl full ↦ rw (full, setjobid) (refl, subst (λ o. Free sh.ids o) full free)
      | inr (i, at) ↦
          let there : Free sh.ids (some i) = subst (λ o. Free sh.ids o) at free in
          rw (at, setjobid) (there.0, there.1, there.2, refl)
    ]
