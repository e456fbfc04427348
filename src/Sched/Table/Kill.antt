-- ===== src/Sched/Table/Kill.antt =====
-- What `kill` promises, on both branches.
use mathlib.Core.Option
use cs537projects.Base.{
  ℕ, ◌≡◌, refl, ◌≢◌, ap, Bool-cases, Option, none, some, List, [], ◌∷◌, ◌++◌, inl, inr, ◌==◌,
  ==_iff,
}
use cs537projects.Sched.Table.{Proc, Kernel, kill_one, kill_scan, kill}

abbrev pub NoPid : ℕ → List Proc → Type 0
NoPid n [] = Unit {0}
NoPid n (p ∷ ps) = (p.pid ≢ n) × NoPid n ps

-- The first process with the pid is marked and woken, and no other changes; or there is none.
abbrev pub Killed : ℕ → List Proc → Option (List Proc) → Type 0
Killed n t none = NoPid n t
Killed n t (some u) =
    (before : List Proc) × (p : Proc) × (after : List Proc) × (t ≡ before ++ (p ∷ after))
    × (u ≡ before ++ (kill_one p ∷ after))
    × NoPid n before
    × (p.pid ≡ n)

Killed-cons :
    (n : ℕ) (p : Proc) (t : List Proc) (o : Option (List Proc))
    → p.pid ≢ n
    → Killed n t o
    → Killed n (p ∷ t) (Option.map (◌∷◌ p) o)
Killed-cons n p t none ne h = (ne, h)
Killed-cons n p t (some u) ne h =
    (p ∷ h.0, h.1, h.2, ap (◌∷◌ p) h.3, ap (◌∷◌ p) h.4, (ne, h.5), h.6)

kill_scan-Killed : (n : ℕ) (t : List Proc) → Killed n t (kill_scan n t)
unfolding kill_scan
kill_scan-Killed n [] = tt
kill_scan-Killed n (p ∷ t) = elim (Bool-cases (p.pid == n)) [
  | inl e ↦ rw e ([], p, t, refl, refl, tt, (==_iff p.pid n).0 e)
  | inr e ↦
      rw e
        (Killed-cons n p t (kill_scan n t) (λ h. cc ((==_iff p.pid n).1 h)) (kill_scan-Killed n t))
]

-- `kill` returns -1 exactly if no process has the pid; otherwise the first process that has it is
-- marked killed and, if it slept, made RUNNABLE, and nothing else in the table changes.
kill-Killed :
    (n : ℕ) (k : Kernel) → Killed n k.table (Option.map (λ (k' : Kernel). k'.table) (kill n k))
unfolding kill
kill-Killed n k = map_table (kill_scan n k.table) (kill_scan-Killed n k.table)
  where
    map_table :
        (o : Option (List Proc))
        → Killed n k.table o
        → Killed n k.table (
            Option.map
              (λ (k' : Kernel). k'.table)
              (Option.map (λ (t : List Proc). record k { table = t }) o))
    map_table none h = h
    map_table (some u) h = h
