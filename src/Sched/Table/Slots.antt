-- ===== src/Sched/Table/Slots.antt =====
-- Slots of the process table: reading after a write, the pids of a table, the scan of `allocproc`.
use mathlib.Core.Option
use cs537projects.Base.{
  ℕ, zero, suc, ◌≡◌, refl, ◌≢◌, ap, true, false, Bool-cases, Option, none, some, List, [], ◌∷◌, map,
  inl, inr, get_elem?, length, set,
}
use cs537projects.Sched.Table.{Proc, is_unused, modify, find_unused}

pub get_elem?-modify_self :
    (i : ℕ) (f : Proc → Proc) (t : List Proc)
    → get_elem? (modify i f t) i ≡ Option.map f (get_elem? t i)
get_elem?-modify_self i f [] = refl
get_elem?-modify_self zero f (p ∷ ps) = refl
get_elem?-modify_self (suc i) f (p ∷ ps) = get_elem?-modify_self i f ps

pub get_elem?-modify_ne :
    (i j : ℕ) (f : Proc → Proc) (t : List Proc) → i ≢ j → get_elem? (modify i f t) j ≡ get_elem? t j
get_elem?-modify_ne i j f [] h = refl
get_elem?-modify_ne zero zero f (p ∷ ps) h = absurd (h refl)
get_elem?-modify_ne zero (suc j) f (p ∷ ps) h = refl
get_elem?-modify_ne (suc i) zero f (p ∷ ps) h = refl
get_elem?-modify_ne (suc i) (suc j) f (p ∷ ps) h = get_elem?-modify_ne i j f ps (λ e. h (ap suc e))

pub get_elem?-map :
    (f : Proc → Proc) (t : List Proc) (i : ℕ) → get_elem? (map f t) i ≡ Option.map f (get_elem? t i)
get_elem?-map f [] i = refl
get_elem?-map f (p ∷ ps) zero = refl
get_elem?-map f (p ∷ ps) (suc i) = get_elem?-map f ps i

pub length-modify : (i : ℕ) (f : Proc → Proc) (t : List Proc) → length (modify i f t) ≡ length t
length-modify i f [] = refl
length-modify zero f (p ∷ ps) = refl
length-modify (suc i) f (p ∷ ps) = ap suc (length-modify i f ps)

abbrev pub pids : List Proc → List ℕ
pids [] = []
pids (p ∷ ps) = p.pid ∷ pids ps

-- A write that keeps the pid, and one that sets it.
pub pids-modify_same :
    (i : ℕ) (f : Proc → Proc) (t : List Proc)
    → ((p : Proc) → (f p).pid ≡ p.pid)
    → pids (modify i f t) ≡ pids t
pids-modify_same i f [] h = refl
pids-modify_same zero f (p ∷ ps) h = ap (λ n. n ∷ pids ps) (h p)
pids-modify_same (suc i) f (p ∷ ps) h = ap (◌∷◌ p.pid) (pids-modify_same i f ps h)

pub pids-modify-set :
    (i : ℕ) (f : Proc → Proc) (t : List Proc) (v : ℕ)
    → ((p : Proc) → (f p).pid ≡ v)
    → pids (modify i f t) ≡ set (pids t) i v
pids-modify-set i f [] v h = refl
pids-modify-set zero f (p ∷ ps) v h = ap (λ n. n ∷ pids ps) (h p)
pids-modify-set (suc i) f (p ∷ ps) v h = ap (◌∷◌ p.pid) (pids-modify-set i f ps v h)

pub pids-map_same :
    (f : Proc → Proc) (t : List Proc) → ((p : Proc) → (f p).pid ≡ p.pid) → pids (map f t) ≡ pids t
pids-map_same f [] h = refl
pids-map_same f (p ∷ ps) h = rw (h p, pids-map_same f ps h)

-- The slot that `allocproc` finds is UNUSED, and every slot before it is in use.
abbrev pub FirstUnused : ℕ → List Proc → Type 0
FirstUnused i [] = ⊥
FirstUnused zero (p ∷ ps) = is_unused p.state ≡ true
FirstUnused (suc i) (p ∷ ps) = (is_unused p.state ≡ false) × FirstUnused i ps

abbrev pub AllInUse : List Proc → Type 0
AllInUse [] = Unit {0}
AllInUse (p ∷ ps) = (is_unused p.state ≡ false) × AllInUse ps

abbrev pub Found : Option ℕ → List Proc → Type 0
Found none t = AllInUse t
Found (some i) t = FirstUnused i t

Found-suc :
    (o : Option ℕ) (p : Proc) (ps : List Proc)
    → is_unused p.state ≡ false
    → Found o ps
    → Found (Option.map suc o) (p ∷ ps)
Found-suc none p ps e h = (e, h)
Found-suc (some i) p ps e h = (e, h)

find_unused-Found : (t : List Proc) → Found (find_unused t) t
unfolding find_unused
find_unused-Found [] = tt
find_unused-Found (p ∷ ps) = elim (Bool-cases (is_unused p.state)) [
  | inl e ↦ rw e e
  | inr e ↦ rw e (Found-suc (find_unused ps) p ps e (find_unused-Found ps))
]

get_elem?-FirstUnused :
    (i : ℕ) (t : List Proc)
    → FirstUnused i t
    → (p : Proc) × (get_elem? t i ≡ some p) × (is_unused p.state ≡ true)
get_elem?-FirstUnused i [] h = absurd h
get_elem?-FirstUnused zero (p ∷ ps) h = (p, refl, h)
get_elem?-FirstUnused (suc i) (p ∷ ps) h = get_elem?-FirstUnused i ps h.1
