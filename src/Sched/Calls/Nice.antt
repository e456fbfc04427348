-- ===== src/Sched/Calls/Nice.antt =====
-- What `nice` promises, and what `getschedstate` shows of it.
use mathlib.Core.Option
use cs537projects.Base.{
  ℕ, zero, suc, Bool-cases, inl, inr, ◌≡◌, refl, ap, false, ◌||◌, ◌∙◌, some, List, [], ◌∷◌, arith,
  get_elem?, length, ◌≤◌,
}
use cs537projects.Base.Int.{ℤ, pos, ◌≤ℤ◌, ltb_ℤ}
use cs537projects.Sched.Table.{Proc, Kernel, modify, is_unused}
use cs537projects.Sched.Table.Slots.{get_elem?-modify_self, length-modify}
use cs537projects.Sched.Calls.{set_nice, nice, Info, fill_info, fill_infos, getschedstate}

-- The nice value of each slot is from 0 to 20.
abbrev pub NiceInRange : List Proc → Type 0
NiceInRange [] = Unit {0}
NiceInRange (p ∷ ps) = (pos 0 ≤ℤ p.nice) × (p.nice ≤ℤ pos 20) × NiceInRange ps

pub NiceInRange-modify :
    (i : ℕ) (f : Proc → Proc) (t : List Proc)
    → ((p : Proc)
        → (pos 0 ≤ℤ p.nice) × (p.nice ≤ℤ pos 20)
        → (pos 0 ≤ℤ (f p).nice) × ((f p).nice ≤ℤ pos 20))
    → NiceInRange t
    → NiceInRange (modify i f t)
NiceInRange-modify i f [] keep v = tt
NiceInRange-modify zero f (p ∷ ps) keep v = let here = keep p (v.0, v.1) in (here.0, here.1, v.2)
NiceInRange-modify (suc i) f (p ∷ ps) keep v = (v.0, v.1, NiceInRange-modify i f ps keep v.2)

get_elem?-fill_infos :
    (i : ℕ) (t : List Proc) (rs : List Info) (p : Proc)
    → length t ≤ length rs
    → get_elem? t i ≡ some p
    → (r : Info) × (get_elem? (fill_infos t rs) i ≡ some (fill_info p r))
unfolding fill_infos
get_elem?-fill_infos i [] rs p h e = cc
get_elem?-fill_infos i (q ∷ t) [] p h e = absurd (omega arith)
get_elem?-fill_infos zero (q ∷ t) (r ∷ rs) p h e = (r, ap (Option.map (λ x. fill_info x r)) e)
get_elem?-fill_infos (suc i) (q ∷ t) (r ∷ rs) p h e = get_elem?-fill_infos i t rs p (omega arith) e

fill_info-in_use :
    (p : Proc) (r : Info)
    → is_unused p.state ≡ false
    → fill_info p r
      ≡ record { inuse = 1; priority = p.priority; nice = p.nice; pid = p.pid; ticks = p.ticks }
unfolding fill_info
fill_info-in_use p r used = rw used

in_range : (n : ℤ) → pos 0 ≤ℤ n → n ≤ℤ pos 20 → (ltb_ℤ n (pos 0) || ltb_ℤ (pos 20) n) ≡ false
in_range n low high = ground arith

-- `nice` with a value from 0 to 20 returns the old value, and `getschedstate` then shows the new one
-- for a process in use, beside its pid, priority and ticks, which `nice` leaves alone.
getschedstate-nice :
    (cur : ℕ) (p : Proc) (n : ℤ) (k : Kernel) (rs : List Info)
    → get_elem? k.table cur ≡ some p
    → is_unused p.state ≡ false
    → length k.table ≤ length rs
    → pos 0 ≤ℤ n
    → n ≤ℤ pos 20
    → ((nice cur p n k).0 ≡ some p.nice)
      × ((out : List Info) × (getschedstate (some rs) (nice cur p n k).1 ≡ some out)
          × (get_elem? out cur
              ≡ some (record {
                inuse = 1;
                priority = p.priority;
                nice = n;
                pid = p.pid;
                ticks = p.ticks;
              })))
unfolding nice getschedstate
getschedstate-nice cur p n k rs e used room low high =
    let t : List Proc = modify cur (set_nice n) k.table in
    let q : Proc = set_nice n p in
    let slot : get_elem? t cur ≡ some q =
      get_elem?-modify_self cur (set_nice n) k.table ∙ ap (Option.map (set_nice n)) e in
    let (r, shown) =
      get_elem?-fill_infos cur t rs q (omega (arith, length-modify cur (set_nice n) k.table))
        slot in
    rw (in_range n low high)
      (refl, (fill_infos t rs, refl, shown ∙ ap some (fill_info-in_use q r used)))

-- Every call of `nice`, whatever its argument, keeps each nice value of the table from 0 to 20.
nice-NiceInRange :
    (cur : ℕ) (p : Proc) (n : ℤ) (k : Kernel)
    → NiceInRange k.table
    → NiceInRange (nice cur p n k).1.table
unfolding nice
nice-NiceInRange cur p n k v = elim (Bool-cases (ltb_ℤ n (pos 0) || ltb_ℤ (pos 20) n)) [
  | inl bad ↦ rw bad v
  | inr good ↦ rw good (NiceInRange-modify cur (set_nice n) k.table (λ q h. ground arith) v)
]
