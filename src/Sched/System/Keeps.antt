-- ===== src/Sched/System/Keeps.antt =====
-- Every operation keeps the pids distinct.
use cs537projects.Base.{
  ℕ, zero, suc, ◌+◌, ◌<◌, ◌≡◌, refl, inl, inr, sym, ◌∙◌, subst, Bool, true, false, ◌&&◌, List, [],
  ◌∷◌, arith, set, Option, none, some, get_elem?, Bool-cases, Option-cases, if◌then◌else◌, ◌==◌,
}
use cs537projects.Sched.Table.{
  Proc, Kernel, Chan, modify, wakeup1, wake_one, find_unused, alloc_at, allocproc, kalloc,
  embryo_slot, fresh_slot, set_state, unused, zombie, is_zombie,
}
use cs537projects.Sched.Table.Slots.{pids, pids-modify_same, pids-modify-set, pids-map_same}
use cs537projects.Sched.Life.{
  fork, fork_into, exit, wait, Waited, reaped, no_children, asleep, abandon, child_of, reparent,
  adopt_round, adopt_at, adopt, is_child, find_zombie, have_kids, reap, closed, sleep_on,
  parent_chan,
}
use cs537projects.Sched.Calls.{SleepCall, returned, interrupted, blocked}
use cs537projects.Sched.System.Pids.{
  Distinct, AllBelow, Distinct-set, AllBelow-set, AllBelow-suc, NotIn-of_below,
}

-- No two slots have one pid (0 is none), and `nextpid` is above them all.
pub record PidsOk (k : Kernel) : Type 0 where
  pub positive : 0 < k.next_pid
  pub distinct : Distinct (pids k.table)
  pub below : AllBelow k.next_pid (pids k.table)

-- An operation that keeps the column of pids and `nextpid`.
pub same-PidsOk :
    (k k' : Kernel) → pids k'.table ≡ pids k.table → k'.next_pid ≡ k.next_pid → PidsOk k → PidsOk k'
same-PidsOk k k' e n v = record {
  positive = omega arith;
  distinct = subst Distinct (sym e) v.distinct;
  below =
      subst (λ l. AllBelow k'.next_pid l) (sym e)
        (subst (λ m. AllBelow m (pids k.table)) (sym n) v.below);
}

pub pids-wakeup1 : (c : Chan) (t : List Proc) → pids (wakeup1 c t) ≡ pids t
pids-wakeup1 c t = pids-map_same (wake_one c) t (pid-wake_one c)
  where
    pid-wake_one : (c : Chan) (p : Proc) → (wake_one c p).pid ≡ p.pid
    pid-wake_one c p = unfold wake_one in ground arith

pids-alloc_at :
    (i page : ℕ) (n : ℕ) (t : List Proc)
    → pids (modify i (fresh_slot page) (modify i (embryo_slot n) t)) ≡ set (pids t) i n
pids-alloc_at i page n t =
    pids-modify_same i (fresh_slot page) (modify i (embryo_slot n) t) (λ p. refl)
    ∙ pids-modify-set i (embryo_slot n) t n (λ p. refl)

pids-alloc_failed :
    (i n : ℕ) (t : List Proc)
    → pids (modify i (set_state unused) (modify i (embryo_slot n) t)) ≡ set (pids t) i n
pids-alloc_failed i n t =
    pids-modify_same i (set_state unused) (modify i (embryo_slot n) t) (λ p. refl)
    ∙ pids-modify-set i (embryo_slot n) t n (λ p. refl)

-- A slot gets the pid `nextpid`, which is then counted up.
claim-PidsOk :
    (i : ℕ) (k k' : Kernel)
    → pids k'.table ≡ set (pids k.table) i k.next_pid
    → k'.next_pid ≡ k.next_pid + 1
    → PidsOk k
    → PidsOk k'
claim-PidsOk i k k' e n v = record {
  positive = omega arith;
  distinct = subst Distinct (sym e) (
      Distinct-set k.next_pid i (pids k.table)
        (inr (NotIn-of_below k.next_pid (pids k.table) v.below)) v.distinct);
  below =
      subst (λ l. AllBelow k'.next_pid l) (sym e)
        (subst (λ m. AllBelow m (set (pids k.table) i k.next_pid)) (sym n)
          (AllBelow-set (k.next_pid + 1) k.next_pid i (pids k.table) (omega arith)
            (AllBelow-suc k.next_pid (pids k.table) v.below)));
}

alloc_at-PidsOk :
    (i : ℕ) (fl : List ℕ) (k : Kernel)
    → PidsOk k
    → PidsOk (alloc_at i (record k { freelist = fl })).1
unfolding alloc_at kalloc
alloc_at-PidsOk i [] k v = claim-PidsOk i k _ (pids-alloc_failed i k.next_pid k.table) refl v
alloc_at-PidsOk i (r ∷ rs) k v = claim-PidsOk i k _ (pids-alloc_at i r k.next_pid k.table) refl v

allocproc-PidsOk : (k : Kernel) → PidsOk k → PidsOk (allocproc k).1
unfolding allocproc
allocproc-PidsOk k v = elim (Option-cases (find_unused k.table)) [
  | inl e ↦ rw (e, allocproc) v
  | inr (i, e) ↦ rw (e, allocproc) (alloc_at-PidsOk i k.freelist k v)
]

fork_into-PidsOk :
    (cur : ℕ) (p : Proc) (copied : Option ℕ) (np : ℕ) (k : Kernel)
    → PidsOk k
    → PidsOk (fork_into cur p copied np k).1
unfolding fork_into
fork_into-PidsOk cur p none np k v =
    same-PidsOk k _ (pids-modify_same np abandon k.table (λ q. refl)) refl v
fork_into-PidsOk cur p (some d) np k v =
    same-PidsOk k _ (pids-modify_same np (child_of cur p d) k.table (λ q. refl)) refl v

pub fork-PidsOk :
    (cur : ℕ) (p : Proc) (copied : Option ℕ) (k : Kernel)
    → PidsOk k
    → PidsOk (fork cur p copied k).1
unfolding fork
fork-PidsOk cur p copied k v = after_alloc (allocproc k).0 (allocproc k).1 (allocproc-PidsOk k v)
  where
    after_alloc :
        (slot : Option ℕ) (k' : Kernel)
        → PidsOk k'
        → PidsOk
            (elim slot as (λ s. Option ℕ × Kernel) [
              | none ↦ (none, k')
              | some np ↦ fork_into cur p copied np k'
            ]).1
    after_alloc none k' v' = v'
    after_alloc (some np) k' v' = fork_into-PidsOk cur p copied np k' v'

pids-adopt_round : (i cur init : ℕ) (t : List Proc) → pids (adopt_round i cur init t) ≡ pids t
unfolding adopt_round
pids-adopt_round i cur init t = at_slot (get_elem? t i)
  where
    same : pids (modify i (adopt init) t) ≡ pids t
    same = pids-modify_same i (adopt init) t (λ q. refl)

    adopted :
        (z : Bool)
        → pids (
            if z
            then wakeup1 (Chan.proc init) (modify i (adopt init) t)
            else modify i (adopt init) t)
          ≡ pids t
    adopted true = pids-wakeup1 (Chan.proc init) (modify i (adopt init) t) ∙ same
    adopted false = same

    of_child : (c : Bool) (p : Proc) → pids (if c then adopt_at i init t p else t) ≡ pids t
    of_child true p = adopted (is_zombie p.state)
    of_child false p = refl

    at_slot :
        (o : Option Proc)
        → pids (elim o as (λ s. List Proc) [
          | none ↦ t
          | some p ↦ if is_child cur p then adopt_at i init t p else t
        ])
          ≡ pids t
    at_slot none = refl
    at_slot (some p) = of_child (is_child cur p) p

pids-reparent : (n i cur init : ℕ) (t : List Proc) → pids (reparent n i cur init t) ≡ pids t
unfolding reparent
pids-reparent zero i cur init t = refl
pids-reparent (suc n) i cur init t =
    pids-reparent n (i + 1) cur init (adopt_round i cur init t) ∙ pids-adopt_round i cur init t

-- What holds of the kernel that a call leaves, if it leaves one.
abbrev pub IfSome : Option Kernel → Type 0
IfSome none = Unit {0}
IfSome (some k) = PidsOk k

abbrev pub IfWaited : Waited → Type 0
IfWaited (reaped pid k) = PidsOk k
IfWaited no_children = Unit {0}
IfWaited (asleep k) = PidsOk k

abbrev pub IfBlocked : SleepCall → Type 0
IfBlocked returned = Unit {0}
IfBlocked interrupted = Unit {0}
IfBlocked (blocked k) = PidsOk k

pub exit-PidsOk : (nproc cur : ℕ) (p : Proc) (k : Kernel) → PidsOk k → IfSome (exit nproc cur p k)
unfolding exit
exit-PidsOk nproc cur p k v = elim (Bool-cases (cur == k.init_proc)) [
  | inl e ↦ rw e tt
  | inr e ↦ rw e (
      same-PidsOk k _
        (pids-modify_same cur (set_state zombie) _ (λ q. refl)
          ∙ pids-reparent nproc 0 cur k.init_proc _
          ∙ pids-wakeup1 (parent_chan p.parent) (modify cur closed k.table)
          ∙ pids-modify_same cur closed k.table (λ q. refl))
        refl v)
]

reap-PidsOk :
    (i : ℕ) (fl : List ℕ) (k : Kernel)
    → PidsOk k
    → PidsOk (record k { table = modify i reap k.table; freelist = fl })
reap-PidsOk i fl k v =
    let e : pids (modify i reap k.table) ≡ set (pids k.table) i 0 =
      pids-modify-set i reap k.table 0 (λ q. refl) in
    record {
      positive = v.positive;
      distinct = subst Distinct (sym e) (Distinct-set 0 i (pids k.table) (inl refl) v.distinct);
      below =
          subst (λ l. AllBelow k.next_pid l) (sym e)
            (AllBelow-set k.next_pid 0 i (pids k.table) v.positive v.below);
    }

pub wait-PidsOk :
    (pages : ℕ → List ℕ) (cur : ℕ) (p : Proc) (k : Kernel)
    → PidsOk k
    → IfWaited (wait pages cur p k)
unfolding wait
wait-PidsOk pages cur p k v = elim (Option-cases (find_zombie cur k.table)) [
  | inl e ↦
      rw (e, wait)
        (elim (Bool-cases (have_kids cur k.table && (if p.killed then false else true))) [
          | inl kids ↦ rw kids (
              same-PidsOk k _ (pids-modify_same cur (sleep_on (Chan.proc cur)) k.table (λ q. refl))
                refl v)
          | inr none_left ↦ rw none_left tt
        ])
  | inr (i, e) ↦
      rw (e, wait)
        (elim (Option-cases (get_elem? k.table i)) [
          | inl gone ↦ rw (gone, wait) tt
          | inr (z, found) ↦ rw (found, wait) (reap-PidsOk i _ k v)
        ])
]
