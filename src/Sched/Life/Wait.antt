-- ===== src/Sched/Life/Wait.antt =====
-- `wait` reaps what `exit` leaves behind.
use mathlib.Core.Option
use cs537projects.Base.{
  ℕ, zero, suc, ◌<◌, ◌≡◌, refl, ◌≢◌, ap, ◌∙◌, inl, inr, true, false, ◌&&◌, Option, none, some, List,
  [], ◌∷◌, get_elem?, arith, Bool-cases, ◌++◌, ==_iff, subst, ◌==◌,
}
use cs537projects.Sched.Table.{Proc, ProcState, zombie, unused, Kernel, is_zombie, modify, kfree}
use cs537projects.Sched.Table.Slots.{get_elem?-modify_self, get_elem?-modify_ne}
use cs537projects.Sched.Life.{exit, is_child, find_zombie, wait, Waited, reaped, reap}
use cs537projects.Sched.Life.Fork.{SameBut}
use cs537projects.Sched.Life.Exit.{adopted, exit-zombie}

adopted-ne : (cur q init : ℕ) → q ≢ cur → adopted cur init (some q) ≡ some q
adopted-ne cur q init ne = ground arith

-- The slot `i` is a zombie child of `q`.
abbrev pub ZombieChild : ℕ → ℕ → List Proc → Type 0
ZombieChild q i t = (z : Proc) × (get_elem? t i ≡ some z) × (z.parent ≡ some q) × (z.state ≡ zombie)

is_child_self : (q : ℕ) (p : Proc) → p.parent ≡ some q → is_child q p ≡ true
is_child_self q p e =
    ap (λ (o : Option ℕ). elim o [ none ↦ false | some r ↦ r == q ]) e ∙ (==_iff q q).1 refl

parent-of_child :
    (q : ℕ) (o : Option ℕ) → elim o [ none ↦ false | some r ↦ r == q ] ≡ true → o ≡ some q
parent-of_child q none h = cc
parent-of_child q (some r) h = ap some ((==_iff r q).0 h)

zombie-of_test : (s : ProcState) → is_zombie s ≡ true → s ≡ zombie
zombie-of_test s h = ground arith

find_zombie-hit :
    (q : ℕ) (p : Proc) (t : List Proc)
    → p.parent ≡ some q
    → p.state ≡ zombie
    → find_zombie q (p ∷ t) ≡ some 0
unfolding find_zombie
find_zombie-hit q p t e z = rw (is_child_self q p e) (rw z)

find_zombie-miss :
    (q : ℕ) (p : Proc) (t : List Proc)
    → (is_child q p && is_zombie p.state) ≡ false
    → find_zombie q (p ∷ t) ≡ Option.map suc (find_zombie q t)
unfolding find_zombie
find_zombie-miss q p t e = rw e

find_zombie_complete :
    (q i : ℕ) (t : List Proc) → ZombieChild q i t → (j : ℕ) × (find_zombie q t ≡ some j)
find_zombie_complete q i [] h = cc (h.1)
find_zombie_complete q zero (p ∷ t) h = (
  0,
  find_zombie-hit q p t (same_slot h.1 ∙ h.2) (ap (λ (x : Proc). x.state) (some_of h.1) ∙ h.3),
)
  where
    some_of : {a b : Proc} → some a ≡ some b → a ≡ b
    some_of e = cc

    same_slot : {a b : Proc} → some a ≡ some b → a.parent ≡ b.parent
    same_slot e = ap (λ (x : Proc). x.parent) (some_of e)
find_zombie_complete q (suc i) (p ∷ t) h = elim (Bool-cases (is_child q p && is_zombie p.state)) [
  | inl hit ↦ (
    0,
    find_zombie-hit q p t (parent-of_child q p.parent (ground arith))
        (zombie-of_test p.state (ground arith)),
  )
  | inr miss ↦
      let (j, e) = find_zombie_complete q i t h in
      (suc j, find_zombie-miss q p t miss ∙ ap (Option.map suc) e)
]

abbrev FoundZombie : ℕ → Option ℕ → List Proc → Type 0
FoundZombie q none t = Unit {0}
FoundZombie q (some j) t = ZombieChild q j t

FoundZombie-suc :
    (q : ℕ) (o : Option ℕ) (p : Proc) (t : List Proc)
    → FoundZombie q o t
    → FoundZombie q (Option.map suc o) (p ∷ t)
FoundZombie-suc q none p t h = tt
FoundZombie-suc q (some j) p t h = h

find_zombie_sound : (q : ℕ) (t : List Proc) → FoundZombie q (find_zombie q t) t
unfolding find_zombie
find_zombie_sound q [] = tt
find_zombie_sound q (p ∷ t) = elim (Bool-cases (is_child q p && is_zombie p.state)) [
  | inl hit ↦
      rw hit
        (p, refl, parent-of_child q p.parent (ground arith), zombie-of_test p.state (ground arith))
  | inr miss ↦ rw miss (FoundZombie-suc q (find_zombie q t) p t (find_zombie_sound q t))
]

-- A slot that `allocproc` can take, and that belongs to no one.
pub record IsFree (r : Proc) : Type 0 where
  pub not_used : r.state ≡ unused
  pub no_pid : r.pid ≡ 0
  pub no_parent : r.parent ≡ none
  pub no_stack : r.kstack ≡ 0
  pub not_killed : r.killed ≡ false

-- One round of `wait` that finds a zombie child: it returns the child's pid and frees its slot, its
-- stack and the pages of its memory, and no other slot changes.
abbrev pub Reaps : (ℕ → List ℕ) → ℕ → Kernel → Waited → Type 0
Reaps pages q k result =
    (i : ℕ) × (z : Proc) × (k' : Kernel) × (result ≡ reaped z.pid k')
    × (get_elem? k.table i ≡ some z)
    × (z.parent ≡ some q)
    × (z.state ≡ zombie)
    × ((r : Proc) × (get_elem? k'.table i ≡ some r) × IsFree r)
    × SameBut i k.table k'.table
    × (k'.freelist ≡ pages z.pgdir ++ (z.kstack ∷ k.freelist))

wait-at :
    (pages : ℕ → List ℕ) (q i : ℕ) (w z : Proc) (k : Kernel)
    → find_zombie q k.table ≡ some i
    → get_elem? k.table i ≡ some z
    → wait pages q w k
      ≡ reaped z.pid (record k {
        table = modify i reap k.table;
        freelist = pages z.pgdir ++ (z.kstack ∷ k.freelist);
      })
unfolding wait kfree
wait-at pages q i w z k f e = rw (f, wait) (rw e)

-- Whenever the parent has a zombie child, `wait` reaps one and does not sleep.
wait-Reaps :
    (pages : ℕ → List ℕ) (q i : ℕ) (w : Proc) (k : Kernel)
    → ZombieChild q i k.table
    → Reaps pages q k (wait pages q w k)
wait-Reaps pages q i w k child =
    let (j, found) = find_zombie_complete q i k.table child in
    let (z, e, parent, state) =
      subst (λ o. FoundZombie q o k.table) found (find_zombie_sound q k.table) in
    (
      j,
      z,
      record k {
        table = modify j reap k.table;
        freelist = pages z.pgdir ++ (z.kstack ∷ k.freelist);
      },
      wait-at pages q j w z k found e,
      e,
      parent,
      state,
      (
        reap z,
        get_elem?-modify_self j reap k.table ∙ ap (Option.map reap) e,
        record {
          not_used = refl;
          no_pid = refl;
          no_parent = refl;
          no_stack = refl;
          not_killed = refl;
        },
      ),
      λ l ne. get_elem?-modify_ne j l reap k.table ne,
      refl,
    )

-- When a process other than `initproc` in the slot `cur` exits, and its parent is another process, the
-- next round of the parent's `wait` does not sleep: it returns the pid of a zombie child, leaves that
-- child's slot UNUSED, with no pid, no parent, no kernel stack and `killed` clear, changes no other
-- slot, and puts the child's pages and its kernel stack at the front of the free list.
pub wait-exit :
    (nproc cur q : ℕ) (pages : ℕ → List ℕ) (p w : Proc) (k k' : Kernel)
    → exit nproc cur p k ≡ some k'
    → get_elem? k.table cur ≡ some p
    → cur < nproc
    → p.parent ≡ some q
    → q ≢ cur
    → Reaps pages q k' (wait pages q w k')
wait-exit nproc cur q pages p w k k' h e lt parent ne =
    let (z, slot, adopter, state) = exit-zombie nproc cur p k k' h e lt in
    wait-Reaps pages q cur w k' (
      z,
      slot,
      adopter ∙ ap (adopted cur k.init_proc) parent ∙ adopted-ne cur q k.init_proc ne,
      state,
    )
