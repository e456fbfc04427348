-- ===== src/Sched/Life.antt =====
-- `fork`, `exit`, `wait`, `yield` and `sleep` of p4/xv6-public/proc.c. `sched()` and `swtch` hand the
-- processor over: each function is modelled up to that point, and from it on where it goes on.
pub mod Fork
pub mod Exit
pub mod Wait
use mathlib.Core.Option
use cs537projects.Base.{
  ℕ, zero, suc, ◌+◌, ◌-◌, ◌≡◌, Bool, true, false, ◌&&◌, ◌||◌, Option, none, some, List, [], ◌∷◌,
  map, ◌==◌, if◌then◌else◌, get_elem?, ◌++◌,
}
use cs537projects.Sched.Table.{
  ProcState, unused, embryo, sleeping, runnable, running, zombie, Chan, null, proc, Proc, Kernel,
  is_zombie, is_unused, modify, set_state, allocproc, kfree, wakeup1,
}

-- `filedup` on each open file, `fileclose` on each.
unfoldable pub dup_files : List (Option ℕ) → (ℕ → ℕ) → ℕ → ℕ
dup_files [] refs = refs
dup_files (none ∷ fs) refs = dup_files fs refs
dup_files (some f ∷ fs) refs = dup_files fs (λ g. if g == f then refs g + 1 else refs g)

unfoldable pub close_files : List (Option ℕ) → (ℕ → ℕ) → ℕ → ℕ
close_files [] refs = refs
close_files (none ∷ fs) refs = close_files fs refs
close_files (some f ∷ fs) refs = close_files fs (λ g. if g == f then refs g - 1 else refs g)

-- The fields that the child gets from its parent, in the slot `cur`.
abbrev pub child_of : ℕ → Proc → ℕ → Proc → Proc
child_of cur p pgdir np = record np {
  pgdir = pgdir;
  sz = p.sz;
  parent = some cur;
  ofile = p.ofile;
  cwd = p.cwd;
  name = p.name;
  state = runnable;
}

-- `np->kstack = 0; np->state = UNUSED`
abbrev pub abandon : Proc → Proc
abandon np = record np { kstack = 0; state = unused }

abbrev kstack_at : ℕ → List Proc → ℕ
kstack_at i t = elim (get_elem? t i) [ none ↦ 0 | some p ↦ p.kstack ]

abbrev pid_at : ℕ → List Proc → ℕ
pid_at i t = elim (get_elem? t i) [ none ↦ 0 | some p ↦ p.pid ]

-- `fork` from the slot `np` on. `copied` is the result of `copyuvm` (vm.c), `none` if it failed.
unfoldable pub fork_into : ℕ → Proc → Option ℕ → ℕ → Kernel → Option ℕ × Kernel
unfolding dup_files kfree
fork_into cur p copied np k = elim copied [
  | none ↦ (
    none,
    record k {
      table = modify np abandon k.table;
      freelist = kfree (kstack_at np k.table) k.freelist;
    },
  )
  | some pgdir ↦ (
    some (pid_at np k.table),
    record k {
      table = modify np (child_of cur p pgdir) k.table;
      file_ref = dup_files p.ofile k.file_ref;
      inode_ref = λ i. if i == p.cwd then k.inode_ref i + 1 else k.inode_ref i;
    },
  )
]

-- `fork` of the process `p` in the slot `cur`; `none` is -1.
unfoldable pub fork : ℕ → Proc → Option ℕ → Kernel → Option ℕ × Kernel
unfolding allocproc fork_into
fork cur p copied k =
    let (slot, k') = allocproc k in
    elim slot [ none ↦ (none, k') | some np ↦ fork_into cur p copied np k' ]

abbrev pub is_child : ℕ → Proc → Bool
is_child cur p = elim p.parent [ none ↦ false | some q ↦ q == cur ]

abbrev pub parent_chan : Option ℕ → Chan
parent_chan none = null
parent_chan (some q) = proc q

-- One round of the loop of `exit`, at the slots `i`, `i + 1`, …, over the whole table.
abbrev pub adopt : ℕ → Proc → Proc
adopt init p = record p { parent = some init }

abbrev pub adopt_at : ℕ → ℕ → List Proc → Proc → List Proc
adopt_at i init t p =
    if is_zombie p.state
    then wakeup1 (proc init) (modify i (adopt init) t)
    else modify i (adopt init) t

unfoldable pub adopt_round : ℕ → ℕ → ℕ → List Proc → List Proc
adopt_round i cur init t = elim (get_elem? t i) [
  | none ↦ t
  | some p ↦ if is_child cur p then adopt_at i init t p else t
]

unfoldable pub reparent : ℕ → ℕ → ℕ → ℕ → List Proc → List Proc
unfolding adopt_round
reparent zero i cur init t = t
reparent (suc n) i cur init t = reparent n (i + 1) cur init (adopt_round i cur init t)

-- `fileclose` and `iput` are taken for what they do to the counts.
abbrev pub closed : Proc → Proc
closed p = record p { ofile = map (λ f. none) p.ofile; cwd = 0 }

-- `exit` of the process `p` in the slot `cur`, up to `sched()`; `none` is the panic of `initproc`.
unfoldable pub exit : ℕ → ℕ → Proc → Kernel → Option Kernel
unfolding close_files reparent
exit nproc cur p k =
    if cur == k.init_proc
    then none
    else some (record k {
      table = modify cur (set_state zombie) (
          reparent nproc 0 cur k.init_proc
            (wakeup1 (parent_chan p.parent) (modify cur closed k.table)));
      file_ref = close_files p.ofile k.file_ref;
      inode_ref = λ i. if i == p.cwd then k.inode_ref i - 1 else k.inode_ref i;
    })

-- What `wait` does to the zombie child that it found.
abbrev pub reap : Proc → Proc
reap p = record p {
  kstack = 0;
  pid = 0;
  parent = none;
  name = elim p.name [ [] ↦ [] | c ∷ s ↦ 0 ∷ s ];
  killed = false;
  state = unused;
}

-- The scan of `wait`: the slot of the first zombie child, and `havekids` of a scan that found none.
unfoldable pub find_zombie : ℕ → List Proc → Option ℕ
find_zombie cur [] = none
find_zombie cur (p ∷ ps) =
    if is_child cur p && is_zombie p.state then some 0 else Option.map suc (find_zombie cur ps)

unfoldable pub have_kids : ℕ → List Proc → Bool
have_kids cur [] = false
have_kids cur (p ∷ ps) = is_child cur p || have_kids cur ps

pub data Waited : Type 0 where
  reaped : ℕ → Kernel → Waited
  no_children : Waited
  asleep : Kernel → Waited

abbrev pub sleep_on : Chan → Proc → Proc
sleep_on chan p = record p { chan = chan; state = sleeping }

-- One round of the `for(;;)` of `wait`, up to `sleep`, which is followed by another round. `pages`
-- are the pages that `freevm` (vm.c) gives back for a page directory.
unfoldable pub wait : (ℕ → List ℕ) → ℕ → Proc → Kernel → Waited
unfolding find_zombie have_kids kfree
wait pages cur p k = elim (find_zombie cur k.table) [
  | some i ↦ elim (get_elem? k.table i) [
    | none ↦ no_children
    | some z ↦ reaped z.pid (record k {
      table = modify i reap k.table;
      freelist = pages z.pgdir ++ kfree z.kstack k.freelist;
    })
  ]
  | none ↦
      if have_kids cur k.table && (if p.killed then false else true)
      then asleep (record k { table = modify cur (sleep_on (proc cur)) k.table })
      else no_children
]

unfoldable pub yield : ℕ → Kernel → Kernel
yield cur k = record k { table = modify cur (set_state runnable) k.table }

-- `sleep` up to `sched()`, and its "Tidy up" behind it.
unfoldable pub sleep : ℕ → Chan → Kernel → Kernel
sleep cur chan k = record k { table = modify cur (sleep_on chan) k.table }

unfoldable pub tidy_up : ℕ → Kernel → Kernel
tidy_up cur k = record k { table = modify cur (λ p. record p { chan = null }) k.table }
