-- ===== src/Mmap/Process.antt =====
-- allocproc, fork and exit of p5/xv6-public/proc.c for processes with mappings. copyuvm (vm.c) is a
-- parameter. `ptable.lock` makes each call one step.
pub mod Owners
pub mod Stacks
pub mod Kept
pub mod Lives
pub mod Forks
pub mod Ends
pub mod Reaped
pub mod Boot
pub mod Reachable
pub mod Wait
mod Tests
use cs537projects.Base.{
  ℕ, zero, suc, ◌+◌, ◌-◌, Bool, true, false, ◌&&◌, ◌||◌, not, Option, none, some, List, [], ◌∷◌,
  map, ◌==◌, if◌then◌else◌, set,
}
use cs537projects.Base.Int.{ℤ, pos, pos_part}
use cs537projects.Sched.Table.{
  ProcState, unused, embryo, sleeping, runnable, zombie, Chan, null, proc, chan_eq, is_unused,
  is_zombie, is_sleeping,
}
use cs537projects.Sched.Life.{dup_files, close_files}
use cs537projects.Mmap.{Vma, vma_at}
use cs537projects.Mmap.Pages.{Space, free_pages}
use cs537projects.Mmap.Unmap.{clear_maps}
use cs537projects.Mmap.Calls.{MmapArgs, sys_mmap, sys_munmap}
use cs537projects.Mmap.Fork.{Copied, stops, fails, copied, copy_maps}

-- `struct proc` without its trap frame and context; 0 is a null `kstack`. The free pages in `space`
-- are the kernel's, put there by `load`.
pub record Task : Type 0 where
  pub sz : ℕ
  pub space : Space
  pub kstack : ℕ
  pub state : ProcState
  pub pid : ℕ
  pub parent : Option ℕ
  pub chan : Chan
  pub ofile : List (Option ℕ)
  pub cwd : ℕ
  pub name : List ℕ

-- ptable.proc by slots, nextpid, initproc, the free list and the reference counts.
pub record System : Type 0 where
  pub tasks : ℕ → Task
  pub next_pid : ℕ
  pub init_proc : ℕ
  pub free : List ℕ
  pub file_ref : ℕ → ℕ
  pub inode_ref : ℕ → ℕ

abbrev pub nproc : ℕ
nproc = 64

abbrev pub set_task : ℕ → Task → System → System
set_task i x m = record m { tasks = λ j. if j == i then x else m.tasks j }

-- The mappings of the process in the slot `i`, to be worked on, and what comes of it.
abbrev pub load : ℕ → System → Space
load i m = record (m.tasks i).space { freelist = m.free }

abbrev pub store : ℕ → Space → System → System
store i s m = record (set_task i (record (m.tasks i) { space = s }) m) { free = s.freelist }

-- The first loop of allocproc.
unfoldable pub find_slot : ℕ → ℕ → (ℕ → Task) → Option ℕ
find_slot zero i tasks = none
find_slot (suc rounds) i tasks =
    let rest = find_slot rounds (i + 1) tasks in if is_unused (tasks i).state then some i else rest

-- p->state = EMBRYO, p->pid = nextpid++, the kernel stack, and p->total_vmas = 0.
abbrev pub new_task : ℕ → ℕ → Task → Task
new_task pid stack x = record x {
  state = embryo;
  pid = pid;
  kstack = stack;
  space = record x.space { total = pos 0 };
}

unfoldable pub alloc_slot : ℕ → System → Option ℕ × System
alloc_slot i m =
    let x = m.tasks i in
    elim m.free [
      | [] ↦ (
        none,
        record (set_task i (record x { state = unused; pid = m.next_pid; kstack = 0 }) m) {
          next_pid = m.next_pid + 1;
        },
      )
      | stack ∷ rest ↦ (
        some i,
        record (set_task i (new_task m.next_pid stack x) m) {
          next_pid = m.next_pid + 1;
          free = rest;
        },
      )
    ]

unfoldable pub allocproc : System → Option ℕ × System
unfolding find_slot alloc_slot
allocproc m = elim (find_slot nproc 0 m.tasks) [ none ↦ (none, m) | some i ↦ alloc_slot i m ]

-- The kernel stops in mappages or filedup, -1, or the pid of the child.
pub data Forked : Type 0 where
  stuck : Forked
  minus_one : System → Forked
  child : ℕ → System → Forked

-- kfree(np->kstack); np->kstack = 0; np->state = UNUSED
abbrev pub abandon : ℕ → System → System
abandon np m =
    let x = m.tasks np in
    record (set_task np (record x { kstack = 0; state = unused }) m) { free = x.kstack ∷ m.free }

-- The loop over the mappings from the entry `i` on: a mapping in use is copied whole and its file
-- gets a reference; `none` is filedup of a null pointer.
unfoldable pub dup_vmas : ℕ → ℕ → List Vma → List Vma → (ℕ → ℕ) → Option (List Vma × (ℕ → ℕ))
dup_vmas zero i from to refs = some (to, refs)
dup_vmas (suc rounds) i from to refs =
    let vma = vma_at i from in
    if vma.in_use == 0 then dup_vmas rounds (suc i) from to refs else (elim vma.file [
      | none ↦ none
      | some f ↦
          dup_vmas rounds (suc i) from (set to i vma) (λ g. if g == f then refs g + 1 else refs g)
    ])

-- The child's fields after copy_maps, and the counts.
unfoldable pub fill_child : ℕ → ℕ → Space → Space → System → Forked
unfolding dup_vmas dup_files
fill_child cur np p c m =
    let x = m.tasks cur in
    let y = m.tasks np in
    elim (dup_vmas (pos_part p.total) 0 p.vmas c.vmas m.file_ref) [
      | none ↦ stuck
      | some (vmas, refs) ↦
          child y.pid
            (record (set_task np
              (record y {
                space = record c { vmas = vmas };
                sz = x.sz;
                parent = some cur;
                ofile = x.ofile;
                cwd = x.cwd;
                name = x.name;
                state = runnable;
              })
              (store cur p m)) {
                file_ref = dup_files x.ofile refs;
                inode_ref = λ i. if i == x.cwd then m.inode_ref i + 1 else m.inode_ref i;
              })
    ]

-- The child's page table as copyuvm made it: these page-table pages, and no page of a mapping. The
-- user pages that it maps are left out.
abbrev pub new_table : (ℕ → Bool) → Task → Space
new_table tables x = record x.space { tables = tables; ptes = λ q. none }

-- fork from copy_maps on, in the slot `np`.
unfoldable pub fork_maps : ℕ → ℕ → (ℕ → Bool) → System → Forked
unfolding copy_maps fill_child
fork_maps cur np tables m = elim (copy_maps (load cur m) (new_table tables (m.tasks np))) [
  | stops ↦ stuck
  | fails p c ↦
      minus_one (abandon np (set_task np (record (m.tasks np) { space = c }) (store cur p m)))
  | copied p c ↦ fill_child cur np p c m
]

-- What copyuvm gives: the page-table pages, or `none`, and the free pages left.
unfoldable pub fork : (List ℕ → Option (ℕ → Bool) × List ℕ) → ℕ → System → Forked
unfolding allocproc fork_maps
fork copyuvm cur m =
    let (slot, m') = allocproc m in
    elim slot [
      | none ↦ minus_one m'
      | some np ↦
          let (tables, left) = copyuvm m'.free in
          let m'' : System = record m' { free = left } in
          elim tables [ none ↦ minus_one (abandon np m'') | some t ↦ fork_maps cur np t m'' ]
    ]

-- wakeup1
abbrev pub wake_one : Chan → Task → Task
wake_one chan x =
    if is_sleeping x.state && chan_eq x.chan chan then record x { state = runnable } else x

abbrev pub wakeup : Chan → System → System
wakeup chan m = record m { tasks = λ j. wake_one chan (m.tasks j) }

abbrev pub parent_chan : Option ℕ → Chan
parent_chan none = null
parent_chan (some q) = proc q

abbrev pub is_parent : ℕ → Option ℕ → Bool
is_parent cur none = false
is_parent cur (some q) = q == cur

-- The loop of exit that passes the children to initproc, from the slot `i` on.
unfoldable pub reparent : ℕ → ℕ → ℕ → System → System
reparent zero i cur m = m
reparent (suc rounds) i cur m =
    let x = m.tasks i in
    let moved = set_task i (record x { parent = some m.init_proc }) m in
    reparent rounds (suc i) cur (
      if is_parent cur x.parent
      then (if is_zombie x.state then wakeup (proc m.init_proc) moved else moved)
      else m)

-- exit of the process in the slot `cur` up to sched(); `none` is the panic of initproc.
unfoldable pub exit : (ℤ → Vma) → Bool → ℕ → System → Option System
unfolding clear_maps reparent close_files
exit outside write_ok cur m =
    if cur == m.init_proc
    then none
    else (let x = m.tasks cur in
        let s = clear_maps outside write_ok (load cur m) in
        let closed : System =
          record (set_task cur (record x { space = s; ofile = map (λ f. none) x.ofile; cwd = 0 })
            m) {
              free = s.freelist;
              file_ref = close_files x.ofile m.file_ref;
              inode_ref = λ i. if i == x.cwd then m.inode_ref i - 1 else m.inode_ref i;
            } in
        let passed = reparent nproc 0 cur (wakeup (parent_chan x.parent) closed) in
        some (set_task cur (record (passed.tasks cur) { state = zombie }) passed))

-- sys_mmap and sys_munmap of the process in the slot `i`.
unfoldable pub run_mmap : (ℤ → Vma) → Option MmapArgs → Option ℕ → ℕ → System → System
unfolding sys_mmap
run_mmap outside args fd i m =
    let s = load i m in
    let (r, maps, refs) =
      sys_mmap outside args fd (record { vmas = s.vmas; total = s.total }) m.file_ref in
    record (store i (record s { vmas = maps.vmas; total = maps.total }) m) { file_ref = refs }

unfoldable pub run_munmap : (ℤ → Vma) → Bool → Option (ℕ × ℕ) → ℕ → System → System
unfolding sys_munmap
run_munmap outside write_ok args i m = store i (sys_munmap outside write_ok args (load i m)).1 m
