-- ===== src/Sched/Table.antt =====
-- `struct proc`, `ptable`, and `allocproc`, `kill` and `wakeup1` of p4/xv6-public/proc.c. A process
-- is named by its slot in the table. `ptable.lock` makes each operation one step.
pub mod Slots
pub mod Kill
use mathlib.Core.Option
use cs537projects.Base.{
  ℕ, zero, suc, ◌+◌, ◌≡◌, Bool, true, false, ◌&&◌, Option, none, some, List, [], ◌∷◌, map, ◌==◌,
  if◌then◌else◌, get_elem?, length,
}
use cs537projects.Base.Int.{ℤ, pos, ◌-ℤ◌, ltb_ℤ, leb_ℤ}

-- enum procstate
pub data ProcState : Type 0 where
  unused embryo sleeping runnable running zombie : ProcState

-- What a process can sleep on: nothing, a process (in `wait`), `&ticks`, or another kernel object.
pub data Chan : Type 0 where
  null : Chan
  proc : ℕ → Chan
  ticks_addr : Chan
  other : ℕ → Chan

abbrev pub chan_eq : Chan → Chan → Bool
chan_eq null null = true
chan_eq (proc i) (proc j) = i == j
chan_eq ticks_addr ticks_addr = true
chan_eq (other a) (other b) = a == b
chan_eq _ _ = false

-- `struct proc` without its trap frame and context; 0 stands for a null `kstack` or `pgdir`.
pub record Proc : Type 0 where
  pub sz : ℕ
  pub pgdir : ℕ
  pub kstack : ℕ
  pub state : ProcState
  pub pid : ℕ
  pub parent : Option ℕ
  pub chan : Chan
  pub killed : Bool
  pub ofile : List (Option ℕ)
  pub cwd : ℕ
  pub name : List ℕ
  pub priority : ℤ
  pub nice : ℤ
  pub sleeptime : ℤ
  pub ticks : ℕ

-- The table, and the globals that its functions use: `nextpid`, `initproc`, the free list of
-- kalloc.c, the reference counts of open files and of inodes, and the global `ticks`.
pub record Kernel : Type 0 where
  pub table : List Proc
  pub next_pid : ℕ
  pub init_proc : ℕ
  pub freelist : List ℕ
  pub file_ref : ℕ → ℕ
  pub inode_ref : ℕ → ℕ
  pub ticks : ℕ

abbrev pub is_unused : ProcState → Bool
is_unused unused = true
is_unused _ = false

abbrev pub is_sleeping : ProcState → Bool
is_sleeping sleeping = true
is_sleeping _ = false

abbrev pub is_runnable : ProcState → Bool
is_runnable runnable = true
is_runnable _ = false

abbrev pub is_zombie : ProcState → Bool
is_zombie zombie = true
is_zombie _ = false

-- A write to the slot `i`; out of the table nothing is written.
abbrev pub modify : ℕ → (Proc → Proc) → List Proc → List Proc
modify i f [] = []
modify zero f (p ∷ ps) = f p ∷ ps
modify (suc i) f (p ∷ ps) = p ∷ modify i f ps

abbrev pub set_state : ProcState → Proc → Proc
set_state st p = record p { state = st }

-- The first loop of `allocproc`.
unfoldable pub find_unused : List Proc → Option ℕ
find_unused [] = none
find_unused (p ∷ ps) = if is_unused p.state then some 0 else Option.map suc (find_unused ps)

-- kalloc.c: the head of the free list, or 0.
unfoldable pub kalloc : List ℕ → Option ℕ × List ℕ
kalloc [] = (none, [])
kalloc (r ∷ rs) = (some r, rs)

unfoldable pub kfree : ℕ → List ℕ → List ℕ
kfree v freelist = v ∷ freelist

-- `p->state = EMBRYO; p->pid = nextpid++`
abbrev pub embryo_slot : ℕ → Proc → Proc
embryo_slot pid p = record p { state = embryo; pid = pid }

-- The rest of `allocproc`, with the kernel stack.
abbrev pub fresh_slot : ℕ → Proc → Proc
fresh_slot kstack p = record p {
  kstack = kstack;
  priority = pos 0;
  nice = pos 0;
  sleeptime = pos 0;
  ticks = 0;
}

-- `allocproc` at the slot that it found.
unfoldable pub alloc_at : ℕ → Kernel → Option ℕ × Kernel
unfolding kalloc
alloc_at i k =
    let claimed = modify i (embryo_slot k.next_pid) k.table in
    let (page, rest) = kalloc k.freelist in
    elim page [
      | none ↦ (
        none,
        record k {
          table = modify i (set_state unused) claimed;
          next_pid = k.next_pid + 1;
          freelist = rest;
        },
      )
      | some v ↦ (
        some i,
        record k {
          table = modify i (fresh_slot v) claimed;
          next_pid = k.next_pid + 1;
          freelist = rest;
        },
      )
    ]

unfoldable pub allocproc : Kernel → Option ℕ × Kernel
unfolding find_unused alloc_at
allocproc k = elim (find_unused k.table) [ none ↦ (none, k) | some i ↦ alloc_at i k ]

-- The body of the loop of `wakeup1`.
unfoldable pub wake_one : Chan → Proc → Proc
unfolding ◌-ℤ◌
wake_one chan p =
    if is_sleeping p.state && (chan_eq p.chan chan && leb_ℤ p.sleeptime (pos 0))
    then record p { state = runnable }
    else (if ltb_ℤ (pos 0) p.sleeptime then record p { sleeptime = p.sleeptime -ℤ pos 1 } else p)

abbrev pub wakeup1 : Chan → List Proc → List Proc
wakeup1 chan table = map (wake_one chan) table

unfoldable pub wakeup : Chan → Kernel → Kernel
wakeup chan k = record k { table = wakeup1 chan k.table }

-- The body of the loop of `kill` at the process that it found.
abbrev pub kill_one : Proc → Proc
kill_one p = record p { killed = true; state = if is_sleeping p.state then runnable else p.state }

-- `none` is the return value -1.
unfoldable pub kill_scan : ℕ → List Proc → Option (List Proc)
kill_scan pid [] = none
kill_scan pid (p ∷ ps) =
    if p.pid == pid then some (kill_one p ∷ ps) else Option.map (◌∷◌ p) (kill_scan pid ps)

unfoldable pub kill : ℕ → Kernel → Option Kernel
unfolding kill_scan
kill pid k = Option.map (λ t. record k { table = t }) (kill_scan pid k.table)
