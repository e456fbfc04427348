-- ===== src/Sched/System.antt =====
-- The process table under every operation of p4's kernel that is modelled, in any order: a process
-- calls, the timer and devices interrupt, the scheduler dispatches.
pub mod Pids
pub mod Keeps
pub mod Invariant
use cs537projects.Base.{ℕ, ◌≡◌, Option, none, some, List, get_elem?}
use cs537projects.Base.Int.{ℤ}
use cs537projects.Sched.Table.{Proc, Kernel, Chan, modify, kill, wakeup}
use cs537projects.Sched.Life.{fork, exit, wait, Waited, reaped, asleep, yield, sleep, tidy_up}
use cs537projects.Sched.Scheduler.{dispatch}
use cs537projects.Sched.Calls.{nice, sys_sleep, SleepCall, blocked, timer_interrupt}

-- One operation; `p` is the process in the slot that calls. `nproc` is NPROC, and `pages` are the
-- pages that `freevm` gives back.
pub data Step (nproc : ℕ) (pages : ℕ → List ℕ) (k : Kernel) : Kernel → Type 0 where
  forks :
      (cur : ℕ) (p : Proc) (copied : Option ℕ)
      → get_elem? k.table cur ≡ some p
      → Step nproc pages k (fork cur p copied k).1
  exits :
      (cur : ℕ) (p : Proc) {k' : Kernel}
      → get_elem? k.table cur ≡ some p
      → exit nproc cur p k ≡ some k'
      → Step nproc pages k k'
  waits :
      (cur : ℕ) (p : Proc) (pid : ℕ) {k' : Kernel}
      → get_elem? k.table cur ≡ some p
      → wait pages cur p k ≡ reaped pid k'
      → Step nproc pages k k'
  waits_asleep :
      (cur : ℕ) (p : Proc) {k' : Kernel}
      → get_elem? k.table cur ≡ some p
      → wait pages cur p k ≡ asleep k'
      → Step nproc pages k k'
  kills : (pid : ℕ) {k' : Kernel} → kill pid k ≡ some k' → Step nproc pages k k'
  wakes : (chan : Chan) → Step nproc pages k (wakeup chan k)
  yields : (cur : ℕ) → Step nproc pages k (yield cur k)
  sleeps : (cur : ℕ) (chan : Chan) → Step nproc pages k (sleep cur chan k)
  tidies : (cur : ℕ) → Step nproc pages k (tidy_up cur k)
  nices :
      (cur : ℕ) (p : Proc) (n : ℤ)
      → get_elem? k.table cur ≡ some p
      → Step nproc pages k (nice cur p n k).1
  sys_sleeps :
      (cur : ℕ) (p : Proc) (n : ℤ) {k' : Kernel}
      → get_elem? k.table cur ≡ some p
      → sys_sleep cur p n k ≡ blocked k'
      → Step nproc pages k k'
  ticks : Step nproc pages k (timer_interrupt k)
  dispatches : (i : ℕ) → Step nproc pages k (record k { table = modify i dispatch k.table })

pub data Reach (nproc : ℕ) (pages : ℕ → List ℕ) (k : Kernel) : Kernel → Type 0 where
  here : Reach nproc pages k k
  next :
      {k' k'' : Kernel} → Reach nproc pages k k' → Step nproc pages k' k'' → Reach nproc pages k k''
