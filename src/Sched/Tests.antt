-- ===== src/Sched/Tests.antt =====
-- The theorems about the process table at a small table: init in slot 0, a child in slot 1 that
-- waits for its own child in slot 2, and a free slot 3.
use mathlib.Core.Option
use cs537projects.Base.{ℕ, ◌≡◌, refl, false, Option, none, some, [], ◌∷◌, arith, inl, inr}
use cs537projects.Base.Int.{pos}
use cs537projects.Sched.Table.{
  Proc, ProcState, unused, sleeping, runnable, running, Chan, null, proc, Kernel,
}
use cs537projects.Sched.Life.{fork, exit, wait}
use cs537projects.Sched.Life.Fork.{fork-child}
use cs537projects.Sched.Life.Exit.{parent_at, state_at, adopted, exit-parents, exit-wakes_parent}
use cs537projects.Sched.Life.Wait.{Reaps, wait-exit}
use cs537projects.Sched.Calls.{nice, Info, sys_sleep, blocked}
use cs537projects.Sched.Calls.Sleep.{timer_interrupts, sys_sleep-ticks}
use cs537projects.Sched.Calls.Sleep
use cs537projects.Sched.System.{forks, nices, here, next}
use cs537projects.Sched.System.Keeps.{PidsOk}
use cs537projects.Sched.System.Invariant.{Reach-PidsOk}

abbrev slot : ProcState → ℕ → Option ℕ → Chan → Proc
slot st pid parent chan = record {
  sz = 4096;
  pgdir = 8;
  kstack = 16;
  state = st;
  pid = pid;
  parent = parent;
  chan = chan;
  killed = false;
  ofile = some 3 ∷ none ∷ [];
  cwd = 1;
  name = b's' ∷ b'h' ∷ [];
  priority = pos 0;
  nice = pos 0;
  sleeptime = pos 0;
  ticks = 5;
}

abbrev shell : Proc
shell = slot sleeping 2 (some 0) (proc 1)

abbrev child : Proc
child = slot running 3 (some 1) null

abbrev free_slot : Proc
free_slot = slot unused 0 none null

abbrev machine : Kernel
machine = record {
  table = slot sleeping 1 none (proc 0) ∷ shell ∷ child ∷ free_slot ∷ [];
  next_pid = 4;
  init_proc = 0;
  freelist = 24 ∷ 32 ∷ [];
  file_ref = λ f. 1;
  inode_ref = λ i. 1;
  ticks = 100;
}

machine-PidsOk : PidsOk machine
machine-PidsOk = record {
  positive = omega arith;
  distinct = (inr (omega arith), (inr (omega arith), (inr (omega arith), (inl refl, tt))));
  below = omega arith;
}

fork_pid : (fork 2 child (some 40) machine).0 ≡ some 4
unfolding fork
fork_pid = refl

fork-child_example : (fork 2 child (some 40) machine).0 ≡ some 4
fork-child_example =
    (fork-child 2 child free_slot 40 24 3 (32 ∷ []) machine (refl, (refl, (refl, refl))) refl
      refl).0

-- The machine after the child in slot 2 has exited.
abbrev after_exit : Kernel
after_exit = elim (exit 4 2 child machine) [ none ↦ machine | some k ↦ k ]

exits_to : exit 4 2 child machine ≡ some after_exit
unfolding exit
exits_to = refl

exit-parents_example :
    parent_at 2 after_exit.table ≡ Option.map (adopted 2 0) (parent_at 2 machine.table)
exit-parents_example = exit-parents 4 2 2 child machine after_exit exits_to (omega arith)

exit-wakes_parent_example : state_at 1 after_exit.table ≡ some runnable
exit-wakes_parent_example =
    exit-wakes_parent 4 2 1 child shell machine after_exit exits_to refl (omega arith) refl refl
      refl (omega arith)

wait-exit_example : Reaps (λ d. d ∷ []) 1 after_exit (wait (λ d. d ∷ []) 1 shell after_exit)
wait-exit_example =
    wait-exit 4 2 1 (λ d. d ∷ []) child shell machine after_exit exits_to refl (omega arith) refl
      (omega arith)

sys_sleep-ticks_example :
    (k' : Kernel) × (sys_sleep 2 child (pos 3) machine ≡ blocked k')
    × (Sleep.state_at 2 (timer_interrupts 3 k') ≡ some sleeping)
    × (Sleep.state_at 2 (timer_interrupts 4 k') ≡ some runnable)
sys_sleep-ticks_example =
    sys_sleep-ticks 2 3 child machine (omega arith) (omega arith) (omega arith) refl refl

abbrev blank : Info
blank = record { inuse = 0; priority = pos 0; nice = pos 0; pid = 0; ticks = 0 }

Reach-PidsOk_example : PidsOk (nice 2 child (pos 7) (fork 2 child (some 40) machine).1).1
unfolding fork
Reach-PidsOk_example =
    Reach-PidsOk 4 (λ d. d ∷ [])
      (next (next here (forks 2 child (some 40) refl)) (nices 2 child (pos 7) refl)) machine-PidsOk
