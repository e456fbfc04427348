-- ===== src/Mmap/Process/Tests.antt =====
-- The theorem about processes with mappings at a run of calls: the first process maps a page, touches
-- it, and forks.
use cs537projects.Base.{
  ℕ, zero, suc, ◌≡◌, refl, Bool, false, Option, none, some, List, [], ◌∷◌, replicate, arith,
}
use cs537projects.Base.Int.{ℤ, pos}
use cs537projects.Sched.Table.{unused, running, null}
use cs537projects.Mmap.{Vma, no_vma}
use cs537projects.Mmap.Pages.{Space, Outcome, panics, out_of_memory, runs}
use cs537projects.Mmap.Fault.{pgft_handler}
use cs537projects.Mmap.Calls.{MmapArgs, sys_mmap}
use cs537projects.Mmap.Process.{
  Task, System, load, store, Forked, stuck, minus_one, child, fork, run_mmap,
}
use cs537projects.Mmap.Process.Kept.{SystemOk}
use cs537projects.Mmap.Process.Reachable.{Reach, boot, fault, mmap, forked, Reach-SystemOk}
use cs537projects.Mmap.Process.Boot.{Booted}

abbrev no_space : Space
no_space = record {
  vmas = replicate 32 no_vma;
  total = pos 0;
  tables = λ t. false;
  ptes = λ q. none;
  freelist = [];
  killed = false;
  reads = [];
  writes = [];
}

abbrev blank : Task
blank = record {
  sz = 0;
  space = no_space;
  kstack = 0;
  state = unused;
  pid = 0;
  parent = none;
  chan = null;
  ofile = [];
  cwd = 1;
  name = [];
}

abbrev first_tasks : ℕ → Task
first_tasks zero = record blank { kstack = 9; state = running; pid = 1 }
first_tasks (suc i) = blank

abbrev machine : System
machine = record {
  tasks = first_tasks;
  next_pid = 2;
  init_proc = 0;
  free = 10 ∷ 11 ∷ 12 ∷ 13 ∷ 14 ∷ [];
  file_ref = λ f. 0;
  inode_ref = λ i. 1;
}

abbrev outside : ℤ → Vma
outside i = no_vma

abbrev no_mapping : (i q : ℕ) → ((machine.tasks i).space.ptes q ≡ none)
no_mapping zero q = refl
no_mapping (suc i) q = refl

machine-Booted : Booted machine
machine-Booted = record {
  no_pages = λ i q. no_mapping i q;
  free_once = (
    (
      (λ e. omega (arith, e)),
      ((λ e. omega (arith, e)), ((λ e. omega (arith, e)), ((λ e. omega (arith, e)), tt))),
    ),
    (
      ((λ e. omega (arith, e)), ((λ e. omega (arith, e)), ((λ e. omega (arith, e)), tt))),
      (
        ((λ e. omega (arith, e)), ((λ e. omega (arith, e)), tt)),
        (((λ e. omega (arith, e)), tt), (tt, tt)),
      ),
    ),
  );
  no_null = (
    (λ e. omega (arith, e)),
    (
      (λ e. omega (arith, e)),
      ((λ e. omega (arith, e)), ((λ e. omega (arith, e)), ((λ e. omega (arith, e)), tt))),
    ),
  );
  first_stack = λ e. omega (arith, e);
  stack_not_free = (
    (λ e. omega (arith, e)),
    (
      (λ e. omega (arith, e)),
      ((λ e. omega (arith, e)), ((λ e. omega (arith, e)), ((λ e. omega (arith, e)), tt))),
    ),
  );
  others = λ i. (refl, refl);
}

abbrev args : MmapArgs
args = record { addr = 0; length = 4096; prot = 2; flags = 5; offset = 0 }

abbrev mapped : System
mapped = run_mmap outside (some args) none 0 machine

abbrev space_of : Outcome → Space
space_of panics = no_space
space_of (out_of_memory s) = s
space_of (runs s) = s

abbrev system_of : Forked → System
system_of stuck = machine
system_of (minus_one m) = m
system_of (child pid m) = m

abbrev faulted : Space
faulted = space_of (pgft_handler 0x60000010 (load 0 mapped))

fault_runs : pgft_handler 0x60000010 (load 0 mapped) ≡ runs faulted
unfolding run_mmap sys_mmap pgft_handler
fault_runs = refl

abbrev touched : System
touched = store 0 faulted mapped

-- A copy of the parent's memory that takes no page.
abbrev copyuvm : List ℕ → Option (ℕ → Bool) × List ℕ
copyuvm free = (some (λ t. false), free)

fork_runs : fork copyuvm 0 touched ≡ child 2 (system_of (fork copyuvm 0 touched))
unfolding run_mmap sys_mmap pgft_handler fork
fork_runs = refl

forked-Reach : Reach outside (system_of (fork copyuvm 0 touched))
unfolding run_mmap sys_mmap
forked-Reach =
    forked 0 2 copyuvm
      (fault 0 0x60000010 faulted (mmap 0 (some args) none (boot machine machine-Booted) refl) refl
        fault_runs)
      refl (λ free. ((λ h. h), λ x h. h)) fork_runs

Reach-SystemOk_example : SystemOk (system_of (fork copyuvm 0 touched))
Reach-SystemOk_example = Reach-SystemOk outside (system_of (fork copyuvm 0 touched)) forked-Reach
