-- ===== src/Mmap/Process/Reachable.antt =====
-- Any sequence of page faults, mmap, munmap, fork, exit and wait of the processes of p5/xv6-public, with
-- what the rest of the kernel takes from the free list and gives back.
use cs537projects.Base.{ℕ, ◌≡◌, ◌≢◌, ap, subst, Bool, false, Option, none, some, List, ◌∷◌}
use cs537projects.Base.Int.{ℤ}
use cs537projects.Sched.Table.{ProcState, Chan, is_unused, is_zombie, running}
use cs537projects.Mmap.{Vma}
use cs537projects.Mmap.Pages.{Pte, Space, runs}
use cs537projects.Mmap.Fault.{pgft_handler}
use cs537projects.Mmap.Calls.{MmapArgs, sys_mmap, sys_munmap}
use cs537projects.Mmap.Frames.{Tables, PagesOk, PagesOk-drop, NotIn}
use cs537projects.Mmap.Frames.Owned.{SpaceOk, OutcomeOk, pgft_handler-OutcomeOk}
use cs537projects.Mmap.Frames.Released.{umunmap-SpaceOk}
use cs537projects.Mmap.Process.{
  Task, System, set_task, load, store, minus_one, child, fork, exit, run_mmap, run_munmap,
}
use cs537projects.Mmap.Process.Wait.{wait, reaped, asleep}
use cs537projects.Mmap.Process.Owners.{
  owners, others_of, table_index, set_task-PagesOk, apart-PagesOk,
}
use cs537projects.Mmap.Process.Kept.{SystemOk, set_task-Stacked, load-SpaceOk, store-SystemOk}
use cs537projects.Mmap.Process.Forks.{Within, fork-ForkedOk}
use cs537projects.Mmap.Process.Lives.{ForkedOk}
use cs537projects.Mmap.Process.Ends.{ExitOk, exit-ExitOk}
use cs537projects.Mmap.Process.Boot.{Booted, Booted-SystemOk}
use cs537projects.Mmap.Process.Reaped.{WaitOk, wait-WaitOk}

-- A page that no process has and that is not free.
abbrev pub Foreign : ℕ → System → Type 0
Foreign x m = NotIn x m.free × ((k q : ℕ) (e : Pte) → owners m.tasks k q ≡ some e → e.frame ≢ x)

-- The systems that calls lead to; `outside` is what stands around the arrays of mappings.
pub data Reach (outside : ℤ → Vma) : System → Type 0 where
  boot : (m : System) → Booted m → Reach outside m
  fault :
      {m : System} (i addr : ℕ) (s : Space)
      → Reach outside m
      → (m.tasks i).state ≡ running
      → pgft_handler addr (load i m) ≡ runs s
      → Reach outside (store i s m)
  mmap :
      {m : System} (i : ℕ) (args : Option MmapArgs) (fd : Option ℕ)
      → Reach outside m
      → (m.tasks i).state ≡ running
      → Reach outside (run_mmap outside args fd i m)
  munmap :
      {m : System} (i : ℕ) (write_ok : Bool) (args : Option (ℕ × ℕ))
      → Reach outside m
      → (m.tasks i).state ≡ running
      → Reach outside (run_munmap outside write_ok args i m)
  forked :
      {m m' : System} (cur pid : ℕ) (copyuvm : List ℕ → Option (ℕ → Bool) × List ℕ)
      → Reach outside m
      → (m.tasks cur).state ≡ running
      → ((free : List ℕ) → Within free (copyuvm free).1)
      → fork copyuvm cur m ≡ child pid m'
      → Reach outside m'
  fork_failed :
      {m m' : System} (cur : ℕ) (copyuvm : List ℕ → Option (ℕ → Bool) × List ℕ)
      → Reach outside m
      → (m.tasks cur).state ≡ running
      → ((free : List ℕ) → Within free (copyuvm free).1)
      → fork copyuvm cur m ≡ minus_one m'
      → Reach outside m'
  exited :
      {m m' : System} (cur : ℕ) (write_ok : Bool)
      → Reach outside m
      → (m.tasks cur).state ≡ running
      → exit outside write_ok cur m ≡ some m'
      → Reach outside m'
  waited :
      {m m' : System} (cur pid : ℕ)
      → Reach outside m
      → (m.tasks cur).state ≡ running
      → wait cur m ≡ reaped pid m'
      → Reach outside m'
  sleeps :
      {m m' : System} (cur : ℕ)
      → Reach outside m
      → (m.tasks cur).state ≡ running
      → wait cur m ≡ asleep m'
      → Reach outside m'
  scheduled :
      {m : System} (i : ℕ) (state : ProcState) (chan : Chan)
      → Reach outside m
      → is_unused (m.tasks i).state ≡ false
      → is_zombie (m.tasks i).state ≡ false
      → is_unused state ≡ false
      → is_zombie state ≡ false
      → Reach outside (set_task i (record (m.tasks i) { state = state; chan = chan }) m)
  take :
      {m : System} (x : ℕ) (rest : List ℕ)
      → Reach outside m
      → m.free ≡ x ∷ rest
      → Reach outside (record m { free = rest })
  give :
      {m : System} (x : ℕ)
      → Reach outside m
      → Foreign x m
      → Reach outside (record m { free = x ∷ m.free })

used_running : (st : ProcState) → st ≡ running → is_unused st ≡ false
used_running st e = ap is_unused e

sys_munmap-SpaceOk :
    (outside : ℤ → Vma) (write_ok : Bool) (i : ℕ) (all : Tables) (args : Option (ℕ × ℕ)) (s : Space)
    → SpaceOk i all s
    → SpaceOk i all (sys_munmap outside write_ok args s).1
unfolding sys_munmap
sys_munmap-SpaceOk outside write_ok i all none s ok = ok
sys_munmap-SpaceOk outside write_ok i all (some (addr, length)) s ok =
    umunmap-SpaceOk outside write_ok i all addr length s ok

-- After any page faults, calls of mmap, munmap, fork, exit and wait by any processes, with any takings
-- of the rest of the kernel from the free list and any pages of its own that it gives back: no page
-- frame is free twice, free and mapped or a stack, or mapped by two entries of any page tables, and
-- each process that is not UNUSED has a kernel stack.
pub Reach-SystemOk : (outside : ℤ → Vma) (m : System) → Reach outside m → SystemOk m
unfolding run_mmap run_munmap
Reach-SystemOk outside now (boot m b) = Booted-SystemOk m b
Reach-SystemOk outside now (fault {m = before} i addr s reach run e) =
    let ok = Reach-SystemOk outside before reach in
    store-SystemOk i s before ok (
      subst (λ o. OutcomeOk (table_index i) (others_of i before) o) e
        (pgft_handler-OutcomeOk (table_index i) (others_of i before) addr (load i before)
          (load-SpaceOk i before ok.frames)))
Reach-SystemOk outside now (mmap {m = before} i args fd reach run) =
    let ok = Reach-SystemOk outside before reach in
    let s = load i before in
    let (r, maps, refs) =
      sys_mmap outside args fd (record { vmas = s.vmas; total = s.total }) before.file_ref in
    let stored =
      store-SystemOk i (record s { vmas = maps.vmas; total = maps.total }) before ok
        (load-SpaceOk i before ok.frames) in
    record { frames = stored.frames; stacked = stored.stacked }
Reach-SystemOk outside now (munmap {m = before} i write_ok args reach run) =
    let ok = Reach-SystemOk outside before reach in
    store-SystemOk i (sys_munmap outside write_ok args (load i before)).1 before ok (
      sys_munmap-SpaceOk outside write_ok (table_index i) (others_of i before) args (load i before)
        (load-SpaceOk i before ok.frames))
Reach-SystemOk outside now (forked {m = before} cur pid copyuvm reach run within e) =
    let ok = Reach-SystemOk outside before reach in
    subst ForkedOk e
      (fork-ForkedOk copyuvm cur before within (used_running (before.tasks cur).state run) ok)
Reach-SystemOk outside now (fork_failed {m = before} cur copyuvm reach run within e) =
    let ok = Reach-SystemOk outside before reach in
    subst ForkedOk e
      (fork-ForkedOk copyuvm cur before within (used_running (before.tasks cur).state run) ok)
Reach-SystemOk outside now (exited {m = before} cur write_ok reach run e) =
    let ok = Reach-SystemOk outside before reach in
    subst ExitOk e
      (exit-ExitOk outside write_ok cur before (used_running (before.tasks cur).state run) ok)
Reach-SystemOk outside now (waited {m = before} cur pid reach run e) =
    let ok = Reach-SystemOk outside before reach in
    subst WaitOk e (wait-WaitOk cur before (used_running (before.tasks cur).state run) ok)
Reach-SystemOk outside now (sleeps {m = before} cur reach run e) =
    let ok = Reach-SystemOk outside before reach in
    subst WaitOk e (wait-WaitOk cur before (used_running (before.tasks cur).state run) ok)
Reach-SystemOk outside now (scheduled {m = before} i state chan reach used living used' living') =
    let ok = Reach-SystemOk outside before reach in
    let x : Task = record (before.tasks i) { state = state; chan = chan } in
    record {
      frames =
          set_task-PagesOk i x before before.free (apart-PagesOk i before before.free ok.frames);
      stacked = set_task-Stacked i x before ok.stacked (λ h. ok.stacked i used);
    }
Reach-SystemOk outside now (take {m = before} x rest reach e) =
    let ok = Reach-SystemOk outside before reach in
    record {
      frames =
          PagesOk-drop (owners before.tasks) x rest
            (subst (λ l. PagesOk (owners before.tasks) l) e ok.frames);
      stacked = ok.stacked;
    }
Reach-SystemOk outside now (give {m = before} x reach foreign) =
    let ok = Reach-SystemOk outside before reach in
    record {
      frames = record {
        free_once = (foreign.0, ok.frames.free_once);
        mapped_not_free = λ k q e h. (foreign.1 k q e h, ok.frames.mapped_not_free k q e h);
        mapped_once = ok.frames.mapped_once;
      };
      stacked = ok.stacked;
    }
