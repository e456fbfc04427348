-- ===== src/Mmap/Process/Wait.antt =====
-- wait of p5/xv6-public/proc.c.
use cs537projects.Base.{
  ℕ, zero, suc, Bool, false, ◌&&◌, ◌||◌, not, Option, none, some, [], ◌∷◌, if◌then◌else◌,
}
use cs537projects.Sched.Table.{unused, sleeping, proc, is_zombie}
use cs537projects.Mmap.Pages.{free_pages}
use cs537projects.Mmap.Process.{Task, System, set_task, load, nproc, is_parent}

-- wait at a zombie child in the slot `i`: kfree of its stack, the loop of deallocuvm in freevm up to
-- KERNBASE over the pages of mappings, and the fields. What freevm gives back besides is not in the
-- tables of this model.
unfoldable pub reap : ℕ → System → System
unfolding free_pages
reap i m =
    let x = m.tasks i in
    let m' : System = record m { free = x.kstack ∷ m.free } in
    let s = free_pages 0x80000 0 (load i m') in
    record (set_task i
      (record x {
        space = record s { killed = false };
        kstack = 0;
        pid = 0;
        parent = none;
        name = elim x.name [ [] ↦ [] | c ∷ n ↦ 0 ∷ n ];
        state = unused;
      })
      m') { free = s.freelist }

-- The scan of wait from the slot `i` on: the first zombie child, and havekids if there is none.
unfoldable pub find_zombie : ℕ → ℕ → ℕ → (ℕ → Task) → Option ℕ
find_zombie zero i cur tasks = none
find_zombie (suc rounds) i cur tasks =
    let rest = find_zombie rounds (suc i) cur tasks in
    if is_parent cur (tasks i).parent && is_zombie (tasks i).state then some i else rest

unfoldable pub have_kids : ℕ → ℕ → ℕ → (ℕ → Task) → Bool
have_kids zero i cur tasks = false
have_kids (suc rounds) i cur tasks =
    let rest = have_kids rounds (suc i) cur tasks in is_parent cur (tasks i).parent || rest

-- A child is reaped, the process goes to sleep, or -1.
pub data Waited : Type 0 where
  reaped : ℕ → System → Waited
  asleep : System → Waited
  no_children : Waited

-- One round of the `for(;;)` of wait, up to sleep.
unfoldable pub wait : ℕ → System → Waited
unfolding find_zombie have_kids reap
wait cur m =
    let x = m.tasks cur in
    elim (find_zombie nproc 0 cur m.tasks) [
      | some i ↦ reaped (m.tasks i).pid (reap i m)
      | none ↦
          if have_kids nproc 0 cur m.tasks && not x.space.killed
          then asleep (set_task cur (record x { chan = proc cur; state = sleeping }) m)
          else no_children
    ]
