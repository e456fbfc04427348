-- ===== src/Mmap/Process/Kept.antt =====
-- What allocproc, fork, exit and wait of p5/xv6-public/proc.c keep: each page frame is in one place,
-- and a process that is not UNUSED has a kernel stack.
use cs537projects.Base.{
  ℕ, zero, suc, ◌+◌, ◌≡◌, ◌≢◌, refl, sym, ap, ◌∙◌, subst, true, false, Option, none, some, List,
  ◌∷◌, ◌==◌, ==_iff, Bool-cases, Option-cases, inl, inr,
}
use cs537projects.Sched.Table.{is_unused, unused}
use cs537projects.Mmap.Pages.{Space}
use cs537projects.Mmap.Frames.{PagesOk, NotIn}
use cs537projects.Mmap.Frames.Owned.{SpaceOk, List-cases}
use cs537projects.Mmap.Process.{
  Task, System, set_task, load, store, find_slot, alloc_slot, allocproc, new_task, abandon,
}
use cs537projects.Mmap.Process.Owners.{
  others_of, table_index, owners, FramesOk, set_task-PagesOk, apart-PagesOk, differ, task_here,
  task_away,
}
use cs537projects.Mmap.Process.Stacks.{
  stack_taken-PagesOk, stack_freed-PagesOk, free-NotIn_null, no_stack,
}

abbrev pub Stacked : (ℕ → Task) → Type 0
Stacked tasks = (i : ℕ) → is_unused (tasks i).state ≡ false → (tasks i).kstack ≢ 0

pub record SystemOk (m : System) : Type 0 where
  pub frames : FramesOk m
  pub stacked : Stacked m.tasks

pub set_task-Stacked :
    (i : ℕ) (x : Task) (m : System)
    → Stacked m.tasks
    → (is_unused x.state ≡ false → x.kstack ≢ 0)
    → Stacked (set_task i x m).tasks
set_task-Stacked i x m stacked new j = elim (Bool-cases (j == i)) [
  | inl here ↦
      subst (λ (y : Task). is_unused y.state ≡ false → y.kstack ≢ 0) (sym (task_here i j x m here))
        new
  | inr away ↦
      subst (λ (y : Task). is_unused y.state ≡ false → y.kstack ≢ 0) (sym (task_away i j x m away))
        (stacked j)
]

-- A call that works on the mappings of one process.
pub load-SpaceOk :
    (i : ℕ) (m : System) → FramesOk m → SpaceOk (table_index i) (others_of i m) (load i m)
load-SpaceOk i m ok = apart-PagesOk i m m.free ok

pub store-SystemOk :
    (i : ℕ) (s : Space) (m : System)
    → SystemOk m
    → SpaceOk (table_index i) (others_of i m) s
    → SystemOk (store i s m)
store-SystemOk i s m ok space = record {
  frames = set_task-PagesOk i (record (m.tasks i) { space = s }) m s.freelist space;
  stacked = set_task-Stacked i (record (m.tasks i) { space = s }) m ok.stacked (ok.stacked i);
}

-- What allocproc leaves for the process `cur`.
abbrev pub AllocOk : ℕ → Option ℕ × System → Type 0
AllocOk cur (none, m) = SystemOk m
AllocOk cur (some np, m) =
    SystemOk m × ((m.tasks np).kstack ≢ 0) × (cur ≢ np) × (is_unused (m.tasks cur).state ≡ false)

nonzero_head : (x : ℕ) (xs : List ℕ) → NotIn 0 (x ∷ xs) → x ≢ 0
nonzero_head x xs h e = h.0 (sym e)

alloc_slot-AllocOk :
    (cur i : ℕ) (m : System)
    → cur ≢ i
    → is_unused (m.tasks cur).state ≡ false
    → SystemOk m
    → AllocOk cur (alloc_slot i m)
unfolding alloc_slot
alloc_slot-AllocOk cur i m ne used ok = elim (List-cases m.free) [
  | inl empty ↦
      let x : Task = record (m.tasks i) { state = unused; pid = m.next_pid; kstack = 0 } in
      rw (empty, alloc_slot)
        (record {
          frames = set_task-PagesOk i x m m.free (
              no_stack i (m.tasks i).kstack (m.tasks i).space.ptes (owners m.tasks) m.free
                (apart-PagesOk i m m.free ok.frames));
          stacked = set_task-Stacked i x m ok.stacked (λ h. absurd (cc h));
        })
  | inr (stack, rest, at) ↦
      let x = new_task m.next_pid stack (m.tasks i) in
      let all : PagesOk (owners m.tasks) (stack ∷ rest) =
        subst (λ l. PagesOk (owners m.tasks) l) at ok.frames in
      let some_page : stack ≢ 0 =
        nonzero_head stack rest (free-NotIn_null m.tasks (stack ∷ rest) all) in
      let here = task_here i i x m ((==_iff i i).1 refl) in
      let away = task_away i cur x m (differ cur i ne) in
      rw (at, alloc_slot)
        (
          record {
            frames = set_task-PagesOk i x m rest (
                stack_taken-PagesOk i stack (m.tasks i).kstack (m.tasks i).space.ptes
                  (owners m.tasks) rest (apart-PagesOk i m (stack ∷ rest) all));
            stacked = set_task-Stacked i x m ok.stacked (λ h. some_page);
          },
          (λ e. some_page (sym (ap (λ (y : Task). y.kstack) here) ∙ e)),
          ne,
          ap (λ (y : Task). is_unused y.state) away ∙ used,
        )
]

find_slot-unused :
    (rounds i k : ℕ) (tasks : ℕ → Task)
    → find_slot rounds i tasks ≡ some k
    → is_unused (tasks k).state ≡ true
unfolding find_slot
find_slot-unused zero i k tasks h = absurd (cc h)
find_slot-unused (suc rounds) i k tasks h = elim (Bool-cases (is_unused (tasks i).state)) [
  | inl free ↦
      let same : some i ≡ some k = sym (rw free refl) ∙ h in
      ap (λ o. elim o [ none ↦ true | some j ↦ is_unused (tasks j).state ]) (sym same) ∙ free
  | inr taken ↦
      let later : find_slot rounds (i + 1) tasks ≡ some k = sym (rw taken refl) ∙ h in
      find_slot-unused rounds (i + 1) k tasks later
]

pub allocproc-AllocOk :
    (cur : ℕ) (m : System)
    → is_unused (m.tasks cur).state ≡ false
    → SystemOk m
    → AllocOk cur (allocproc m)
unfolding allocproc
allocproc-AllocOk cur m used ok = elim (Option-cases (find_slot 64 0 m.tasks)) [
  | inl full ↦ rw (full, allocproc) ok
  | inr (i, at) ↦
      let free = find_slot-unused 64 0 i m.tasks at in
      let ne : cur ≢ i = λ e. cc (ap (λ j. is_unused (m.tasks j).state) e, used, free) in
      rw (at, allocproc) (alloc_slot-AllocOk cur i m ne used ok)
]

-- fork gives the slot and its stack back.
pub abandon-SystemOk :
    (np : ℕ) (m : System) → (m.tasks np).kstack ≢ 0 → SystemOk m → SystemOk (abandon np m)
abandon-SystemOk np m some_page ok =
    let x : Task = record (m.tasks np) { kstack = 0; state = unused } in
    record {
      frames = set_task-PagesOk np x m ((m.tasks np).kstack ∷ m.free) (
          stack_freed-PagesOk np (m.tasks np).kstack (m.tasks np).space.ptes (owners m.tasks) m.free
            some_page (apart-PagesOk np m m.free ok.frames));
      stacked = set_task-Stacked np x m ok.stacked (λ h. absurd (cc h));
    }
