-- ===== src/Mmap/Process/Lives.antt =====
-- What fork of p5/xv6-public/proc.c makes of the two processes after copy_maps keeps each page frame in one
-- place.
use cs537projects.Base.{
  ℕ, ◌/◌, ◌%◌, ◌-◌, ◌≡◌, ◌≢◌, refl, sym, ap, ◌∙◌, Option, some, List, ◌==◌, ==_iff, Bool-cases,
  Option-cases, inl, inr, arith,
}
use cs537projects.Base.Int.{pos_part}
use cs537projects.Sched.Table.{runnable}
use cs537projects.Mmap.Pages.{Pte, Space}
use cs537projects.Mmap.Fork.{Copied, stops, fails, copied}
use cs537projects.Mmap.Frames.{with_table, PagesOk, PagesOk-fewer}
use cs537projects.Mmap.Frames.Duplicated.{CopiedOk}
use cs537projects.Mmap.Process.{
  Task, System, set_task, store, abandon, Forked, stuck, minus_one, child, dup_vmas, fill_child,
}
use cs537projects.Mmap.Process.Owners.{
  stack_table, table_index, owners, differ, ==_false, task_here, task_away,
}
use cs537projects.Mmap.Process.Kept.{Stacked, SystemOk, set_task-Stacked, abandon-SystemOk}

-- The owner `k` is the same if the process it belongs to has the same table and stack.
owners_same :
    (t u : ℕ → Task) (k q : ℕ)
    → ((j : ℕ) → k ≡ table_index j → (t j).space.ptes ≡ (u j).space.ptes)
    → ((j : ℕ) → (t j).kstack ≡ (u j).kstack)
    → owners t k q ≡ owners u k q
owners_same t u k q tables stacks = elim (Bool-cases (k == 0)) [
  | inl null ↦ rw null refl
  | inr other ↦ elim (Bool-cases (k % 2 == 1)) [
    | inl odd ↦
        let at : k ≡ table_index ((k - 1) / 2) = omega (arith, (==_iff (k % 2) 1).0 odd) in
        rw (other, odd) (ap (λ p. p q) (tables ((k - 1) / 2) at))
    | inr even ↦ rw (other, even) (ap (λ s. stack_table s q) (stacks ((k - 1) / 2)))
  ]
]

pub owners-table : (t : ℕ → Task) (i q : ℕ) → owners t (table_index i) q ≡ (t i).space.ptes q
owners-table t i q =
    let other = differ (table_index i) 0 (λ e. omega (arith, e)) in
    let odd = (==_iff (table_index i % 2) 1).1 (omega arith) in
    let at : (table_index i - 1) / 2 ≡ i = omega arith in
    rw (other, odd) (ap (λ j. (t j).space.ptes q) at)

-- Two processes with new tables, and the others as they were.
both-PagesOk :
    (cur np : ℕ) (t u : ℕ → Task) (a b : ℕ → Option Pte) (free : List ℕ)
    → (u cur).space.ptes ≡ a
    → (u np).space.ptes ≡ b
    → ((j : ℕ) → j ≢ cur → j ≢ np → (u j).space.ptes ≡ (t j).space.ptes)
    → ((j : ℕ) → (u j).kstack ≡ (t j).kstack)
    → PagesOk (with_table (table_index cur) a (with_table (table_index np) b (owners t))) free
    → PagesOk (owners u) free
both-PagesOk cur np t u a b free at_cur at_np elsewhere stacks ok =
    let all = with_table (table_index cur) a (with_table (table_index np) b (owners t)) in
    PagesOk-fewer all (owners u) free
      (λ k q e h. elim (Bool-cases (k == table_index cur)) [
        | inl is_cur ↦
            let at = (==_iff k (table_index cur)).0 is_cur in
            rw is_cur (
              ap (λ p. p q) (sym at_cur)
              ∙ sym (owners-table u cur q)
              ∙ ap (λ i. owners u i q) (sym at)
              ∙ h)
        | inr not_cur ↦ elim (Bool-cases (k == table_index np)) [
          | inl is_np ↦
              let at = (==_iff k (table_index np)).0 is_np in
              rw (not_cur, is_np)
                (ap (λ p. p q) (sym at_np)
                  ∙ sym (owners-table u np q)
                  ∙ ap (λ i. owners u i q) (sym at)
                  ∙ h)
          | inr not_np ↦
              rw (not_cur, not_np)
                (sym (
                    owners_same u t k q
                      (λ j at.
                        elsewhere j
                          (λ e. ==_false k (table_index cur) not_cur (at ∙ ap table_index e))
                          (λ e. ==_false k (table_index np) not_np (at ∙ ap table_index e)))
                      stacks)
                  ∙ h)
        ]
      ])
      ok

-- The tasks after a fork: the parent with the space `p`, and the task `y` in the slot `np`.
module _ (cur np : ℕ) (p : Space) (m : System) (y : Task) (ne : cur ≢ np)
    (same_stack : y.kstack ≡ (m.tasks np).kstack) where
  abbrev forked_tasks : ℕ → Task
  forked_tasks = (set_task np y (store cur p m)).tasks

  at_child : forked_tasks np ≡ y
  at_child = task_here np np y (store cur p m) ((==_iff np np).1 refl)

  at_parent : forked_tasks cur ≡ record (m.tasks cur) { space = p }
  at_parent =
      task_away np cur y (store cur p m) (differ cur np ne)
      ∙ task_here cur cur (record (m.tasks cur) { space = p }) m ((==_iff cur cur).1 refl)

  at_other : (j : ℕ) → j ≢ cur → j ≢ np → forked_tasks j ≡ m.tasks j
  at_other j not_cur not_np =
      task_away np j y (store cur p m) (differ j np not_np)
      ∙ task_away cur j (record (m.tasks cur) { space = p }) m (differ j cur not_cur)

  stacks_same : (j : ℕ) → (forked_tasks j).kstack ≡ (m.tasks j).kstack
  stacks_same j = elim (Bool-cases (j == np)) [
    | inl is_np ↦
        let at = (==_iff j np).0 is_np in
        ap (λ i. (forked_tasks i).kstack) at
        ∙ ap (λ (x : Task). x.kstack) at_child
        ∙ same_stack
        ∙ ap (λ i. (m.tasks i).kstack) (sym at)
    | inr not_np ↦ elim (Bool-cases (j == cur)) [
      | inl is_cur ↦
          let at = (==_iff j cur).0 is_cur in
          ap (λ i. (forked_tasks i).kstack) at
          ∙ ap (λ (x : Task). x.kstack) at_parent
          ∙ ap (λ i. (m.tasks i).kstack) (sym at)
      | inr not_cur ↦
          ap (λ (x : Task). x.kstack) (at_other j (==_false j cur not_cur) (==_false j np not_np))
    ]
  ]

  forked-PagesOk :
      PagesOk
        (with_table
          (table_index cur)
          p.ptes
          (with_table (table_index np) y.space.ptes (owners m.tasks)))
        p.freelist
      → PagesOk (owners forked_tasks) p.freelist
  forked-PagesOk ok =
      both-PagesOk cur np m.tasks forked_tasks p.ptes y.space.ptes p.freelist
        (ap (λ (x : Task). x.space.ptes) at_parent) (ap (λ (x : Task). x.space.ptes) at_child)
        (λ j not_cur not_np. ap (λ (x : Task). x.space.ptes) (at_other j not_cur not_np))
        stacks_same ok

  forked-SystemOk :
      Stacked m.tasks
      → y.kstack ≢ 0
      → PagesOk
          (with_table
            (table_index cur)
            p.ptes
            (with_table (table_index np) y.space.ptes (owners m.tasks)))
          p.freelist
      → SystemOk (set_task np y (store cur p m))
  forked-SystemOk stacked some_page ok = record {
    frames = forked-PagesOk ok;
    stacked =
        set_task-Stacked np y (store cur p m)
          (set_task-Stacked cur (record (m.tasks cur) { space = p }) m stacked (stacked cur))
          (λ h. some_page);
  }

-- What fork leaves.
abbrev pub ForkedOk : Forked → Type 0
ForkedOk stuck = Unit {0}
ForkedOk (minus_one m) = SystemOk m
ForkedOk (child pid m) = SystemOk m

fill_child-ForkedOk :
    (cur np : ℕ) (p c : Space) (m : System)
    → cur ≢ np
    → Stacked m.tasks
    → (m.tasks np).kstack ≢ 0
    → PagesOk
        (with_table (table_index cur) p.ptes (with_table (table_index np) c.ptes (owners m.tasks)))
        p.freelist
    → ForkedOk (fill_child cur np p c m)
unfolding fill_child
fill_child-ForkedOk cur np p c m ne stacked some_page ok =
    elim (Option-cases (dup_vmas (pos_part p.total) 0 p.vmas c.vmas m.file_ref)) [
      | inl null ↦ rw (null, fill_child) tt
      | inr ((vmas, refs), at) ↦
          let y : Task = record (m.tasks np) {
            space = record c { vmas = vmas };
            sz = (m.tasks cur).sz;
            parent = some cur;
            ofile = (m.tasks cur).ofile;
            cwd = (m.tasks cur).cwd;
            name = (m.tasks cur).name;
            state = runnable;
          } in
          let done = forked-SystemOk cur np p m y ne refl stacked some_page ok in
          rw (at, fill_child) (record { frames = done.frames; stacked = done.stacked })
    ]

unfoldable pub by_copied : ℕ → ℕ → System → Copied → Forked
unfolding fill_child
by_copied cur np m o = elim o [
  | stops ↦ stuck
  | fails p c ↦
      minus_one (abandon np (set_task np (record (m.tasks np) { space = c }) (store cur p m)))
  | copied p c ↦ fill_child cur np p c m
]

pub by_copied-ForkedOk :
    (cur np : ℕ) (m : System) (o : Copied)
    → cur ≢ np
    → Stacked m.tasks
    → (m.tasks np).kstack ≢ 0
    → CopiedOk (table_index cur) (table_index np) (owners m.tasks) o
    → ForkedOk (by_copied cur np m o)
unfolding by_copied
by_copied-ForkedOk cur np m stops ne stacked some_page ok = tt
by_copied-ForkedOk cur np m (fails p c) ne stacked some_page ok =
    let y : Task = record (m.tasks np) { space = c } in
    abandon-SystemOk np (set_task np y (store cur p m))
      (λ e. some_page (sym (stacks_same cur np p m y ne refl np) ∙ e))
      (forked-SystemOk cur np p m y ne refl stacked some_page ok)
by_copied-ForkedOk cur np m (copied p c) ne stacked some_page ok =
    fill_child-ForkedOk cur np p c m ne stacked some_page ok
