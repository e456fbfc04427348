-- ===== src/Mmap/Process/Forks.antt =====
-- fork of p5/xv6-public/proc.c keeps each page frame in one place.
use cs537projects.Base.{
  ℕ, ◌≡◌, ◌≢◌, refl, sym, ap, ◌∙◌, Bool, false, Option, none, some, List, ◌==◌, ==_iff, Bool-cases,
  inl, inr, arith,
}
use cs537projects.Sched.Table.{is_unused}
use cs537projects.Mmap.Fork.{copy_maps}
use cs537projects.Mmap.Frames.{Tables, with_table, PagesOk, NotIn, NoDup, PagesOk-fewer}
use cs537projects.Mmap.Frames.Duplicated.{copy_maps-CopiedOk}
use cs537projects.Mmap.Process.{
  Task, System, load, allocproc, abandon, Forked, minus_one, new_table, fork_maps, fork,
}
use cs537projects.Mmap.Process.Owners.{table_index, owners}
use cs537projects.Mmap.Process.Kept.{SystemOk, AllocOk, allocproc-AllocOk, abandon-SystemOk}
use cs537projects.Mmap.Process.Lives.{owners-table, ForkedOk, by_copied, by_copied-ForkedOk}

-- What copyuvm does to the free list: what it leaves was free, and free once.
abbrev pub Within : List ℕ → List ℕ → Type 0
Within free left = (NoDup free → NoDup left) × ((x : ℕ) → NotIn x free → NotIn x left)

within-PagesOk :
    (all : Tables) (free left : List ℕ) → Within free left → PagesOk all free → PagesOk all left
within-PagesOk all free left within ok = record {
  free_once = within.0 ok.free_once;
  mapped_not_free = λ i q e h. within.1 e.frame (ok.mapped_not_free i q e h);
  mapped_once = ok.mapped_once;
}

-- A child whose page table has no page of a mapping yet.
empty-PagesOk :
    (cur np : ℕ) (tasks : ℕ → Task) (free : List ℕ)
    → PagesOk (owners tasks) free
    → PagesOk
        (with_table
          (table_index cur)
          (tasks cur).space.ptes
          (with_table (table_index np) (λ q. none) (owners tasks)))
        free
empty-PagesOk cur np tasks free ok =
    let all =
      with_table (table_index cur) (tasks cur).space.ptes
        (with_table (table_index np) (λ q. none) (owners tasks)) in
    PagesOk-fewer (owners tasks) all free
      (λ k q e h. elim (Bool-cases (k == table_index cur)) [
        | inl is_cur ↦
            let at = (==_iff k (table_index cur)).0 is_cur in
            let held : (tasks cur).space.ptes q ≡ some e = sym (rw is_cur refl) ∙ h in
            ap (λ i. owners tasks i q) at ∙ owners-table tasks cur q ∙ held
        | inr not_cur ↦ elim (Bool-cases (k == table_index np)) [
          | inl is_np ↦
              let gone : none ≡ some e = sym (rw (not_cur, is_np) refl) ∙ h in absurd (cc gone)
          | inr not_np ↦ sym (rw (not_cur, not_np) refl) ∙ h
        ]
      ])
      ok

fork_maps-ForkedOk :
    (cur np : ℕ) (tables : ℕ → Bool) (m : System)
    → cur ≢ np
    → (m.tasks np).kstack ≢ 0
    → SystemOk m
    → ForkedOk (fork_maps cur np tables m)
unfolding fork_maps by_copied
fork_maps-ForkedOk cur np tables m ne some_page ok =
    let apart : table_index cur ≢ table_index np = λ e. ne (omega (arith, e)) in
    by_copied-ForkedOk cur np m (copy_maps (load cur m) (new_table tables (m.tasks np))) ne
      ok.stacked some_page
      (copy_maps-CopiedOk (table_index cur) (table_index np) (owners m.tasks) apart (load cur m)
        (new_table tables (m.tasks np)) (empty-PagesOk cur np m.tasks m.free ok.frames))

-- fork from the result of copyuvm on.
abbrev by_tables : ℕ → ℕ → System → Option (ℕ → Bool) → Forked
unfolding fork_maps
by_tables cur np m o = elim o [ none ↦ minus_one (abandon np m) | some t ↦ fork_maps cur np t m ]

by_tables-ForkedOk :
    (cur np : ℕ) (m : System) (o : Option (ℕ → Bool))
    → cur ≢ np
    → (m.tasks np).kstack ≢ 0
    → SystemOk m
    → ForkedOk (by_tables cur np m o)
unfolding by_tables
by_tables-ForkedOk cur np m none ne some_page ok = abandon-SystemOk np m some_page ok
by_tables-ForkedOk cur np m (some t) ne some_page ok = fork_maps-ForkedOk cur np t m ne some_page ok

abbrev by_slot : (List ℕ → Option (ℕ → Bool) × List ℕ) → ℕ → Option ℕ × System → Forked
unfolding by_tables
by_slot copyuvm cur r = elim r.0 [
  | none ↦ minus_one r.1
  | some np ↦ by_tables cur np (record r.1 { free = (copyuvm r.1.free).1 }) (copyuvm r.1.free).0
]

by_slot-ForkedOk :
    (copyuvm : List ℕ → Option (ℕ → Bool) × List ℕ) (cur : ℕ) (r : Option ℕ × System)
    → ((free : List ℕ) → Within free (copyuvm free).1)
    → AllocOk cur r
    → ForkedOk (by_slot copyuvm cur r)
unfolding by_slot
by_slot-ForkedOk copyuvm cur (none, m) within ok = ok
by_slot-ForkedOk copyuvm cur (some np, m) within (ok, some_page, ne, used) =
    by_tables-ForkedOk cur np (record m { free = (copyuvm m.free).1 }) (copyuvm m.free).0 ne
      some_page
      (record {
        frames =
            within-PagesOk (owners m.tasks) m.free (copyuvm m.free).1 (within m.free) ok.frames;
        stacked = ok.stacked;
      })

pub fork-ForkedOk :
    (copyuvm : List ℕ → Option (ℕ → Bool) × List ℕ) (cur : ℕ) (m : System)
    → ((free : List ℕ) → Within free (copyuvm free).1)
    → is_unused (m.tasks cur).state ≡ false
    → SystemOk m
    → ForkedOk (fork copyuvm cur m)
unfolding fork by_slot by_tables
fork-ForkedOk copyuvm cur m within used ok =
    by_slot-ForkedOk copyuvm cur (allocproc m) within (allocproc-AllocOk cur m used ok)
