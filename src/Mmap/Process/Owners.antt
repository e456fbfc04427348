-- ===== src/Mmap/Process/Owners.antt =====
-- Who has a page frame in p5/xv6-public: the page tables of the processes, and their kernel stacks.
use cs537projects.Base.{
  ℕ, ◌+◌, ◌*◌, ◌/◌, ◌%◌, ◌-◌, ◌≡◌, ◌≢◌, refl, sym, ap, ◌∙◌, Bool, true, false, Option, none, some,
  List, ◌==◌, ==_iff, if◌then◌else◌, Bool-cases, inl, inr, arith,
}
use cs537projects.Mmap.Pages.{Pte}
use cs537projects.Mmap.Frames.{Tables, with_table, PagesOk, PagesOk-fewer}
use cs537projects.Mmap.Process.{Task, System, set_task}

-- A page as an entry.
abbrev pub entry_of : ℕ → Pte
entry_of frame = record { frame = frame; writable = true }

-- A stack as a table with one entry, and none for a null pointer.
abbrev pub stack_table : ℕ → ℕ → Option Pte
stack_table stack q = if stack == 0 then none else (if q == 0 then some (entry_of stack) else none)

-- The null page, which is never free.
abbrev null_table : ℕ → Option Pte
null_table q = if q == 0 then some (entry_of 0) else none

abbrev pub table_index : ℕ → ℕ
table_index i = 2 * i + 1

abbrev pub stack_index : ℕ → ℕ
stack_index i = 2 * i + 2

-- The owner `k`: the null page, a page table, or a stack.
abbrev owner : (ℕ → Task) → Bool → Bool → ℕ → ℕ → Option Pte
owner tasks true odd i = null_table
owner tasks false true i = (tasks i).space.ptes
owner tasks false false i = stack_table (tasks i).kstack

abbrev pub owners : (ℕ → Task) → Tables
owners tasks k = owner tasks (k == 0) (k % 2 == 1) ((k - 1) / 2)

-- The frames of all processes, and the free ones.
abbrev pub FramesOk : System → Type 0
FramesOk m = PagesOk (owners m.tasks) m.free

-- The owners of the process `i` replaced.
abbrev pub with_task : ℕ → (ℕ → Option Pte) → ℕ → Tables → Tables
with_task i ptes stack all =
    with_table (table_index i) ptes (with_table (stack_index i) (stack_table stack) all)

pub differ : (a b : ℕ) → a ≢ b → (a == b) ≡ false
differ a b ne = elim (Bool-cases (a == b)) [
  | inl same ↦ absurd (ne ((==_iff a b).0 same))
  | inr other ↦ other
]

pub ==_false : (a b : ℕ) → (a == b) ≡ false → a ≢ b
==_false a b h e = cc ((==_iff a b).1 e, h)

pub task_here : (i j : ℕ) (x : Task) (m : System) → (j == i) ≡ true → (set_task i x m).tasks j ≡ x
task_here i j x m h = rw h refl

pub task_away :
    (i j : ℕ) (x : Task) (m : System) → (j == i) ≡ false → (set_task i x m).tasks j ≡ m.tasks j
task_away i j x m h = rw h refl

owners-set_task :
    (i : ℕ) (x : Task) (m : System) (k q : ℕ)
    → owners (set_task i x m).tasks k q ≡ with_task i x.space.ptes x.kstack (owners m.tasks) k q
owners-set_task i x m k q = elim (Bool-cases (k == 0)) [
  | inl null ↦
      let at = (==_iff k 0).0 null in
      let t = differ k (table_index i) (λ e. omega (arith, at, e)) in
      let u = differ k (stack_index i) (λ e. omega (arith, at, e)) in rw (t, u, null) refl
  | inr other ↦ elim (Bool-cases (k % 2 == 1)) [
    | inl odd ↦
        let is_odd = (==_iff (k % 2) 1).0 odd in
        let u = differ k (stack_index i) (λ e. omega (arith, is_odd, e)) in
        elim (Bool-cases ((k - 1) / 2 == i)) [
          | inl here ↦
              let at = (==_iff ((k - 1) / 2) i).0 here in
              let t = (==_iff k (table_index i)).1 (omega (arith, is_odd, at)) in
              rw (t, other, odd)
                (ap (λ (y : Task). y.space.ptes q) (task_here i ((k - 1) / 2) x m here))
          | inr elsewhere ↦
              let away = ==_false ((k - 1) / 2) i elsewhere in
              let t = differ k (table_index i) (λ e. away (omega (arith, e))) in
              rw (t, u, other, odd)
                (ap (λ (y : Task). y.space.ptes q) (task_away i ((k - 1) / 2) x m elsewhere))
        ]
    | inr even ↦
        let not_odd = ==_false (k % 2) 1 even in
        let some_index = ==_false k 0 other in
        let t = differ k (table_index i) (λ e. not_odd (omega (arith, e))) in
        elim (Bool-cases ((k - 1) / 2 == i)) [
          | inl here ↦
              let at = (==_iff ((k - 1) / 2) i).0 here in
              let u = (==_iff k (stack_index i)).1 (omega (arith, not_odd, some_index, at)) in
              rw (t, u, other, even)
                (ap (λ (y : Task). stack_table y.kstack q) (task_here i ((k - 1) / 2) x m here))
          | inr elsewhere ↦
              let away = ==_false ((k - 1) / 2) i elsewhere in
              let u = differ k (stack_index i) (λ e. away (omega (arith, e))) in
              rw (t, u, other, even)
                (ap (λ (y : Task). stack_table y.kstack q)
                  (task_away i ((k - 1) / 2) x m elsewhere))
        ]
  ]
]

-- Processes with the same tables and stacks.
abbrev pub SameFrames : (ℕ → Task) → (ℕ → Task) → Type 0
SameFrames t u = (j : ℕ) → ((u j).space.ptes ≡ (t j).space.ptes) × ((u j).kstack ≡ (t j).kstack)

pub same-PagesOk :
    (t u : ℕ → Task) (free : List ℕ)
    → SameFrames t u
    → PagesOk (owners t) free
    → PagesOk (owners u) free
same-PagesOk t u free same ok =
    PagesOk-fewer (owners t) (owners u) free
      (λ k q e h. elim (Bool-cases (k == 0)) [
        | inl null ↦ rw null (sym (rw null refl) ∙ h)
        | inr other ↦ elim (Bool-cases (k % 2 == 1)) [
          | inl odd ↦
              let now : (u ((k - 1) / 2)).space.ptes q ≡ some e = sym (rw (other, odd) refl) ∙ h in
              rw (other, odd) (ap (λ p. p q) (sym (same ((k - 1) / 2)).0) ∙ now)
          | inr even ↦
              let now : stack_table (u ((k - 1) / 2)).kstack q ≡ some e =
                sym (rw (other, even) refl) ∙ h in
              rw (other, even) (ap (λ p. stack_table p q) (sym (same ((k - 1) / 2)).1) ∙ now)
        ]
      ])
      ok

pub set_task-PagesOk :
    (i : ℕ) (x : Task) (m : System) (free : List ℕ)
    → PagesOk (with_task i x.space.ptes x.kstack (owners m.tasks)) free
    → PagesOk (owners (set_task i x m).tasks) free
set_task-PagesOk i x m free ok =
    PagesOk-fewer (with_task i x.space.ptes x.kstack (owners m.tasks))
      (owners (set_task i x m).tasks) free (λ k q e h. sym (owners-set_task i x m k q) ∙ h) ok

set_same-SameFrames : (i : ℕ) (m : System) → SameFrames m.tasks (set_task i (m.tasks i) m).tasks
set_same-SameFrames i m j = elim (Bool-cases (j == i)) [
  | inl here ↦
      let same : (set_task i (m.tasks i) m).tasks j ≡ m.tasks j =
        task_here i j (m.tasks i) m here ∙ ap m.tasks (sym ((==_iff j i).0 here)) in
      (ap (λ (y : Task). y.space.ptes) same, ap (λ (y : Task). y.kstack) same)
  | inr away ↦
      let same = task_away i j (m.tasks i) m away in
      (ap (λ (y : Task). y.space.ptes) same, ap (λ (y : Task). y.kstack) same)
]

-- The process `i` apart from the others.
pub apart-PagesOk :
    (i : ℕ) (m : System) (free : List ℕ)
    → PagesOk (owners m.tasks) free
    → PagesOk (with_task i (m.tasks i).space.ptes (m.tasks i).kstack (owners m.tasks)) free
apart-PagesOk i m free ok =
    PagesOk-fewer (owners (set_task i (m.tasks i) m).tasks)
      (with_task i (m.tasks i).space.ptes (m.tasks i).kstack (owners m.tasks)) free
      (λ k q e h. owners-set_task i (m.tasks i) m k q ∙ h)
      (same-PagesOk m.tasks (set_task i (m.tasks i) m).tasks free (set_same-SameFrames i m) ok)

-- The owners besides the page table of the process `i`.
abbrev pub others_of : ℕ → System → Tables
others_of i m = with_table (stack_index i) (stack_table (m.tasks i).kstack) (owners m.tasks)
