-- ===== src/Mmap/Process/Stacks.antt =====
-- Kernel stacks of p5/xv6-public/proc.c: allocproc takes one page for a process, and fork on failure
-- and wait give it back.
use cs537projects.Base.{
  ℕ, ◌≡◌, ◌≢◌, refl, sym, ◌∙◌, Option, none, some, List, ◌∷◌, ◌==◌, Bool-cases, inl, inr, arith,
}
use cs537projects.Mmap.Pages.{Pte, set_pte}
use cs537projects.Mmap.Frames.{
  Tables, with_table, PagesOk, NotIn, PagesOk-fewer, PagesOk-install, PagesOk-free,
}
use cs537projects.Mmap.Frames.Duplicated.{swapped}
use cs537projects.Mmap.Process.{Task}
use cs537projects.Mmap.Process.Owners.{
  entry_of, stack_table, table_index, stack_index, owners, with_task, differ,
}

apart_indices : (i : ℕ) → table_index i ≢ stack_index i
apart_indices i e = omega (arith, e)

apart_indices' : (i : ℕ) → stack_index i ≢ table_index i
apart_indices' i e = omega (arith, e)

-- A page that is not free twice or mapped is no page of a stack table that is replaced.
replaced :
    (i : ℕ) (t u : ℕ → Option Pte) (all : Tables) (free : List ℕ)
    → ((q : ℕ) (e : Pte) → u q ≡ some e → t q ≡ some e)
    → PagesOk (with_table i t all) free
    → PagesOk (with_table i u all) free
replaced i t u all free sub ok =
    PagesOk-fewer (with_table i t all) (with_table i u all) free
      (λ k q e h. elim (Bool-cases (k == i)) [
        | inl here ↦ rw here (sub q e (sym (rw here refl) ∙ h))
        | inr away ↦ rw away (sym (rw away refl) ∙ h)
      ])
      ok

stack-sub :
    (stack : ℕ) (t : ℕ → Option Pte) (q : ℕ) (e : Pte)
    → stack_table stack q ≡ some e
    → set_pte 0 (some (entry_of stack)) t q ≡ some e
stack-sub stack t q e h = elim (Bool-cases (stack == 0)) [
  | inl null ↦ let gone : none ≡ some e = sym (rw null refl) ∙ h in absurd (cc gone)
  | inr some_page ↦ elim (Bool-cases (q == 0)) [
    | inl first ↦ rw first (sym (rw (some_page, first) refl) ∙ h)
    | inr later ↦
        let gone : none ≡ some e = sym (rw (some_page, later) refl) ∙ h in absurd (cc gone)
  ]
]

no_stack-sub : (t : ℕ → Option Pte) (q : ℕ) (e : Pte) → stack_table 0 q ≡ some e → t q ≡ some e
no_stack-sub t q e h = absurd (cc h)

-- allocproc takes a page for the stack.
pub stack_taken-PagesOk :
    (i stack old : ℕ) (ptes : ℕ → Option Pte) (all : Tables) (free : List ℕ)
    → PagesOk (with_task i ptes old all) (stack ∷ free)
    → PagesOk (with_task i ptes stack all) free
stack_taken-PagesOk i stack old ptes all free ok =
    let stack_first =
      swapped (table_index i) (stack_index i) ptes (stack_table old) all (stack ∷ free)
        (apart_indices i) ok in
    let installed =
      PagesOk-install (stack_index i) (stack_table old) (with_table (table_index i) ptes all) 0
        (entry_of stack) free stack_first in
    swapped (stack_index i) (table_index i) (stack_table stack) ptes all free (apart_indices' i) (
      replaced (stack_index i) (set_pte 0 (some (entry_of stack)) (stack_table old))
        (stack_table stack) (with_table (table_index i) ptes all) free
        (stack-sub stack (stack_table old)) installed)

-- kfree(p->kstack), p->kstack = 0
pub stack_freed-PagesOk :
    (i stack : ℕ) (ptes : ℕ → Option Pte) (all : Tables) (free : List ℕ)
    → stack ≢ 0
    → PagesOk (with_task i ptes stack all) free
    → PagesOk (with_task i ptes 0 all) (stack ∷ free)
stack_freed-PagesOk i stack ptes all free some_page ok =
    let there : stack_table stack 0 ≡ some (entry_of stack) = rw (differ stack 0 some_page) refl in
    let stack_first =
      swapped (table_index i) (stack_index i) ptes (stack_table stack) all free (apart_indices i)
        ok in
    let freed =
      PagesOk-free (stack_index i) (stack_table stack) (with_table (table_index i) ptes all) 0
        (entry_of stack) free there stack_first in
    swapped (stack_index i) (table_index i) (stack_table 0) ptes all (stack ∷ free)
      (apart_indices' i)
      (replaced (stack_index i) (set_pte 0 none (stack_table stack)) (stack_table 0)
        (with_table (table_index i) ptes all) (stack ∷ free)
        (no_stack-sub (set_pte 0 none (stack_table stack))) freed)

-- The null page is not free.
pub free-NotIn_null :
    (tasks : ℕ → Task) (free : List ℕ) → PagesOk (owners tasks) free → NotIn 0 free
free-NotIn_null tasks free ok = ok.mapped_not_free 0 0 (entry_of 0) refl

-- A process without a stack.
pub no_stack :
    (i stack : ℕ) (ptes : ℕ → Option Pte) (all : Tables) (free : List ℕ)
    → PagesOk (with_task i ptes stack all) free
    → PagesOk (with_task i ptes 0 all) free
no_stack i stack ptes all free ok =
    swapped (stack_index i) (table_index i) (stack_table 0) ptes all free (apart_indices' i) (
      replaced (stack_index i) (stack_table stack) (stack_table 0)
        (with_table (table_index i) ptes all) free (no_stack-sub (stack_table stack))
        (swapped (table_index i) (stack_index i) ptes (stack_table stack) all free (apart_indices i)
          ok))
