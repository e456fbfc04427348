-- ===== src/Mmap/Frames.antt =====
-- Page frames of p5/xv6-public: each is in the free list of kalloc.c or in one entry of one page
-- table, and mappages, do_map and the loop of umunmap keep that.
pub mod Owned
pub mod Released
pub mod Duplicated
use cs537projects.Base.{
  ℕ, zero, suc, ◌+◌, ◌*◌, ◌/◌, ◌≡◌, ◌≢◌, refl, sym, ap, ◌∙◌, subst, Bool, true, false, Option, none,
  some, List, [], ◌∷◌, ◌==◌, ==_iff, if◌then◌else◌, Bool-cases, Option-cases, inl, inr, ◌⊎◌, arith,
}
use cs537projects.Mmap.{Vma, has_flag}
use cs537projects.Mmap.Pages.{
  Pte, Space, Outcome, panics, out_of_memory, runs, set_pte, page_of, table_of, install, mappages,
  read_in, get_physical_page, free_pages, kill, do_map, pg_round_down,
}

abbrev pub NotIn : ℕ → List ℕ → Type 0
NotIn x [] = Unit {0}
NotIn x (y ∷ ys) = (x ≢ y) × NotIn x ys

abbrev pub NoDup : List ℕ → Type 0
NoDup [] = Unit {0}
NoDup (x ∷ xs) = NotIn x xs × NoDup xs

-- The page tables of all processes.
abbrev pub Tables : Type 0
Tables = ℕ → ℕ → Option Pte

-- The table of the process `i` replaced.
abbrev pub with_table : ℕ → (ℕ → Option Pte) → Tables → Tables
with_table i t all j = if j == i then t else all j

-- No page is free twice, free and mapped, or mapped twice.
pub record PagesOk (all : Tables) (freelist : List ℕ) : Type 0 where
  pub free_once : NoDup freelist
  pub mapped_not_free : (i q : ℕ) (e : Pte) → all i q ≡ some e → NotIn e.frame freelist
  pub mapped_once :
      (i q j r : ℕ) (e f : Pte)
      → all i q ≡ some e
      → all j r ≡ some f
      → e.frame ≡ f.frame
      → (i ≡ j) × (q ≡ r)

-- A page that is taken from the list and dropped.
pub PagesOk-drop :
    (all : Tables) (x : ℕ) (free : List ℕ) → PagesOk all (x ∷ free) → PagesOk all free
PagesOk-drop all x free ok = record {
  free_once = ok.free_once.1;
  mapped_not_free = λ i q e h. (ok.mapped_not_free i q e h).1;
  mapped_once = ok.mapped_once;
}

pub PagesOk-drop_second :
    (all : Tables) (x y : ℕ) (free : List ℕ) → PagesOk all (x ∷ y ∷ free) → PagesOk all (x ∷ free)
PagesOk-drop_second all x y free ok = record {
  free_once = (ok.free_once.0.1, ok.free_once.1.1);
  mapped_not_free = λ i q e h. let apart = ok.mapped_not_free i q e h in (apart.0, apart.1.1);
  mapped_once = ok.mapped_once;
}

-- Only what the tables hold matters; entries may go.
pub PagesOk-fewer :
    (all fewer : Tables) (free : List ℕ)
    → ((i q : ℕ) (e : Pte) → fewer i q ≡ some e → all i q ≡ some e)
    → PagesOk all free
    → PagesOk fewer free
PagesOk-fewer all fewer free sub ok = record {
  free_once = ok.free_once;
  mapped_not_free = λ i q e h. ok.mapped_not_free i q e (sub i q e h);
  mapped_once = λ i q j r e f h k same. ok.mapped_once i q j r e f (sub i q e h) (sub j r f k) same;
}

-- The entry that a table with a new one holds: the new one, or an old one.
abbrev NewOrOld : ℕ → (ℕ → Option Pte) → Tables → ℕ → Pte → ℕ → ℕ → Pte → Type 0
NewOrOld i t all p new j q e = ((j ≡ i) × (q ≡ p) × (new ≡ e)) ⊎ (with_table i t all j q ≡ some e)

some_pte : {a b : Pte} → some a ≡ some b → a ≡ b
some_pte {a = a} e = ap (λ o. elim o [ none ↦ a | some c ↦ c ]) e

new_or_old :
    (i : ℕ) (t : ℕ → Option Pte) (all : Tables) (p : ℕ) (new : Pte) (j q : ℕ) (e : Pte)
    → with_table i (set_pte p (some new) t) all j q ≡ some e
    → NewOrOld i t all p new j q e
new_or_old i t all p new j q e h = elim (Bool-cases (j == i)) [
  | inr other ↦ inr (rw other (sym (rw other refl) ∙ h))
  | inl same ↦ elim (Bool-cases (q == p)) [
    | inl here ↦
        inl ((==_iff j i).0 same, (==_iff q p).0 here, some_pte (sym (rw (same, here) refl) ∙ h))
    | inr elsewhere ↦ inr (rw same (sym (rw (same, elsewhere) refl) ∙ h))
  ]
]

-- A page from the front of the list is mapped.
pub PagesOk-install :
    (i : ℕ) (t : ℕ → Option Pte) (all : Tables) (p : ℕ) (new : Pte) (free : List ℕ)
    → PagesOk (with_table i t all) (new.frame ∷ free)
    → PagesOk (with_table i (set_pte p (some new) t) all) free
PagesOk-install i t all p new free ok = record {
  free_once = ok.free_once.1;
  mapped_not_free = λ j q e h. elim (new_or_old i t all p new j q e h) [
    | inl (at_i, at_p, same) ↦ subst (λ (k : Pte). NotIn k.frame free) same ok.free_once.0
    | inr old ↦ (ok.mapped_not_free j q e old).1
  ];
  mapped_once = λ j q k r e f h l same. elim (new_or_old i t all p new j q e h) [
    | inl (at_i, at_p, is_new) ↦ elim (new_or_old i t all p new k r f l) [
      | inl (at_i', at_p', is_new') ↦ (at_i ∙ sym at_i', at_p ∙ sym at_p')
      | inr old ↦
          absurd
            ((ok.mapped_not_free k r f old).0 (sym same ∙ ap (λ (x : Pte). x.frame) (sym is_new)))
    ]
    | inr old ↦ elim (new_or_old i t all p new k r f l) [
      | inl (at_i', at_p', is_new') ↦
          absurd ((ok.mapped_not_free j q e old).0 (same ∙ ap (λ (x : Pte). x.frame) (sym is_new')))
      | inr old' ↦ ok.mapped_once j q k r e f old old' same
    ]
  ];
}

-- What a table without an entry holds, it held elsewhere.
abbrev HeldElsewhere : ℕ → (ℕ → Option Pte) → Tables → ℕ → ℕ → ℕ → Pte → Type 0
HeldElsewhere i t all p j q e = (with_table i t all j q ≡ some e) × ((j ≡ i) → (q ≡ p) → ⊥)

held_elsewhere :
    (i : ℕ) (t : ℕ → Option Pte) (all : Tables) (p j q : ℕ) (e : Pte)
    → with_table i (set_pte p none t) all j q ≡ some e
    → HeldElsewhere i t all p j q e
held_elsewhere i t all p j q e h = elim (Bool-cases (j == i)) [
  | inr other ↦
      (rw other (sym (rw other refl) ∙ h), λ at_i at_p. absurd (cc ((==_iff j i).1 at_i, other)))
  | inl same ↦ elim (Bool-cases (q == p)) [
    | inl here ↦ let gone : none ≡ some e = sym (rw (same, here) refl) ∙ h in absurd (cc gone)
    | inr elsewhere ↦ (
      rw same (sym (rw (same, elsewhere) refl) ∙ h),
      λ at_i at_p. absurd (cc ((==_iff q p).1 at_p, elsewhere)),
    )
  ]
]

-- A mapped page is given back to the front of the list.
pub PagesOk-free :
    (i : ℕ) (t : ℕ → Option Pte) (all : Tables) (p : ℕ) (old : Pte) (free : List ℕ)
    → t p ≡ some old
    → PagesOk (with_table i t all) free
    → PagesOk (with_table i (set_pte p none t) all) (old.frame ∷ free)
PagesOk-free i t all p old free there ok =
    let held : with_table i t all i p ≡ some old = rw ((==_iff i i).1 refl) there in
    record {
      free_once = (ok.mapped_not_free i p old held, ok.free_once);
      mapped_not_free = λ j q e h.
          let (before, elsewhere) = held_elsewhere i t all p j q e h in
          (
            λ same.
                let (at_i, at_p) = ok.mapped_once j q i p e old before held same in
                elsewhere at_i at_p,
            ok.mapped_not_free j q e before,
          );
      mapped_once = λ j q k r e f h l same.
          ok.mapped_once j q k r e f (held_elsewhere i t all p j q e h).0
            (held_elsewhere i t all p k r f l).0 same;
    }
