-- ===== src/Mmap/Frames/Duplicated.antt =====
-- copy_maps of p5/xv6-public/sys_mmap.c keeps each page frame in one place, of the parent or of the
-- child.
use cs537projects.Base.{
  ℕ, zero, suc, ◌+◌, ◌/◌, ◌≡◌, ◌≢◌, refl, sym, ◌∙◌, subst, false, Option, List, ◌∷◌, ◌==◌, ==_iff,
  Bool-cases, Option-cases, inl, inr,
}
use cs537projects.Base.Int.{pos_part}
use cs537projects.Mmap.{Vma, vma_at, has_flag, map_shared, map_anonymous}
use cs537projects.Mmap.Pages.{
  Pte, Space, Outcome, panics, out_of_memory, runs, mappages, get_physical_page, pg_round_down,
}
use cs537projects.Mmap.Frames.{Tables, with_table, PagesOk, PagesOk-fewer}
use cs537projects.Mmap.Frames.Owned.{OutcomeOk, mappages-OutcomeOk, read_in-SpaceOk, List-cases}
use cs537projects.Mmap.Fork.{
  Copied, stops, fails, copied, helper_result, do_map_helper, private_result, copy_private, part_of,
  copy_page, copy_pages, child_entry, copy_from, copy_maps,
}

-- The tables of the parent `i` and the child `j` among others, and the free pages, which stand with
-- the parent.
abbrev pub BothOk : ℕ → ℕ → Tables → Space → Space → Type 0
BothOk i j all p c = PagesOk (with_table i p.ptes (with_table j c.ptes all)) p.freelist

abbrev pub CopiedOk : ℕ → ℕ → Tables → Copied → Type 0
CopiedOk i j all stops = Unit {0}
CopiedOk i j all (fails p c) = BothOk i j all p c
CopiedOk i j all (copied p c) = BothOk i j all p c

-- The order of the two tables does not matter.
pub swapped :
    (i j : ℕ) (t u : ℕ → Option Pte) (all : Tables) (free : List ℕ)
    → i ≢ j
    → PagesOk (with_table i t (with_table j u all)) free
    → PagesOk (with_table j u (with_table i t all)) free
swapped i j t u all free ne ok =
    PagesOk-fewer (with_table i t (with_table j u all)) (with_table j u (with_table i t all)) free
      (λ k q e h. elim (Bool-cases (k == i)) [
        | inl is_i ↦
            let not_j : (k == j) ≡ false = elim (Bool-cases (k == j)) [
              | inl is_j ↦ absurd (ne (sym ((==_iff k i).0 is_i) ∙ (==_iff k j).0 is_j))
              | inr not_j ↦ not_j
            ] in
            rw is_i (sym (rw (not_j, is_i) refl) ∙ h)
        | inr not_i ↦ elim (Bool-cases (k == j)) [
          | inl is_j ↦ rw (not_i, is_j) (sym (rw is_j refl) ∙ h)
          | inr not_j ↦ rw (not_i, not_j) (sym (rw (not_j, not_i) refl) ∙ h)
        ]
      ])
      ok

module _ (i j : ℕ) (all : Tables) (ne : i ≢ j) where
  other_way : j ≢ i
  other_way e = ne (sym e)

  helper_result-CopiedOk :
      (size a : ℕ) (vma : Vma) (child : Space) (o : Outcome)
      → OutcomeOk i (with_table j child.ptes all) o
      → CopiedOk i j all (helper_result size a vma child o)
  helper_result-CopiedOk size a vma child panics ok = tt
  helper_result-CopiedOk size a vma child (out_of_memory s) ok = ok
  helper_result-CopiedOk size a vma child (runs s) ok =
      elim (Bool-cases (has_flag vma.flags map_anonymous)) [
        | inl anon ↦ rw anon ok
        | inr of_file ↦ rw of_file (read_in-SpaceOk i (with_table j child.ptes all) size a vma s ok)
      ]

  do_map_helper-CopiedOk :
      (size a : ℕ) (vma : Vma) (parent child : Space)
      → BothOk i j all parent child
      → CopiedOk i j all (do_map_helper size a vma parent child)
  unfolding do_map_helper
  do_map_helper-CopiedOk size a vma parent child ok = elim (List-cases parent.freelist) [
    | inl empty ↦ rw (empty, do_map_helper) ok
    | inr (mem, rest, at) ↦
        rw (at, do_map_helper)
          (helper_result-CopiedOk size (pg_round_down a) vma child
            (mappages (pg_round_down a) (record { frame = mem; writable = has_flag vma.prot 2 })
              (record parent { freelist = rest }))
            (mappages-OutcomeOk i (with_table j child.ptes all) (pg_round_down a)
              (record { frame = mem; writable = has_flag vma.prot 2 })
              (record parent { freelist = rest })
              (subst (λ l. PagesOk (with_table i parent.ptes (with_table j child.ptes all)) l) at
                ok)))
  ]

  private_result-CopiedOk :
      (parent : Space) (o : Outcome)
      → OutcomeOk j (with_table i parent.ptes all) o
      → CopiedOk i j all (private_result parent o)
  private_result-CopiedOk parent panics ok = tt
  private_result-CopiedOk parent (out_of_memory c) ok =
      swapped j i c.ptes parent.ptes all c.freelist other_way ok
  private_result-CopiedOk parent (runs c) ok =
      swapped j i c.ptes parent.ptes all c.freelist other_way ok

  copy_private-CopiedOk :
      (start : ℕ) (vma : Vma) (parent child : Space)
      → BothOk i j all parent child
      → CopiedOk i j all (copy_private start vma parent child)
  unfolding copy_private
  copy_private-CopiedOk start vma parent child ok = elim (List-cases parent.freelist) [
    | inl empty ↦ rw (empty, copy_private) ok
    | inr (mem, rest, at) ↦
        rw (at, copy_private)
          (private_result-CopiedOk (record parent { freelist = rest })
            (mappages start (record { frame = mem; writable = has_flag vma.prot 2 })
              (record child { freelist = rest }))
            (mappages-OutcomeOk j (with_table i parent.ptes all) start
              (record { frame = mem; writable = has_flag vma.prot 2 })
              (record child { freelist = rest })
              (swapped i j parent.ptes child.ptes all (mem ∷ rest) ne (
                subst (λ l. PagesOk (with_table i parent.ptes (with_table j child.ptes all)) l) at
                  ok))))
  ]

  copy_page-CopiedOk :
      (start : ℕ) (vma : Vma) (parent child : Space)
      → BothOk i j all parent child
      → CopiedOk i j all (copy_page start vma parent child)
  unfolding copy_page
  copy_page-CopiedOk start vma parent child ok =
      elim (Option-cases (get_physical_page start parent)) [
        | inl missing ↦ elim (Bool-cases (has_flag vma.flags map_shared)) [
          | inl shared ↦
              rw (missing, shared, copy_page)
                (do_map_helper-CopiedOk (part_of vma) start vma parent child ok)
          | inr own ↦ rw (missing, own, copy_page) ok
        ]
        | inr (frame, at) ↦ elim (Bool-cases (has_flag vma.flags map_shared)) [
          | inl shared ↦ rw (at, shared, copy_page) ok
          | inr own ↦ rw (at, own, copy_page) (copy_private-CopiedOk start vma parent child ok)
        ]
      ]

  -- What follows a step keeps the pages if it does so after a step that returned.
  next-CopiedOk :
      (o : Copied) (k : Space → Space → Copied)
      → CopiedOk i j all o
      → ((p c : Space) → BothOk i j all p c → CopiedOk i j all (k p c))
      → CopiedOk i j all (elim o [ stops ↦ stops | fails p c ↦ fails p c | copied p c ↦ k p c ])
  next-CopiedOk stops k ok next = tt
  next-CopiedOk (fails p c) k ok next = ok
  next-CopiedOk (copied p c) k ok next = next p c ok

  copy_pages-CopiedOk :
      (rounds start : ℕ) (vma : Vma) (parent child : Space)
      → BothOk i j all parent child
      → CopiedOk i j all (copy_pages rounds start vma parent child)
  unfolding copy_pages
  copy_pages-CopiedOk zero start vma parent child ok = ok
  copy_pages-CopiedOk (suc rounds) start vma parent child ok =
      next-CopiedOk (copy_page start vma parent child)
        (λ p c. copy_pages rounds (start + 4096) vma p c)
        (copy_page-CopiedOk start vma parent child ok)
        (λ p c ok'. copy_pages-CopiedOk rounds (start + 4096) vma p c ok')

  copy_from-CopiedOk :
      (rounds k : ℕ) (parent child : Space)
      → BothOk i j all parent child
      → CopiedOk i j all (copy_from rounds k parent child)
  unfolding copy_from
  copy_from-CopiedOk zero k parent child ok = ok
  copy_from-CopiedOk (suc rounds) k parent child ok =
      let vma = vma_at k parent.vmas in
      next-CopiedOk (copy_pages ((vma.len + 4095) / 4096) vma.addr vma parent child)
        (λ p c. copy_from rounds (suc k) p (child_entry k vma c))
        (copy_pages-CopiedOk ((vma.len + 4095) / 4096) vma.addr vma parent child ok)
        (λ p c ok'. copy_from-CopiedOk rounds (suc k) p (child_entry k vma c) ok')

  pub copy_maps-CopiedOk :
      (parent child : Space)
      → BothOk i j all parent child
      → CopiedOk i j all (copy_maps parent child)
  unfolding copy_maps
  copy_maps-CopiedOk parent child ok = copy_from-CopiedOk (pos_part parent.total) 0 parent child ok
