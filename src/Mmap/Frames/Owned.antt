-- ===== src/Mmap/Frames/Owned.antt =====
-- The handlers and calls of p5/xv6-public that map pages and give them back keep each page frame in
-- one place.
use cs537projects.Base.{
  ℕ, zero, suc, ◌+◌, ◌≡◌, refl, sym, ap, ◌∙◌, subst, Bool, true, false, Option, none, some, List,
  [], ◌∷◌, ◌==◌, if◌then◌else◌, Bool-cases, Option-cases, inl, inr, ◌⊎◌, ltb, ◌||◌, set,
}
use cs537projects.Base.Int.{ℤ, pos, negsuc, pos_part}
use cs537projects.Mmap.{Vma, vma_at, has_flag, pg_round_up, map_anonymous}
use cs537projects.Mmap.Pages.{
  Pte, Space, Outcome, panics, out_of_memory, runs, set_pte, page_of, table_of, install, mappages,
  read_in, get_physical_page, free_pages, kill, do_map, pg_round_down, settle,
}
use cs537projects.Mmap.Frames.{
  Tables, with_table, PagesOk, PagesOk-drop, PagesOk-drop_second, PagesOk-install, PagesOk-free,
}
use cs537projects.Mmap.Fault.{pgft_handler, map_hit, grow, grow_first, find_hit}

-- A process `i` among others.
abbrev pub SpaceOk : ℕ → Tables → Space → Type 0
SpaceOk i all s = PagesOk (with_table i s.ptes all) s.freelist

abbrev pub OutcomeOk : ℕ → Tables → Outcome → Type 0
OutcomeOk i all panics = Unit {0}
OutcomeOk i all (out_of_memory s) = SpaceOk i all s
OutcomeOk i all (runs s) = SpaceOk i all s

install-OutcomeOk :
    (i : ℕ) (all : Tables) (a : ℕ) (e : Pte) (s : Space)
    → PagesOk (with_table i s.ptes all) (e.frame ∷ s.freelist)
    → OutcomeOk i all (install a e s)
unfolding install
install-OutcomeOk i all a e s ok = elim (Option-cases (s.ptes (page_of a))) [
  | inl empty ↦ rw (empty, install) (PagesOk-install i s.ptes all (page_of a) e s.freelist ok)
  | inr (old, at) ↦ rw (at, install) tt
]

pub List-cases : (xs : List ℕ) → (xs ≡ []) ⊎ ((x : ℕ) × (rest : List ℕ) × (xs ≡ x ∷ rest))
List-cases [] = inl refl
List-cases (x ∷ rest) = inr (x, rest, refl)

pub mappages-OutcomeOk :
    (i : ℕ) (all : Tables) (a : ℕ) (e : Pte) (s : Space)
    → PagesOk (with_table i s.ptes all) (e.frame ∷ s.freelist)
    → OutcomeOk i all (mappages a e s)
unfolding mappages
mappages-OutcomeOk i all a e s ok = elim (Bool-cases (s.tables (table_of a))) [
  | inl there ↦ rw (there, mappages) (install-OutcomeOk i all a e s ok)
  | inr missing ↦ elim (List-cases s.freelist) [
    | inl empty ↦
        rw (missing, empty, mappages) (PagesOk-drop (with_table i s.ptes all) e.frame s.freelist ok)
    | inr (page, rest, at) ↦
        rw (missing, at, mappages)
          (install-OutcomeOk i all a e
            (record s {
              tables = λ t. if t == table_of a then true else s.tables t;
              freelist = rest;
            })
            (PagesOk-drop_second (with_table i s.ptes all) e.frame page rest
              (subst (λ l. PagesOk (with_table i s.ptes all) (e.frame ∷ l)) at ok)))
  ]
]

pub read_in-SpaceOk :
    (i : ℕ) (all : Tables) (more a : ℕ) (vma : Vma) (s : Space)
    → SpaceOk i all s
    → SpaceOk i all (read_in more a vma s)
unfolding read_in
read_in-SpaceOk i all more a vma s ok = elim (Bool-cases (has_flag vma.flags map_anonymous)) [
  | inl anon ↦ rw (anon, read_in) ok
  | inr of_file ↦ rw (of_file, read_in) ok
]

settle-OutcomeOk :
    (i : ℕ) (all : Tables) (a : ℕ) (vma : Vma) (o : Outcome)
    → OutcomeOk i all o
    → OutcomeOk i all (settle a vma o)
settle-OutcomeOk i all a vma panics ok = tt
settle-OutcomeOk i all a vma (out_of_memory s) ok = ok
settle-OutcomeOk i all a vma (runs s) ok = read_in-SpaceOk i all 4096 a vma s ok

do_map-OutcomeOk :
    (i : ℕ) (all : Tables) (a : ℕ) (vma : Vma) (s : Space)
    → SpaceOk i all s
    → OutcomeOk i all (do_map a vma s)
unfolding do_map
do_map-OutcomeOk i all a vma s ok = elim (List-cases s.freelist) [
  | inl empty ↦ rw (empty, do_map) ok
  | inr (mem, rest, at) ↦
      rw (at, do_map)
        (settle-OutcomeOk i all (pg_round_down a) vma _ (
          mappages-OutcomeOk i all (pg_round_down a)
            (record { frame = mem; writable = has_flag vma.prot 2 }) (record s { freelist = rest })
            (subst (λ l. PagesOk (with_table i s.ptes all) l) at ok)))
]

if_OutcomeOk :
    (b : Bool) (i : ℕ) (all : Tables) (x y : Outcome)
    → OutcomeOk i all x
    → OutcomeOk i all y
    → OutcomeOk i all (if b then x else y)
if_OutcomeOk true i all x y h k = h
if_OutcomeOk false i all x y h k = k

map_hit-OutcomeOk :
    (i : ℕ) (all : Tables) (a : ℕ) (vma : Vma) (s : Space)
    → SpaceOk i all s
    → OutcomeOk i all (map_hit a vma s)
unfolding map_hit
map_hit-OutcomeOk i all a vma s ok =
    if_OutcomeOk _ i all (runs (kill s)) (do_map a vma s) ok (do_map-OutcomeOk i all a vma s ok)

-- What grow does, by total_vmas.
abbrev grow_by : ℤ → ℕ → Space → Outcome
grow_by t fault_addr s = elim t [
  | negsuc n ↦ runs (kill s)
  | pos n ↦ elim n [
    | zero ↦ runs (kill s)
    | suc k ↦
        if (k == 0) || ltb (pg_round_up fault_addr + 4096) (vma_at 1 s.vmas).addr
        then grow_first fault_addr s
        else runs (kill s)
  ]
]

grow_by-OutcomeOk :
    (t : ℤ) (i : ℕ) (all : Tables) (a : ℕ) (s : Space)
    → SpaceOk i all s
    → OutcomeOk i all (grow_by t a s)
grow_by-OutcomeOk (negsuc n) i all a s ok = ok
grow_by-OutcomeOk (pos zero) i all a s ok = ok
grow_by-OutcomeOk (pos (suc k)) i all a s ok =
    let first = vma_at 0 s.vmas in
    let longer : Vma = record first { len = first.len + 4096 } in
    if_OutcomeOk ((k == 0) || ltb (pg_round_up a + 4096) (vma_at 1 s.vmas).addr) i all
      (grow_first a s) (runs (kill s))
      (do_map-OutcomeOk i all a longer (record s { vmas = set s.vmas 0 longer }) ok) ok

grow-OutcomeOk :
    (i : ℕ) (all : Tables) (a : ℕ) (s : Space) → SpaceOk i all s → OutcomeOk i all (grow a s)
unfolding grow
grow-OutcomeOk i all a s ok =
    if_OutcomeOk _ i all (grow_by s.total a s) (runs (kill s))
      (grow_by-OutcomeOk s.total i all a s ok) ok

-- The end of pgft_handler, by the mapping that the search found.
abbrev handle_hit : Option ℕ → ℕ → Space → Outcome
unfolding map_hit grow
handle_hit o fault_addr s = elim o [
  | none ↦ grow fault_addr s
  | some k ↦ map_hit fault_addr (vma_at k s.vmas) s
]

handle_hit-OutcomeOk :
    (o : Option ℕ) (i : ℕ) (all : Tables) (a : ℕ) (s : Space)
    → SpaceOk i all s
    → OutcomeOk i all (handle_hit o a s)
unfolding handle_hit
handle_hit-OutcomeOk none i all a s ok = grow-OutcomeOk i all a s ok
handle_hit-OutcomeOk (some k) i all a s ok = map_hit-OutcomeOk i all a (vma_at k s.vmas) s ok

pub pgft_handler-OutcomeOk :
    (i : ℕ) (all : Tables) (a : ℕ) (s : Space)
    → SpaceOk i all s
    → OutcomeOk i all (pgft_handler a s)
unfolding pgft_handler handle_hit
pgft_handler-OutcomeOk i all a s ok =
    if_OutcomeOk _ i all (runs (kill s)) (handle_hit (find_hit (pos_part s.total) 0 s.vmas a) a s)
      ok (handle_hit-OutcomeOk (find_hit (pos_part s.total) 0 s.vmas a) i all a s ok)

some_frame : {a b : ℕ} → some a ≡ some b → a ≡ b
some_frame {a = a} e = ap (λ o. elim o [ none ↦ a | some c ↦ c ]) e

mapped_page :
    (a : ℕ) (s : Space) (frame : ℕ)
    → get_physical_page a s ≡ some frame
    → (e : Pte) × (s.ptes (page_of a) ≡ some e) × (e.frame ≡ frame)
unfolding get_physical_page
mapped_page a s frame h = elim (Bool-cases (s.tables (table_of a))) [
  | inr missing ↦ let no_page : none ≡ some frame = sym (rw missing refl) ∙ h in absurd (cc no_page)
  | inl there ↦ elim (Option-cases (s.ptes (page_of a))) [
    | inl empty ↦
        let no_page : none ≡ some frame = sym (rw (there, empty) refl) ∙ h in absurd (cc no_page)
    | inr (e, at) ↦
        let page : some e.frame ≡ some frame = sym (rw (there, at) refl) ∙ h in
        (e, at, some_frame page)
  ]
]

-- The loop of umunmap over the pages.
pub free_pages-SpaceOk :
    (i : ℕ) (all : Tables) (rounds a : ℕ) (s : Space)
    → SpaceOk i all s
    → SpaceOk i all (free_pages rounds a s)
unfolding free_pages
free_pages-SpaceOk i all zero a s ok = ok
free_pages-SpaceOk i all (suc rounds) a s ok = elim (Option-cases (get_physical_page a s)) [
  | inl unmapped ↦ rw (unmapped, free_pages) (free_pages-SpaceOk i all rounds (a + 4096) s ok)
  | inr (frame, at) ↦
      let (e, there, same) = mapped_page a s frame at in
      rw (at, free_pages)
        (free_pages-SpaceOk i all rounds (a + 4096)
          (record s { ptes = set_pte (page_of a) none s.ptes; freelist = frame ∷ s.freelist })
          (subst
            (λ f. PagesOk (with_table i (set_pte (page_of a) none s.ptes) all) (f ∷ s.freelist))
            same (PagesOk-free i s.ptes all (page_of a) e s.freelist there ok)))
]
