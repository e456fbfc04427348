-- ===== src/Mmap/Fork.antt =====
-- copy_maps and do_map_helper of p5/xv6-public/sys_mmap.c, and the part of fork in proc.c that calls
-- them. The child's page table is a second `Space`; the free pages are the kernel's and go along.
use cs537projects.Base.{
  ℕ, zero, suc, ◌+◌, ◌-◌, ◌/◌, ◌<◌, ◌≡◌, refl, sym, subst, true, none, some, List, [], ◌∷◌, ltb,
  if◌then◌else◌, set, arith, inl, inr, ◌⊎◌,
}
use cs537projects.Base.Int.{pos, pos_part}
use cs537projects.Mmap.{Vma, vma_at, copy_mmap_struct, has_flag, map_shared, map_anonymous}
use cs537projects.Mmap.Pages.{
  Space, Outcome, panics, out_of_memory, runs, mappages, read_in, kill, get_physical_page,
  pg_round_down,
}

-- A panic, or a return of -1 or of another value.
pub data Copied : Type 0 where
  stops : Copied
  fails : Space → Space → Copied
  copied : Space → Space → Copied

-- do_map_helper for the parent; a size up to a page maps one page. Only a mapping of a file gets a
-- result other than -1.
abbrev pub helper_result : ℕ → ℕ → Vma → Space → Outcome → Copied
helper_result size a vma child panics = stops
helper_result size a vma child (out_of_memory s) = fails (kill s) child
helper_result size a vma child (runs s) =
    if has_flag vma.flags map_anonymous then fails s child else copied (read_in size a vma s) child

unfoldable pub do_map_helper : ℕ → ℕ → Vma → Space → Space → Copied
unfolding mappages read_in
do_map_helper size fault_addr vma parent child =
    let a = pg_round_down fault_addr in
    elim parent.freelist [
      | [] ↦ fails (kill parent) child
      | mem ∷ rest ↦ helper_result size a vma child (
          mappages a (record { frame = mem; writable = has_flag vma.prot 2 })
            (record parent { freelist = rest }))
    ]

-- A private page that the parent has: a copy for the child.
abbrev pub private_result : Space → Outcome → Copied
private_result parent panics = stops
private_result parent (out_of_memory c) = fails (record parent { freelist = c.freelist }) c
private_result parent (runs c) = copied (record parent { freelist = c.freelist }) c

unfoldable pub copy_private : ℕ → Vma → Space → Space → Copied
unfolding mappages
copy_private start vma parent child = elim parent.freelist [
  | [] ↦ fails parent child
  | mem ∷ rest ↦
      private_result (record parent { freelist = rest })
        (mappages start (record { frame = mem; writable = has_flag vma.prot 2 })
          (record child { freelist = rest }))
]

-- The size that a shared page is asked for; stored_size is at most the length.
abbrev pub part_of : Vma → ℕ
part_of vma = if ltb (vma.len - vma.stored_size) 4096 then vma.len - vma.stored_size else 4096

-- The body of the loop over the pages of a mapping.
unfoldable pub copy_page : ℕ → Vma → Space → Space → Copied
unfolding do_map_helper copy_private get_physical_page
copy_page start vma parent child =
    let here = get_physical_page start parent in
    if has_flag vma.flags map_shared
    then (elim here [
      | none ↦ do_map_helper (part_of vma) start vma parent child
      | some frame ↦ copied parent child
    ])
    else (elim here [
      | none ↦ copied parent child
      | some frame ↦ copy_private start vma parent child
    ])

unfoldable pub copy_pages : ℕ → ℕ → Vma → Space → Space → Copied
unfolding copy_page
copy_pages zero start vma parent child = copied parent child
copy_pages (suc rounds) start vma parent child = elim (copy_page start vma parent child) [
  | stops ↦ stops
  | fails p c ↦ fails p c
  | copied p c ↦ copy_pages rounds (start + 4096) vma p c
]

abbrev pub child_entry : ℕ → Vma → Space → Space
child_entry i vma child =
    let to = copy_mmap_struct (vma_at i child.vmas) vma in
    record child {
      vmas =
          set child.vmas i
            (if has_flag vma.flags map_shared then record to { ref_count = 1 } else to);
    }

-- The `while` of copy_maps from the entry `i` on.
unfoldable pub copy_from : ℕ → ℕ → Space → Space → Copied
unfolding copy_pages
copy_from zero i parent child = copied parent (record child { total = parent.total })
copy_from (suc rounds) i parent child =
    let vma = vma_at i parent.vmas in
    elim (copy_pages ((vma.len + 4095) / 4096) vma.addr vma parent child) [
      | stops ↦ stops
      | fails p c ↦ fails p c
      | copied p c ↦ copy_from rounds (suc i) p (child_entry i vma c)
    ]

unfoldable pub copy_maps : Space → Space → Copied
unfolding copy_from
copy_maps parent child = copy_from (pos_part parent.total) 0 parent child

-- A return of -1, or a stop of the kernel.
abbrev pub Refused : Copied → Type 0
Refused stops = Unit {0}
Refused (fails p c) = Unit {0}
Refused (copied p c) = ⊥

helper_anon :
    (size a : ℕ) (vma : Vma) (child : Space) (o : Outcome)
    → has_flag vma.flags map_anonymous ≡ true
    → Refused (helper_result size a vma child o)
helper_anon size a vma child panics anon = tt
helper_anon size a vma child (out_of_memory s) anon = tt
helper_anon size a vma child (runs s) anon = rw anon tt

List-cases : (xs : List ℕ) → (xs ≡ []) ⊎ ((x : ℕ) × (rest : List ℕ) × (xs ≡ x ∷ rest))
List-cases [] = inl refl
List-cases (x ∷ rest) = inr (x, rest, refl)

do_map_helper-Refused :
    (size a : ℕ) (vma : Vma) (parent child : Space)
    → has_flag vma.flags map_anonymous ≡ true
    → Refused (do_map_helper size a vma parent child)
unfolding do_map_helper
do_map_helper-Refused size a vma parent child anon = elim (List-cases parent.freelist) [
  | inl empty ↦ rw (empty, do_map_helper) tt
  | inr (mem, rest, e) ↦ rw (e, do_map_helper) (helper_anon size (pg_round_down a) vma child _ anon)
]

-- What follows a step that returned.
abbrev then_copy : Copied → (Space → Space → Copied) → Copied
then_copy o k = elim o [ stops ↦ stops | fails p c ↦ fails p c | copied p c ↦ k p c ]

first_Refused : (o : Copied) (k : Space → Space → Copied) → Refused o → Refused (then_copy o k)
first_Refused stops k h = tt
first_Refused (fails p c) k h = tt
first_Refused (copied p c) k h = absurd h

-- A process whose first mapping is shared and anonymous, with a byte, and whose first page has not
-- been touched, cannot fork: copy_maps does not return 0.
pub copy_maps-Refused :
    (parent child : Space) (n : ℕ)
    → parent.total ≡ pos (suc n)
    → has_flag (vma_at 0 parent.vmas).flags map_shared ≡ true
    → has_flag (vma_at 0 parent.vmas).flags map_anonymous ≡ true
    → 0 < (vma_at 0 parent.vmas).len
    → get_physical_page (vma_at 0 parent.vmas).addr parent ≡ none
    → Refused (copy_maps parent child)
unfolding copy_maps copy_from copy_pages copy_page
copy_maps-Refused parent child n total shared anon some_byte untouched =
    let vma = vma_at 0 parent.vmas in
    let rounds : (vma.len + 4095) / 4096 ≡ suc ((vma.len - 1) / 4096) = omega (arith, some_byte) in
    let page : copy_page vma.addr vma parent child
        ≡ do_map_helper (part_of vma) vma.addr vma parent child =
      rw (shared, copy_page) (rw (untouched, copy_page) refl) in
    let pages : Refused (copy_pages ((vma.len + 4095) / 4096) vma.addr vma parent child) =
      rw (rounds, copy_pages)
        (rw (page, copy_pages)
          (first_Refused (do_map_helper (part_of vma) vma.addr vma parent child) _
            (do_map_helper-Refused (part_of vma) vma.addr vma parent child anon))) in
    subst (λ t. Refused (copy_from (pos_part t) 0 parent child)) (sym total)
      (first_Refused (copy_pages ((vma.len + 4095) / 4096) vma.addr vma parent child) _ pages)
