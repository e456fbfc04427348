-- ===== src/Mmap/Pages.antt =====
-- The page table of a process as p5/xv6-public uses it for mappings: walkpgdir and mappages of vm.c
-- for one page, do_map of trap.c, and get_physical_page of sys_mmap.c. A page-table page covers 4 MB.
use cs537projects.Base.{
  ℕ, zero, suc, ◌+◌, ◌*◌, ◌/◌, Bool, true, Option, none, some, List, [], ◌∷◌, ◌==◌, if◌then◌else◌,
}
use cs537projects.Base.Int.{ℤ, pos, ◌-ℤ◌, ltb_ℤ}
use cs537projects.Mmap.{Vma, has_flag, map_anonymous}

pub record Pte : Type 0 where
  pub frame : ℕ
  pub writable : Bool

-- A call of fileread or filewrite for a mapping: the file, the address in the process, and how many
-- bytes.
pub record Transfer : Type 0 where
  pub file : Option ℕ
  pub at : ℕ
  pub count : ℤ

-- What a process has: its mappings, which page-table pages are present (by address / 4 MB), the
-- entries (by address / 4096), whether it is killed, and the transfers made, the last first. The free
-- pages are the kernel's.
pub record Space : Type 0 where
  pub vmas : List Vma
  pub total : ℤ
  pub tables : ℕ → Bool
  pub ptes : ℕ → Option Pte
  pub freelist : List ℕ
  pub killed : Bool
  pub reads : List Transfer
  pub writes : List Transfer

abbrev pub table_of : ℕ → ℕ
table_of a = a / 0x400000

abbrev pub page_of : ℕ → ℕ
page_of a = a / 4096

abbrev pub pg_round_down : ℕ → ℕ
pg_round_down a = a / 4096 * 4096

abbrev pub kill : Space → Space
kill s = record s { killed = true }

-- A panic stops the kernel.
pub data Outcome : Type 0 where
  panics : Outcome
  out_of_memory : Space → Outcome
  runs : Space → Outcome

abbrev pub set_pte : ℕ → Option Pte → (ℕ → Option Pte) → ℕ → Option Pte
set_pte q e ptes r = if r == q then e else ptes r

-- `*pte = pa | perm | PTE_P`, unless the entry is present.
unfoldable pub install : ℕ → Pte → Space → Outcome
install a e s = elim (s.ptes (page_of a)) [
  | none ↦ runs (record s { ptes = set_pte (page_of a) (some e) s.ptes })
  | some old ↦ panics
]

-- mappages for the page at `a`: walkpgdir allocates the page-table page when it is not there.
unfoldable pub mappages : ℕ → Pte → Space → Outcome
unfolding install
mappages a e s = if s.tables (table_of a) then install a e s else (elim s.freelist [
  | [] ↦ out_of_memory s
  | page ∷ rest ↦
      install a e
        (record s { tables = λ t. if t == table_of a then true else s.tables t; freelist = rest })
])

-- fileread at the end of do_map; `stored_size` has grown by `more` in the copy.
unfoldable pub read_in : ℕ → ℕ → Vma → Space → Space
unfolding ◌-ℤ◌
read_in more a vma s =
    let rest = pos vma.len -ℤ pos (vma.stored_size + more) in
    let size = if ltb_ℤ rest (pos 4096) then rest else pos 4096 in
    if has_flag vma.flags map_anonymous
    then s
    else record s { reads = record { file = vma.file; at = a; count = size } ∷ s.reads }

abbrev prot_write : ℕ
prot_write = 2

-- What do_map does with the result of mappages.
abbrev pub settle : ℕ → Vma → Outcome → Outcome
settle a vma panics = panics
settle a vma (out_of_memory s) = runs (kill s)
settle a vma (runs s) = runs (read_in 4096 a vma s)

-- The vma is a copy: what do_map adds to its stored_size is lost.
unfoldable pub do_map : ℕ → Vma → Space → Outcome
unfolding mappages read_in
do_map fault_addr vma s =
    let a = pg_round_down fault_addr in
    elim s.freelist [
      | [] ↦ runs (kill s)
      | mem ∷ rest ↦ settle a vma (
          mappages a (record { frame = mem; writable = has_flag vma.prot prot_write })
            (record s { freelist = rest }))
    ]

-- The physical page, if the address has one.
unfoldable pub get_physical_page : ℕ → Space → Option ℕ
get_physical_page a s =
    if s.tables (table_of a)
    then (elim (s.ptes (page_of a)) [ none ↦ none | some e ↦ some e.frame ])
    else none

-- The `for` of umunmap that gives the pages back, from the address `a` on.
unfoldable pub free_pages : ℕ → ℕ → Space → Space
unfolding get_physical_page
free_pages zero a s = s
free_pages (suc rounds) a s = elim (get_physical_page a s) [
  | none ↦ free_pages rounds (a + 4096) s
  | some frame ↦
      free_pages rounds (a + 4096)
        (record s { ptes = set_pte (page_of a) none s.ptes; freelist = frame ∷ s.freelist })
]
