-- ===== src/Mmap/Fault/Second.antt =====
-- The first and the second fault of a private mapping in pgft_handler of p5/xv6-public/trap.c.
use cs537projects.Base.{ℕ, ◌<◌, ◌≤◌, ◌≡◌, Bool, true, false, some, List, ◌==◌, if◌then◌else◌}
use cs537projects.Base.Int.{pos_part}
use cs537projects.Mmap.{Vma, has_flag, map_shared, map_growsup, kernbase, mmapbase}
use cs537projects.Mmap.Pages.{Space, table_of, page_of, pg_round_down, set_pte}
use cs537projects.Mmap.Fault.{find_hit}

-- A fault between MMAPBASE and KERNBASE that the entry `i` is the first to cover.
pub record Hits (s : Space) (fault_addr i : ℕ) : Type 0 where
  pub low : mmapbase ≤ fault_addr
  pub high : fault_addr < kernbase
  pub covered : find_hit (pos_part s.total) 0 s.vmas fault_addr ≡ some i

-- A mapping with neither MAP_SHARED nor MAP_GROWSUP.
pub record IsPrivate (a : Vma) : Type 0 where
  pub unshared : has_flag a.flags map_shared ≡ false
  pub fixed_size : has_flag a.flags map_growsup ≡ false

-- The state after the first fault: the page and its page-table page are there.
abbrev with_page : ℕ → ℕ → ℕ → List ℕ → Bool → Space → Space
with_page fault_addr mem page rest writable s = record s {
  tables = λ t. if t == table_of (pg_round_down fault_addr) then true else s.tables t;
  ptes =
      set_pte (page_of (pg_round_down fault_addr))
        (some (record { frame = mem; writable = writable })) s.ptes;
  freelist = rest;
}
