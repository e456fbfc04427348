-- ===== src/Mmap/Fault.antt =====
-- pgft_handler of p5/xv6-public/trap.c: a page fault of a process between MMAPBASE and KERNBASE.
pub mod Second
use cs537projects.Base.{
  ℕ, zero, suc, ◌+◌, ◌-◌, ◌*◌, ◌/◌, ◌≡◌, Bool, true, false, ◌&&◌, ◌||◌, not, Option, none, some,
  List, [], ◌∷◌, ltb, leb, ◌==◌, if◌then◌else◌, get_or, set,
}
use cs537projects.Base.Int.{ℤ, pos, negsuc, pos_part}
use cs537projects.Mmap.{
  Vma, vma_at, pg_round_up, has_flag, map_shared, map_growsup, kernbase, mmapbase,
}
use cs537projects.Mmap.Pages.{Space, Outcome, runs, do_map, kill, table_of}

-- The end of a mapping is taken to belong to it.
abbrev pub covers : ℕ → Vma → Bool
covers fault_addr a = leb a.addr fault_addr && leb fault_addr (a.addr + a.len)

-- The first loop, from the entry `i` on.
unfoldable pub find_hit : ℕ → ℕ → List Vma → ℕ → Option ℕ
find_hit zero i v fault_addr = none
find_hit (suc rounds) i v fault_addr =
    let rest = find_hit rounds (suc i) v fault_addr in
    if covers fault_addr (vma_at i v) then some i else rest

-- walkpgdir(...) is not 0 when the page-table page is there, also if the page itself is not.
unfoldable pub map_hit : ℕ → Vma → Space → Outcome
unfolding do_map
map_hit fault_addr a s =
    if s.tables (table_of fault_addr)
      && (not (has_flag a.flags map_growsup) && not (has_flag a.flags map_shared))
    then runs (kill s)
    else do_map fault_addr a s

-- `p->vmas[0].len += PGSIZE`, and the page of the fault.
abbrev pub grow_first : ℕ → Space → Outcome
grow_first fault_addr s =
    let first = vma_at 0 s.vmas in
    let longer : Vma = record first { len = first.len + 4096 } in
    do_map fault_addr longer (record s { vmas = set s.vmas 0 longer })

-- The second loop: its `break` stands behind the test, so the first entry alone is looked at.
unfoldable pub grow : ℕ → Space → Outcome
unfolding do_map
grow fault_addr s =
    if has_flag (vma_at 0 s.vmas).flags map_growsup
    then (elim s.total [
      | negsuc n ↦ runs (kill s)
      | pos n ↦ elim n [
        | zero ↦ runs (kill s)
        | suc k ↦
            if (k == 0) || ltb (pg_round_up fault_addr + 4096) (vma_at 1 s.vmas).addr
            then grow_first fault_addr s
            else runs (kill s)
      ]
    ])
    else runs (kill s)

unfoldable pub pgft_handler : ℕ → Space → Outcome
unfolding find_hit map_hit grow
pgft_handler fault_addr s =
    if leb kernbase fault_addr || ltb fault_addr mmapbase
    then runs (kill s)
    else (elim (find_hit (pos_part s.total) 0 s.vmas fault_addr) [
      | none ↦ grow fault_addr s
      | some i ↦ map_hit fault_addr (vma_at i s.vmas) s
    ])
