-- ===== src/Mmap/Unmap.antt =====
-- umunmap and clear_maps of p5/xv6-public/sys_mmap.c.
pub mod Removed
pub mod Cleared
use cs537projects.Base.{
  ℕ, zero, suc, ◌+◌, ◌-◌, ◌*◌, ◌/◌, ◌%◌, ◌^◌, ◌≡◌, Bool, true, false, ◌&&◌, ◌||◌, not, Option, none,
  some, List, [], ◌∷◌, ltb, leb, ◌==◌, if◌then◌else◌, get_or, set,
}
use cs537projects.Base.Int.{ℤ, pos, negsuc, ◌-ℤ◌, pos_part}
use cs537projects.Mmap.{
  Vma, Maps, vma_at, copy_mmap_struct, pg_round_up, has_flag, map_anonymous, map_shared, max_vmas,
  last_vma,
}
use cs537projects.Mmap.Pages.{Space, Transfer, free_pages}

-- The first loop of umunmap, from the entry `i` on.
unfoldable pub find_vma : ℕ → ℕ → List Vma → ℕ → Option ℕ
find_vma zero i v mainaddr = none
find_vma (suc rounds) i v mainaddr =
    let rest = find_vma rounds (suc i) v mainaddr in
    if (vma_at i v).addr == mainaddr then some i else rest

abbrev pub zero_mmap_region_struct : Vma → Vma
zero_mmap_region_struct a = record a {
  addr = 0;
  len = 0;
  flags = 0;
  prot = 0;
  file = none;
  offset = 0;
  stored_size = 0;
}

-- `vmas[32]` is what stands behind the array.
abbrev pub vma_or : (ℤ → Vma) → ℕ → List Vma → Vma
vma_or outside j v = if ltb j max_vmas then vma_at j v else outside (pos j)

-- The `while` of the left shift, from the entry `i` up.
unfoldable pub shift_left : (ℤ → Vma) → ℕ → ℕ → List Vma → List Vma
shift_left outside zero i v = v
shift_left outside (suc rounds) i v =
    let next = vma_or outside (suc i) v in
    let rest = shift_left outside rounds (suc i) (set v i (copy_mmap_struct (vma_at i v) next)) in
    if next.addr == 0 then v else rest

-- Whether the contents go back to the file.
unfoldable pub writes_back : Vma → Bool
writes_back a =
    has_flag a.flags map_shared && (not (has_flag a.flags map_anonymous) && has_flag a.prot 2)

abbrev pub write_back : Vma → Space → Space
write_back a s = record s {
  writes = record { file = a.file; at = a.addr; count = pos a.len } ∷ s.writes;
}

-- The rounds of the loop that frees pages.
abbrev pub rounds_of : ℕ → ℕ
rounds_of size = (size + 4095) / 4096

-- umunmap from "Free the allocated page" on, for the entry `i`.
unfoldable pub remove : (ℤ → Vma) → ℕ → ℕ → ℕ → Space → Space
unfolding shift_left free_pages ◌-ℤ◌
remove outside i addr unmapping_size s =
    let a = vma_at i s.vmas in
    let main_map_size = if ltb a.len unmapping_size then a.len else unmapping_size in
    let freed = free_pages (rounds_of main_map_size) addr s in
    if leb a.len unmapping_size
    then record freed {
      vmas = shift_left outside (max_vmas - i) i (set s.vmas i (zero_mmap_region_struct a));
      total = s.total -ℤ pos 1;
    }
    else record freed {
      vmas =
          set s.vmas i (record a { addr = a.addr + unmapping_size; len = a.len - unmapping_size });
    }

-- The result is whether 0 is returned; `write_ok` is whether filewrite succeeds.
unfoldable pub unmap_at : (ℤ → Vma) → Bool → ℕ → ℕ → ℕ → Space → Bool × Space
unfolding remove writes_back
unmap_at outside write_ok i addr unmapping_size s =
    let a = vma_at i s.vmas in
    if a.len == 0
    then (false, s)
    else (if writes_back a
        then (if write_ok
            then (true, remove outside i addr unmapping_size (write_back a s))
            else (false, write_back a s))
        else (true, remove outside i addr unmapping_size s))

unfoldable pub umunmap : (ℤ → Vma) → Bool → ℕ → ℕ → Space → Bool × Space
unfolding find_vma unmap_at
umunmap outside write_ok addr length s = elim (find_vma max_vmas 0 s.vmas (pg_round_up addr)) [
  | none ↦ (false, s)
  | some i ↦ unmap_at outside write_ok i addr (pg_round_up length) s
]

-- The `while` of clear_maps, `total` times.
unfoldable pub clear_from : (ℤ → Vma) → Bool → ℕ → Space → Space
unfolding umunmap
clear_from outside write_ok zero s = s
clear_from outside write_ok (suc total) s =
    let last = last_vma outside (record { vmas = s.vmas; total = s.total }) in
    clear_from outside write_ok total
      (if last.ref_count == 0 then (umunmap outside write_ok last.addr last.len s).1 else s)

unfoldable pub clear_maps : (ℤ → Vma) → Bool → Space → Space
unfolding clear_from
clear_maps outside write_ok s = record (clear_from outside write_ok (pos_part s.total) s) {
  total = pos 0;
}
