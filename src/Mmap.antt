-- ===== src/Mmap.antt =====
-- p5/xv6-public: memory mappings. `struct vm_area_struct`, and finding a place for a mapping:
-- setup_mmap_arr, check_mmap_possible, find_mmap_addr and ummap of sys_mmap.c. Addresses and lengths
-- are the values of non-negative ints; a sum of two stays below 2^32, and the code compares it with
-- KERNBASE as an unsigned number.
pub mod Slots
pub mod Layout
pub mod Place
pub mod Search
pub mod Mapped
pub mod Pages
pub mod Unmap
pub mod Fault
pub mod Fork
pub mod Frames
pub mod Process
pub mod Calls
mod Tests
use Prim.Native.Nat.{bit_or}
use cs537projects.Base.{
  ℕ, zero, suc, ◌+◌, ◌-◌, ◌*◌, ◌/◌, ◌%◌, ◌^◌, ◌≡◌, Bool, true, false, ◌&&◌, ◌||◌, Option, none,
  some, List, [], ◌∷◌, ltb, leb, ◌==◌, if◌then◌else◌, get_or, set, not,
}
use cs537projects.Base.Int.{ℤ, pos, negsuc, ◌+ℤ◌, pos_part}

-- `file` is `none` for the null pointer.
pub record Vma : Type 0 where
  pub in_use : ℕ
  pub addr : ℕ
  pub len : ℕ
  pub prot : ℕ
  pub flags : ℕ
  pub file : Option ℕ
  pub offset : ℕ
  pub stored_size : ℕ
  pub ref_count : ℕ

abbrev pub no_vma : Vma
no_vma = record {
  in_use = 0;
  addr = 0;
  len = 0;
  prot = 0;
  flags = 0;
  file = none;
  offset = 0;
  stored_size = 0;
  ref_count = 0;
}

-- `vmas[32]` and `total_vmas` of `struct proc`.
pub record Maps : Type 0 where
  pub vmas : List Vma
  pub total : ℤ

abbrev pub max_vmas : ℕ
max_vmas = 32

abbrev pub mmapbase : ℕ
mmapbase = 0x60000000

abbrev pub kernbase : ℕ
kernbase = 0x80000000

abbrev pub pg_round_up : ℕ → ℕ
pg_round_up n = (n + 4095) / 4096 * 4096

-- `flags & bit`, for a power of two.
abbrev pub has_flag : ℕ → ℕ → Bool
has_flag flags bit = flags / bit % 2 == 1

abbrev pub map_private : ℕ
map_private = 1

abbrev pub map_shared : ℕ
map_shared = 2

abbrev pub map_anonymous : ℕ
map_anonymous = 4

abbrev pub map_fixed : ℕ
map_fixed = 8

abbrev pub map_growsup : ℕ
map_growsup = 16

abbrev pub vma_at : ℕ → List Vma → Vma
vma_at i v = get_or v i no_vma

abbrev pub copy_mmap_struct : Vma → Vma → Vma
copy_mmap_struct to from = record to {
  addr = from.addr;
  len = from.len;
  flags = from.flags;
  prot = from.prot;
  file = from.file;
  offset = from.offset;
}

abbrev pub copy_at : ℕ → ℕ → List Vma → List Vma
copy_at j k v = set v j (copy_mmap_struct (vma_at j v) (vma_at k v))

-- The `while` of `setup_mmap_arr`: `rounds` times, from the entry `j` down.
unfoldable pub shift_right : ℕ → ℕ → List Vma → List Vma
shift_right zero j v = v
shift_right (suc rounds) j v = shift_right rounds (j - 1) (copy_at j (j - 1) v)

abbrev pub place : ℕ → ℕ → Vma → Vma
place addr len v = record v { addr = addr; len = len }

-- `setup_mmap_arr` with `total_vmas` = `n` and `i + 1` = `at`; the shift is made before the test.
unfoldable pub setup_mmap_arr : ℕ → List Vma → ℕ → ℕ → ℕ → Option ℕ × List Vma
unfolding shift_right
setup_mmap_arr n v size at addr =
    let shifted = shift_right (n - at) n v in
    if leb kernbase (pg_round_up (addr + size))
    then (none, shifted)
    else (some at, set shifted at (place addr size (vma_at at shifted)))

abbrev pub end_of : Vma → ℕ
end_of a = pg_round_up (a.addr + a.len)

-- The `for` of `check_mmap_possible` from the entry `i` on, for `rounds` entries; the result is the
-- index `i + 1` for the new mapping.
unfoldable pub find_between : ℕ → ℕ → List Vma → ℕ → ℕ → Option ℕ
find_between zero i v addr size = none
find_between (suc rounds) i v addr size =
    let rest = find_between rounds (i + 1) v addr size in
    if leb addr (vma_at i v).addr
    then none
    else (if ltb (end_of (vma_at i v)) addr
          && ltb (addr + size) (pg_round_up (vma_at (i + 1) v).addr)
        then some (i + 1)
        else rest)

-- `vmas[total_vmas - 1]`; in front of the array stand other words of `struct proc`.
abbrev pub last_vma : (ℤ → Vma) → Maps → Vma
last_vma outside m = elim m.total [
  | pos n ↦ elim n [ zero ↦ outside (negsuc 0) | suc k ↦ vma_at k m.vmas ]
  | negsuc k ↦ outside (negsuc (suc k))
]

abbrev pub setup_found : Maps → ℕ → ℕ → Option ℕ → Option ℕ × List Vma
setup_found m size addr none = (none, m.vmas)
setup_found m size addr (some at) = setup_mmap_arr (pos_part m.total) m.vmas size at addr

unfoldable pub check_mmap_possible : (ℤ → Vma) → Maps → ℕ → ℕ → Option ℕ × List Vma
unfolding setup_mmap_arr find_between
check_mmap_possible outside m addr size =
    let n = pos_part m.total in
    if ltb (end_of (last_vma outside m)) (pg_round_up addr)
    then setup_mmap_arr n m.vmas size n (pg_round_up addr)
    else setup_found m size (pg_round_up addr)
        (find_between (n - 1) 0 m.vmas (pg_round_up addr) size)

-- The `while` of `find_mmap_addr`: the `i` at which it ends. The difference is unsigned.
unfoldable pub find_gap : ℕ → ℕ → List Vma → ℕ → ℕ
find_gap zero i v size = i
find_gap (suc rounds) i v size =
    let rest = find_gap rounds (i + 1) v size in
    if (vma_at (i + 1) v).addr == 0
    then i
    else (if ltb size
          ((pg_round_up (vma_at (i + 1) v).addr + 2 ^ 32 - end_of (vma_at i v)) % 2 ^ 32)
        then i
        else rest)

-- `find_mmap_addr` with mappings.
unfoldable pub find_mmap_after : ℕ → List Vma → ℕ → Option ℕ × List Vma
unfolding setup_mmap_arr find_gap
find_mmap_after n v size =
    let i = find_gap n 0 v size in
    if ltb size ((vma_at 0 v).addr - mmapbase)
    then setup_mmap_arr n v size 0 mmapbase
    else (if ltb kernbase (end_of (vma_at i v) + size)
        then (none, v)
        else setup_mmap_arr n v size (i + 1) (end_of (vma_at i v)))

unfoldable pub find_mmap_addr : Maps → ℕ → Option ℕ × List Vma
unfolding find_mmap_after
find_mmap_addr m size = elim m.total [
  | pos n ↦ elim n [
    | zero ↦
        if leb kernbase (pg_round_up (mmapbase + size))
        then (none, m.vmas)
        else (some 0, set m.vmas 0 (place (pg_round_up mmapbase) size (vma_at 0 m.vmas)))
    | suc k ↦ find_mmap_after (suc k) m.vmas size
  ]
  | negsuc k ↦ find_mmap_after 0 m.vmas size
]

-- PTE_U | prot
abbrev pub user_prot : ℕ → ℕ
user_prot prot = bit_or 4 prot

-- The end of `ummap`: the fields of the new entry, `total_vmas++`, and the address.
unfoldable pub fill_vma : Maps → ℕ → ℕ → ℕ → Option ℕ → Option ℕ × List Vma → Option ℕ × Maps
unfolding ◌+ℤ◌
fill_vma m prot flags offset file (none, v) = (none, record m { vmas = v })
fill_vma m prot flags offset file (some i, v) =
    let filled = record (vma_at i v) {
      file = file;
      flags = flags;
      prot = user_prot prot;
      offset = offset;
    } in
    (some (vma_at i v).addr, record { vmas = set v i filled; total = m.total +ℤ pos 1 })

-- Where a call without MAP_FIXED looks, after the hint did not fit.
abbrev pub or_find : ℕ → Option ℕ × List Vma → ℤ → Option ℕ × List Vma
or_find size (some i, v) total = (some i, v)
or_find size (none, v) total = find_mmap_addr (record { vmas = v; total = total }) size

abbrev is_full : ℤ → Bool
is_full (pos n) = leb max_vmas n
is_full (negsuc n) = false

-- `none` is the result -1. The ints `addr` and `length` are taken not to be negative.
unfoldable pub ummap : (ℤ → Vma) → Maps → ℕ → ℕ → ℕ → ℕ → ℕ → Option ℕ → Option ℕ × Maps
unfolding fill_vma check_mmap_possible find_mmap_addr
ummap outside m addr length prot flags offset file =
    let rnd_addr = pg_round_up (pg_round_up addr + length) in
    let hinted = check_mmap_possible outside m addr length in
    if is_full m.total
    then (none, m)
    else (if not (has_flag flags map_private) && not (has_flag flags map_shared)
        then (none, m)
        else (if has_flag flags map_fixed
            then (if (addr == 0) || (ltb addr mmapbase || ltb kernbase rnd_addr)
                then (none, m)
                else fill_vma m prot flags offset file hinted)
            else (if ltb kernbase rnd_addr
                then (none, m)
                else fill_vma m prot flags offset file (or_find length hinted m.total))))
