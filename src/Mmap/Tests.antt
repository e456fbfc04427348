-- ===== src/Mmap/Tests.antt =====
-- The theorems about mappings at a concrete table and concrete page faults.
use cs537projects.Base.{
  [], ℕ, zero, suc, ◌<◌, ◌≤◌, ◌%◌, ◌≡◌, refl, true, false, none, some, List, ◌∷◌, replicate, arith,
}
use cs537projects.Mmap.{Maps, Vma, no_vma, vma_at, end_of, kernbase}
use cs537projects.Mmap.Layout.{Laid}
use cs537projects.Base.Int.{pos}
use cs537projects.Mmap.Mapped.{Mapped}
use cs537projects.Mmap.Pages.{Space, get_physical_page}
use cs537projects.Mmap.Fork.{Refused, copy_maps, copy_maps-Refused}
use cs537projects.Mmap.Calls.{MmapArgs, sys_mmap}
use cs537projects.Mmap.Unmap.{clear_maps}
use cs537projects.Mmap.Unmap.Removed.{Removed, AllNonempty}
use cs537projects.Mmap.Unmap.Cleared.{NoneLeft, clear_maps-NoneLeft}

-- One mapping of two pages from MMAPBASE + 4096 on.
abbrev one_map : List Vma
one_map = record no_vma { addr = 0x60001000; len = 8192; flags = 5; prot = 6 } ∷ replicate 31 no_vma

replicate_addr : (n i : ℕ) → (vma_at i (replicate n no_vma)).addr ≡ 0
replicate_addr zero i = refl
replicate_addr (suc n) zero = refl
replicate_addr (suc n) (suc i) = replicate_addr n i

first_aligned : (i : ℕ) → i < 1 → (vma_at i one_map).addr % 4096 ≡ 0
first_aligned zero h = omega arith
first_aligned (suc i) h = absurd (omega arith)

first_below : (i : ℕ) → i < 1 → end_of (vma_at i one_map) < kernbase
first_below zero h = omega arith
first_below (suc i) h = absurd (omega arith)

first_positive : (i : ℕ) → i < 1 → 0 < (vma_at i one_map).addr
first_positive zero h = omega arith
first_positive (suc i) h = absurd (omega arith)

rest_clean : (i : ℕ) → 1 ≤ i → (vma_at i one_map).addr ≡ 0
rest_clean zero h = absurd (omega arith)
rest_clean (suc i) h = replicate_addr 31 i

one_map-Laid : Laid 1 one_map
one_map-Laid = record {
  room = omega arith;
  apart = λ i h. absurd (omega arith);
  aligned = λ i h. first_aligned i h;
  below = λ i h. first_below i h;
  positive = λ i h. first_positive i h;
  clean = λ i h. rest_clean i h;
}

-- The process with that mapping and four free pages, and nothing mapped yet.
abbrev space : Space
space = record {
  vmas = one_map;
  total = pos 1;
  tables = λ _. false;
  ptes = λ _. none;
  freelist = 1 ∷ 2 ∷ 3 ∷ 4 ∷ [];
  killed = false;
  reads = [];
  writes = [];
}

one_map-AllNonempty : AllNonempty 1 one_map
one_map-AllNonempty zero h = omega arith
one_map-AllNonempty (suc i) h = absurd (omega arith)

replicate_refs : (n i : ℕ) → (vma_at i (replicate n no_vma)).ref_count ≡ 0
replicate_refs zero i = refl
replicate_refs (suc n) zero = refl
replicate_refs (suc n) (suc i) = replicate_refs n i

one_map_refs : (i : ℕ) → (vma_at i one_map).ref_count ≡ 0
one_map_refs zero = refl
one_map_refs (suc i) = replicate_refs 31 i

clear_maps-NoneLeft_example :
    NoneLeft (clear_maps (λ _. no_vma) true space).vmas
    × ((clear_maps (λ _. no_vma) true space).total ≡ pos 0)
clear_maps-NoneLeft_example =
    clear_maps-NoneLeft (λ _. no_vma) 1 space refl one_map-Laid one_map-AllNonempty (omega arith)
      refl one_map_refs

-- A shared anonymous page, not yet touched.
abbrev sharing : Space
sharing = record space {
  vmas = record no_vma { addr = 0x60000000; len = 4096; flags = 6; prot = 6 } ∷ [];
}

untouched : get_physical_page 0x60000000 sharing ≡ none
unfolding get_physical_page
untouched = refl

copy_maps-Refused_example : Refused (copy_maps sharing space)
copy_maps-Refused_example = copy_maps-Refused sharing space 0 refl refl refl (omega arith) untouched

abbrev args : MmapArgs
args = record { addr = 0; length = 4096; prot = 3; flags = 1; offset = 0 }

-- A table without a free entry: the call fails, and the file's count has grown.
abbrev full : Maps
full = record { vmas = one_map; total = pos 32 }

sys_mmap_fails : (sys_mmap (λ _. no_vma) (some args) (some 7) full (λ _. 1)).0 ≡ none
unfolding sys_mmap
sys_mmap_fails = refl

sys_mmap_refs : (sys_mmap (λ _. no_vma) (some args) (some 7) full (λ _. 1)).2 7 ≡ 2
unfolding sys_mmap
sys_mmap_refs = refl
