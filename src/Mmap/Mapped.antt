-- ===== src/Mmap/Mapped.antt =====
-- What ummap of p5/xv6-public/sys_mmap.c does, whatever its arguments: the mappings stay in order and
-- apart.
use cs537projects.Base.{ℕ, suc, ◌≤◌, ◌≡◌, length, Option, none, some}
use cs537projects.Base.Int.{pos}
use cs537projects.Mmap.{Maps, vma_at}
use cs537projects.Mmap.Slots.{span}
use cs537projects.Mmap.Layout.{Laid}

-- The result of a call with `n` mappings: the table as it was, or one mapping more, of the length
-- asked for, that starts at the result; all are in order and apart, from page boundaries, below
-- KERNBASE.
abbrev pub Mapped : ℕ → Maps → ℕ → Option ℕ × Maps → Type 0
Mapped n m length (none, after) = after ≡ m
Mapped n m length (some a, after) =
    (after.total ≡ pos (suc n))
    × Laid (suc n) after.vmas
    × ((i : ℕ) × (i ≤ n) × (span (vma_at i after.vmas) ≡ (a, length)))
