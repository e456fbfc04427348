-- ===== src/Mmap/Place.antt =====
-- What setup_mmap_arr of p5/xv6-public/sys_mmap.c does to a table whose mappings are laid out.
use cs537projects.Base.{
  ℕ, suc, ◌+◌, ◌-◌, ◌<◌, ◌≡◌, refl, ap, ◌∙◌, List, arith, leb, length, Bool-cases, inl, inr, dec_lt,
  Option, none, some, leb→le,
}
use cs537projects.Mmap.{Vma, vma_at, shift_right, setup_mmap_arr, end_of, pg_round_up, kernbase}
use cs537projects.Mmap.Slots.{span}
use cs537projects.Mmap.Layout.{Laid, Fits, inserted-Laid, span-inserted_new}

-- The table is untouched, or it has one more mapping, at the place given.
abbrev pub Settled : ℕ → List Vma → ℕ → ℕ → ℕ → Option ℕ × List Vma → Type 0
Settled n v size at addr (none, w) = w ≡ v
Settled n v size at addr (some i, w) =
    (i ≡ at) × Laid (suc n) w × (span (vma_at at w) ≡ (addr, size))

shift_right-zero : (n : ℕ) (v : List Vma) → shift_right 0 n v ≡ v
unfolding shift_right
shift_right-zero n v = refl

starts_below :
    (i : ℕ) (v : List Vma) → end_of (vma_at i v) < kernbase → (vma_at i v).addr < kernbase
starts_below i v h = omega (arith, h)

-- On a table whose first mappings are in order and apart, with a place where the new one fits and a
-- free entry, setup_mmap_arr leaves the table as it was, or puts the new mapping at that place and
-- leaves all in order and apart, below KERNBASE.
pub setup_mmap_arr-Settled :
    (n : ℕ) (v : List Vma) (size at addr : ℕ)
    → Laid n v
    → Fits n v size at addr
    → n < length v
    → Settled n v size at addr (setup_mmap_arr n v size at addr)
unfolding setup_mmap_arr
setup_mmap_arr-Settled n v size at addr laid fits free =
    elim (Bool-cases (leb kernbase (pg_round_up (addr + size)))) [
      | inl high ↦
          let last : at ≡ n = elim (dec_lt at n) [
            | yes lt ↦ absurd (
                omega (
                  arith,
                  leb→le kernbase (pg_round_up (addr + size)) high,
                  fits.before lt,
                  starts_below at v (laid.below at lt),
                ))
            | no ge ↦ omega (arith, fits.index)
          ] in
          let none_moved : n - at ≡ 0 = omega (arith, last) in
          rw high (ap (λ k. shift_right k n v) none_moved ∙ shift_right-zero n v)
      | inr low ↦
          let below : pg_round_up (addr + size) < kernbase = ground arith in
          rw low (
            refl,
            inserted-Laid n v size at addr laid fits free below,
            span-inserted_new n v size at addr fits.index free,
          )
    ]
