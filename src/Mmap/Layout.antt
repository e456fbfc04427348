-- ===== src/Mmap/Layout.antt =====
-- The mappings of a process lie in order, each from a page boundary, and never share a page.
use cs537projects.Base.{
  ℕ, zero, suc, ◌+◌, ◌-◌, ◌%◌, ◌<◌, ◌≤◌, ◌≡◌, refl, ap, ◌∙◌, sym, subst₂, List, arith, set, length,
  length-set, inl, inr, ℕ_discrete, dec_lt, ◌⊎◌,
}
use cs537projects.Mmap.{Vma, vma_at, shift_right, place, end_of, pg_round_up, kernbase}
use cs537projects.Mmap.Slots.{
  span, vma_at-set_self, vma_at-set_ne, length-shift_right, span-shift_below, span-shift_above,
  span-shift_in,
}

-- The first `n` entries: in order, on page boundaries, below KERNBASE; the others are zeroed.
pub record Laid (n : ℕ) (v : List Vma) : Type 0 where
  pub room : n ≤ length v
  pub apart : (i : ℕ) → suc i < n → end_of (vma_at i v) ≤ (vma_at (suc i) v).addr
  pub aligned : (i : ℕ) → i < n → (vma_at i v).addr % 4096 ≡ 0
  pub below : (i : ℕ) → i < n → end_of (vma_at i v) < kernbase
  pub positive : (i : ℕ) → i < n → 0 < (vma_at i v).addr
  pub clean : (i : ℕ) → n ≤ i → (vma_at i v).addr ≡ 0

-- Room for `size` bytes at `addr` between the entries `at - 1` and `at`.
pub record Fits (n : ℕ) (v : List Vma) (size at addr : ℕ) : Type 0 where
  pub index : at ≤ n
  pub page : addr % 4096 ≡ 0
  pub nonzero : 0 < addr
  pub after : (i : ℕ) → suc i ≡ at → end_of (vma_at i v) ≤ addr
  pub before : at < n → pg_round_up (addr + size) ≤ (vma_at at v).addr

abbrev prev : ℕ → ℕ
prev zero = zero
prev (suc i) = i

prev_lem : (i : ℕ) → prev i ≡ i - 1
prev_lem zero = refl
prev_lem (suc i) = omega arith

-- The last page boundary of a span.
abbrev end_of_span : ℕ × ℕ → ℕ
end_of_span s = pg_round_up (s.0 + s.1)

-- `setup_mmap_arr` when it does not fail.
abbrev inserted : ℕ → List Vma → ℕ → ℕ → ℕ → List Vma
inserted n v size at addr =
    let shifted = shift_right (n - at) n v in set shifted at (place addr size (vma_at at shifted))

module _ (n : ℕ) (v : List Vma) (size at addr : ℕ) (index : at ≤ n) (free : n < length v) where
  pub span-inserted_new : span (vma_at at (inserted n v size at addr)) ≡ (addr, size)
  span-inserted_new = ap span (
      vma_at-set_self at (shift_right (n - at) n v) _
        (omega (arith, length-shift_right (n - at) n v)))

  span-inserted_below :
      (i : ℕ) → i < at → span (vma_at i (inserted n v size at addr)) ≡ span (vma_at i v)
  span-inserted_below i h =
      ap span (vma_at-set_ne i at (shift_right (n - at) n v) _ (omega arith))
      ∙ span-shift_below (n - at) n i v (omega arith) free (omega arith)

  span-inserted_above :
      (i : ℕ)
      → at < i
      → i ≤ n
      → span (vma_at i (inserted n v size at addr)) ≡ span (vma_at (prev i) v)
  span-inserted_above i h le =
      ap span (vma_at-set_ne i at (shift_right (n - at) n v) _ (omega arith))
      ∙ span-shift_in (n - at) n i v (omega arith) free (omega arith) le
      ∙ ap (λ k. span (vma_at k v)) (sym (prev_lem i))

  span-inserted_beyond :
      (i : ℕ) → n < i → span (vma_at i (inserted n v size at addr)) ≡ span (vma_at i v)
  span-inserted_beyond i h =
      ap span (vma_at-set_ne i at (shift_right (n - at) n v) _ (omega arith))
      ∙ span-shift_above (n - at) n i v (omega arith) free h

  -- Where the entry `i` of the new table comes from: its start and the page boundary at its end.
  abbrev From : ℕ → Type 0
  From i =
      let new = vma_at i (inserted n v size at addr) in
      ((i < at) × (new.addr ≡ (vma_at i v).addr) × (end_of new ≡ end_of (vma_at i v)))
      ⊎ ((i ≡ at) × (new.addr ≡ addr) × (end_of new ≡ pg_round_up (addr + size)))
      ⊎ ((at < i)
          × (new.addr ≡ (vma_at (prev i) v).addr)
          × (end_of new ≡ end_of (vma_at (prev i) v)))

  source_of : (i : ℕ) → i ≤ n → From i
  source_of i le = elim (dec_lt i at) [
    | yes lt ↦
        let e = span-inserted_below i lt in
        inl (lt, ap (λ (s : ℕ × ℕ). s.0) e, ap (λ (s : ℕ × ℕ). end_of_span s) e)
    | no ge ↦ elim (ℕ_discrete i at) [
      | yes same ↦
          let e : span (vma_at i (inserted n v size at addr)) ≡ (addr, size) =
            ap (λ k. span (vma_at k (inserted n v size at addr))) same ∙ span-inserted_new in
          inr (inl (same, ap (λ (s : ℕ × ℕ). s.0) e, ap (λ (s : ℕ × ℕ). end_of_span s) e))
      | no other ↦
          let lt : at < i = omega arith in
          let e = span-inserted_above i lt le in
          inr (inr (lt, ap (λ (s : ℕ × ℕ). s.0) e, ap (λ (s : ℕ × ℕ). end_of_span s) e))
    ]
  ]

module _ (n : ℕ) (v : List Vma) (size at addr : ℕ) (laid : Laid n v) (fits : Fits n v size at addr)
    (free : n < length v) (high : pg_round_up (addr + size) < kernbase) where
  apart_prev : (i : ℕ) → 0 < i → i < n → end_of (vma_at (prev i) v) ≤ (vma_at i v).addr
  apart_prev zero h lt = absurd (omega arith)
  apart_prev (suc i) h lt = laid.apart i lt

  before_at : (i : ℕ) → i ≡ at → i < n → pg_round_up (addr + size) ≤ (vma_at i v).addr
  before_at i e lt = rw e (fits.before (omega arith))

  inserted-apart :
      (i : ℕ)
      → suc i < suc n
      → end_of (vma_at i (inserted n v size at addr))
        ≤ (vma_at (suc i) (inserted n v size at addr)).addr
  inserted-apart i h =
      let there = source_of n v size at addr fits.index free (suc i) (omega arith) in
      elim (source_of n v size at addr fits.index free i (omega arith)) [
        | inl here ↦ elim there [
          | inl s ↦ omega (arith, here, s, laid.apart i (omega (arith, fits.index, s.0)))
          | inr (inl s) ↦ omega (arith, here, s, fits.after i s.0)
          | inr (inr s) ↦ absurd (omega (arith, here.0, s.0))
        ]
        | inr (inl here) ↦ elim there [
          | inl s ↦ absurd (omega (arith, here.0, s.0))
          | inr (inl s) ↦ absurd (omega (arith, here.0, s.0))
          | inr (inr s) ↦ omega (arith, here, s, before_at i here.0 (omega arith))
        ]
        | inr (inr here) ↦ elim there [
          | inl s ↦ absurd (omega (arith, here.0, s.0))
          | inr (inl s) ↦ absurd (omega (arith, here.0, s.0))
          | inr (inr s) ↦ omega (arith, here, s, apart_prev i (omega (arith, here.0)) (omega arith))
        ]
      ]

  -- What holds of every old mapping and of the new one holds of all.
  lift :
      (P : ℕ → ℕ → Type 0)
      → ((i : ℕ) → i < n → P (vma_at i v).addr (end_of (vma_at i v)))
      → P addr (pg_round_up (addr + size))
      → (i : ℕ) → i < suc n
      → P
          (vma_at i (inserted n v size at addr)).addr
          (end_of (vma_at i (inserted n v size at addr)))
  lift P old new i h = elim (source_of n v size at addr fits.index free i (omega arith)) [
    | inl s ↦ subst₂ P (sym s.1) (sym s.2) (old i (omega (arith, s.0, fits.index)))
    | inr (inl s) ↦ subst₂ P (sym s.1) (sym s.2) new
    | inr (inr s) ↦ subst₂ P (sym s.1) (sym s.2) (old (prev i) (omega (arith, s.0, prev_lem i)))
  ]

  pub inserted-Laid : Laid (suc n) (inserted n v size at addr)
  inserted-Laid = record {
    room = omega (
      arith,
      length-shift_right (n - at) n v,
      length-set (shift_right (n - at) n v) at
          (place addr size (vma_at at (shift_right (n - at) n v))),
    );
    apart = inserted-apart;
    aligned = lift (λ a e. a % 4096 ≡ 0) laid.aligned fits.page;
    below = lift (λ a e. e < kernbase) laid.below high;
    positive = lift (λ a e. 0 < a) laid.positive fits.nonzero;
    clean = λ i h. omega (
      arith,
      ap (λ (s : ℕ × ℕ). s.0) (span-inserted_beyond n v size at addr fits.index free i h),
      laid.clean i (omega arith),
    );
  }
