-- ===== src/Mmap/Search.antt =====
-- The places that check_mmap_possible and find_mmap_addr of p5/xv6-public/sys_mmap.c find.
use cs537projects.Base.{
  ℕ, zero, suc, ◌+◌, ◌-◌, ◌%◌, ◌^◌, ◌<◌, ◌≤◌, ◌≡◌, refl, ap, ◌∙◌, sym, subst, true, false, ◌&&◌,
  List, arith, ltb, leb, ◌==◌, length, Bool-cases, inl, inr, Option, none, some, ltb→lt, ==_iff,
  dec_lt,
}
use cs537projects.Base.Int.{ℤ, pos}
use cs537projects.Mmap.{
  Vma, vma_at, setup_mmap_arr, end_of, pg_round_up, kernbase, mmapbase, shift_right, find_between,
  find_gap, last_vma, check_mmap_possible, find_mmap_addr, find_mmap_after, setup_found,
}
use cs537projects.Mmap.Layout.{Laid, Fits}
use cs537projects.Mmap.Place.{Settled, setup_mmap_arr-Settled}

-- The index that the `for` of check_mmap_possible gives: an entry that ends before the address, with
-- the next one far enough.
abbrev Between : List Vma → ℕ → ℕ → ℕ → Option ℕ → Type 0
Between v size addr bound none = Unit {0}
Between v size addr bound (some at) =
    (k : ℕ) × (at ≡ k + 1)
    × (k + 1 ≤ bound)
    × (end_of (vma_at k v) < addr)
    × (addr + size < pg_round_up (vma_at (k + 1) v).addr)

hit_parts : (a b c d : ℕ) → (ltb a b && ltb c d) ≡ true → (a < b) × (c < d)
hit_parts a b c d h = ground arith

find_between-Between :
    (v : List Vma) (size rounds i addr bound : ℕ)
    → i + rounds ≤ bound
    → Between v size addr bound (find_between rounds i v addr size)
unfolding find_between
find_between-Between v size zero i addr bound h = tt
find_between-Between v size (suc rounds) i addr bound h =
    let next = pg_round_up (vma_at (i + 1) v).addr in
    let more = find_between-Between v size rounds (i + 1) addr bound (omega arith) in
    elim (Bool-cases (leb addr (vma_at i v).addr)) [
      | inl past ↦ rw (past, find_between) tt
      | inr e1 ↦
          rw (e1, find_between)
            (elim (Bool-cases (ltb (end_of (vma_at i v)) addr && ltb (addr + size) next)) [
              | inl hit ↦
                  let parts = hit_parts (end_of (vma_at i v)) addr (addr + size) next hit in
                  rw hit (i, refl, omega (arith, h), parts.0, parts.1)
              | inr miss ↦ rw miss more
            ])
    ]

-- What a search that has set the new entry up leaves.
abbrev pub Done : ℕ → List Vma → ℕ → Option ℕ × List Vma → Type 0
Done n v size (none, w) = w ≡ v
Done n v size (some i, w) = (i ≤ n) × Laid (suc n) w × ((vma_at i w).len ≡ size)

Settled-Done :
    (n : ℕ) (v : List Vma) (size at addr : ℕ) (r : Option ℕ × List Vma)
    → at ≤ n
    → Settled n v size at addr r
    → Done n v size r
Settled-Done n v size at addr (none, w) le h = h
Settled-Done n v size at addr (some i, w) le h =
    (omega (arith, h.0, le), h.1, ap (λ k. (vma_at k w).len) h.0 ∙ ap (λ (s : ℕ × ℕ). s.1) h.2)

starts_below : (a : Vma) → end_of a < kernbase → a.addr < kernbase
starts_below a h = omega (arith, h)

same_index : (i k at : ℕ) → at ≡ k + 1 → suc i ≡ at → k ≡ i
same_index i k at e s = omega (arith, e, s)

-- Below a page boundary, the next boundary is not past it.
round_up_le : (a b : ℕ) → b % 4096 ≡ 0 → a < pg_round_up b → pg_round_up a ≤ b
round_up_le a b page h = omega arith

module _ (n : ℕ) (v : List Vma) (size : ℕ) (laid : Laid n v) (free : n < length v) where
  setup-Done :
      (at addr : ℕ) → Fits n v size at addr → Done n v size (setup_mmap_arr n v size at addr)
  setup-Done at addr fits =
      Settled-Done n v size at addr (setup_mmap_arr n v size at addr) fits.index
        (setup_mmap_arr-Settled n v size at addr laid fits free)

  above_last :
      (outside : ℤ → Vma) (addr : ℕ)
      → end_of (last_vma outside (record { vmas = v; total = pos n })) < addr
      → (i : ℕ) → suc i ≡ n
      → end_of (vma_at i v) ≤ addr
  above_last outside addr h i last =
      let same : last_vma outside (record { vmas = v; total = pos n }) ≡ vma_at i v =
        ap (λ k. last_vma outside (record { vmas = v; total = pos k })) (sym last) in
      omega (arith, h, ap (λ (a : Vma). end_of a) same)

  found-Done :
      (addr : ℕ) (o : Option ℕ)
      → addr % 4096 ≡ 0
      → Between v size addr (n - 1) o
      → Done n v size (setup_found (record { vmas = v; total = pos n }) size addr o)
  found-Done addr none page h = refl
  found-Done addr (some at) page (k, e, bound, before, after) = setup-Done at addr (record {
    index = omega (arith, e, bound);
    page = page;
    nonzero = omega (arith, before);
    after = λ i s.
        subst (λ j. end_of (vma_at j v) ≤ addr) (same_index i k at e s) (omega (arith, before));
    before = λ lt.
        let there : (vma_at (k + 1) v).addr % 4096 ≡ 0 =
          laid.aligned (k + 1) (omega (arith, e, lt)) in
        subst (λ j. pg_round_up (addr + size) ≤ (vma_at j v).addr) (sym e)
          (round_up_le (addr + size) (vma_at (k + 1) v).addr there after);
  })

  pub check-Done :
      (outside : ℤ → Vma) (addr : ℕ)
      → Done n v size (check_mmap_possible outside (record { vmas = v; total = pos n }) addr size)
  unfolding check_mmap_possible
  check-Done outside addr =
      let last = last_vma outside (record { vmas = v; total = pos n }) in
      elim (Bool-cases (ltb (end_of last) (pg_round_up addr))) [
        | inl top ↦
            let above : end_of last < pg_round_up addr =
              ltb→lt (end_of last) (pg_round_up addr) top in
            rw (top, check_mmap_possible)
              (setup-Done n (pg_round_up addr) (record {
                index = omega arith;
                page = omega arith;
                nonzero = omega (arith, above);
                after = above_last outside (pg_round_up addr) above;
                before = λ lt. absurd (omega (arith, lt));
              }))
        | inr below ↦
            rw (below, check_mmap_possible)
              (found-Done (pg_round_up addr) (find_between (n - 1) 0 v (pg_round_up addr) size)
                (omega arith)
                (find_between-Between v size (n - 1) 0 (pg_round_up addr) (n - 1) (omega arith)))
      ]

  -- Where the `while` of find_mmap_addr ends: an entry with room behind it, up to the next one.
  abbrev Gap : ℕ → Type 0
  Gap g = (g < n) × (suc g < n → end_of (vma_at g v) + size < (vma_at (suc g) v).addr)

  room_here :
      (i : ℕ)
      → suc i < n
      → size < (pg_round_up (vma_at (suc i) v).addr + 2 ^ 32 - end_of (vma_at i v)) % 2 ^ 32
      → end_of (vma_at i v) + size < (vma_at (suc i) v).addr
  room_here i lt h = omega (
    arith,
    h,
    laid.apart i lt,
    laid.aligned (suc i) lt,
    starts_below (vma_at (suc i) v) (laid.below (suc i) lt),
  )

  -- The entry behind the last one is free.
  more_behind : (i : ℕ) → ((vma_at (i + 1) v).addr == 0) ≡ false → i + 1 < n
  more_behind i used = elim (dec_lt (i + 1) n) [
    | yes lt ↦ lt
    | no ge ↦
        let empty : (vma_at (i + 1) v).addr ≡ 0 = laid.clean (i + 1) (omega arith) in
        absurd (ground (arith, used, empty))
  ]

  find_gap-Gap : (rounds i : ℕ) → i + rounds ≡ n → i < n → Gap (find_gap rounds i v size)
  unfolding find_gap
  find_gap-Gap zero i e lt = absurd (omega arith)
  find_gap-Gap (suc rounds) i e lt =
      let same : i + 1 ≡ suc i = omega arith in
      let next : (vma_at (i + 1) v).addr ≡ (vma_at (suc i) v).addr =
        ap (λ k. (vma_at k v).addr) same in
      let gap = (pg_round_up (vma_at (i + 1) v).addr + 2 ^ 32 - end_of (vma_at i v)) % 2 ^ 32 in
      elim (Bool-cases ((vma_at (i + 1) v).addr == 0)) [
        | inl free_next ↦
            let empty : (vma_at (i + 1) v).addr ≡ 0 =
              (==_iff (vma_at (i + 1) v).addr 0).0 free_next in
            rw (free_next, find_gap)
              (lt, λ more. absurd (omega (arith, laid.positive (suc i) more, next, empty)))
        | inr used ↦
            rw (used, find_gap)
              (elim (Bool-cases (ltb size gap)) [
                | inl wide ↦ rw wide (
                  lt,
                  λ more. room_here i more (
                      subst (λ a. size < (pg_round_up a + 2 ^ 32 - end_of (vma_at i v)) % 2 ^ 32)
                        next (ltb→lt size gap wide)),
                )
                | inr narrow ↦
                    rw narrow (find_gap-Gap rounds (i + 1) (omega arith) (more_behind i used))
              ])
      ]

  at_base : ltb size ((vma_at 0 v).addr - mmapbase) ≡ true → Fits n v size 0 mmapbase
  at_base h =
      let room : size < (vma_at 0 v).addr - mmapbase =
        ltb→lt size ((vma_at 0 v).addr - mmapbase) h in
      record {
        index = omega arith;
        page = omega arith;
        nonzero = omega arith;
        after = λ i s. absurd (omega (arith, s));
        before = λ lt. omega (arith, room, laid.aligned 0 lt);
      }

  behind-Fits : (g : ℕ) → Gap g → Fits n v size (g + 1) (end_of (vma_at g v))
  behind-Fits g gap = record {
    index = omega (arith, gap.0);
    page = omega arith;
    nonzero = omega (arith, laid.positive g gap.0);
    after = λ i s.
        let same : g ≡ i = omega (arith, s) in
        subst (λ j. end_of (vma_at j v) ≤ end_of (vma_at g v)) same (omega arith);
    before = λ lt.
        let same : suc g ≡ g + 1 = omega arith in
        let more : suc g < n = omega (arith, lt) in
        subst (λ j. pg_round_up (end_of (vma_at g v) + size) ≤ (vma_at j v).addr) same
          (omega (arith, gap.1 more, laid.aligned (suc g) more));
  }

  find_after-Done : 0 < n → Done n v size (find_mmap_after n v size)
  unfolding find_mmap_after
  find_after-Done some_there =
      let g = find_gap n 0 v size in
      let gap : Gap g = find_gap-Gap n 0 (omega arith) some_there in
      elim (Bool-cases (ltb size ((vma_at 0 v).addr - mmapbase))) [
        | inl low ↦ rw (low, find_mmap_after) (setup-Done 0 mmapbase (at_base low))
        | inr tight ↦
            rw (tight, find_mmap_after)
              (elim (Bool-cases (ltb kernbase (end_of (vma_at g v) + size))) [
                | inl high ↦ rw high refl
                | inr fits ↦ rw fits (setup-Done (g + 1) (end_of (vma_at g v)) (behind-Fits g gap))
              ])
      ]

pub find_mmap_addr-Done :
    (n : ℕ) (v : List Vma) (size : ℕ)
    → Laid n v
    → n < length v
    → Done n v size (find_mmap_addr (record { vmas = v; total = pos n }) size)
unfolding find_mmap_addr setup_mmap_arr shift_right
find_mmap_addr-Done zero v size laid free = setup-Done zero v size laid free 0 mmapbase (record {
  index = omega arith;
  page = omega arith;
  nonzero = omega arith;
  after = λ i s. absurd (omega (arith, s));
  before = λ lt. absurd (omega (arith, lt));
})
find_mmap_addr-Done (suc k) v size laid free =
    find_after-Done (suc k) v size laid free (omega arith)
