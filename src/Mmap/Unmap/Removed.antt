-- ===== src/Mmap/Unmap/Removed.antt =====
-- What umunmap of p5/xv6-public/sys_mmap.c does to the table when it removes a whole mapping.
use cs537projects.Base.{
  ℕ, zero, suc, ◌+◌, ◌-◌, ◌<◌, ◌≤◌, ◌≡◌, refl, ◌≢◌, ap, ◌∙◌, sym, subst, true, false, some, List,
  leb, ◌==◌, set, length, length-set, arith, Bool-cases, inl, inr, ==_iff, ℕ_discrete, dec_lt,
  lt→ltb,
}
use cs537projects.Base.Int.{ℤ, pos, ◌-ℤ◌}
use cs537projects.Mmap.{Vma, vma_at, copy_mmap_struct, pg_round_up, max_vmas}
use cs537projects.Mmap.Slots.{span, vma_at-set_self, vma_at-set_ne}
use cs537projects.Mmap.Layout.{Laid}
use cs537projects.Mmap.Pages.{Space}
use cs537projects.Mmap.Unmap.{
  find_vma, zero_mmap_region_struct, vma_or, shift_left, writes_back, write_back, remove, unmap_at,
  umunmap,
}

-- `n` mappings behind `i` at most, and nothing from `n` on.
record Tail (n i : ℕ) (v : List Vma) : Type 0 where
  used : (j : ℕ) → i < j → j < n → 0 < (vma_at j v).addr
  unused : (j : ℕ) → n ≤ j → (vma_at j v).addr ≡ 0

-- The table `w` has the entries of `v` behind `i` one place down; the last one still stands.
pub record Shifted (n i : ℕ) (v w : List Vma) : Type 0 where
  pub size : length w ≡ length v
  pub before : (j : ℕ) → j < i → span (vma_at j w) ≡ span (vma_at j v)
  pub moved : (j : ℕ) → i ≤ j → suc j < n → span (vma_at j w) ≡ span (vma_at (suc j) v)
  pub behind : (j : ℕ) → i ≤ j → n ≤ suc j → span (vma_at j w) ≡ span (vma_at j v)

vma_or_inside :
    (outside : ℤ → Vma) (j : ℕ) (v : List Vma) → j < max_vmas → vma_or outside j v ≡ vma_at j v
vma_or_inside outside j v h = rw (lt→ltb j max_vmas h) refl

shift_left-Shifted :
    (outside : ℤ → Vma) (n rounds i : ℕ) (v : List Vma)
    → n < max_vmas
    → length v ≡ max_vmas
    → i + rounds ≡ max_vmas
    → i < n
    → Tail n i v
    → Shifted n i v (shift_left outside rounds i v)
unfolding shift_left
shift_left-Shifted outside n zero i v small len e lt tail = absurd (omega (arith, e, lt, small))
shift_left-Shifted outside n (suc rounds) i v small len e lt tail =
    let next : vma_or outside (suc i) v ≡ vma_at (suc i) v =
      vma_or_inside outside (suc i) v (omega (arith, lt, small)) in
    elim (dec_lt (suc i) n) [
      | yes more ↦
          let v1 = set v i (copy_mmap_struct (vma_at i v) (vma_at (suc i) v)) in
          let there : ((vma_at (suc i) v).addr == 0) ≡ false =
            ground (arith, tail.used (suc i) (omega arith) more) in
          let tail1 : Tail n (suc i) v1 = record {
            used = λ j h k.
                subst (λ (a : Vma). 0 < a.addr) (sym (vma_at-set_ne j i v _ (omega arith)))
                  (tail.used j (omega arith) k);
            unused = λ j h.
                ap (λ (a : Vma). a.addr) (vma_at-set_ne j i v _ (omega (arith, h, lt)))
                ∙ tail.unused j h;
          } in
          let rest : Shifted n (suc i) v1 (shift_left outside rounds (suc i) v1) =
            shift_left-Shifted outside n rounds (suc i) v1 small (length-set v i _ ∙ len)
              (omega (arith, e)) more tail1 in
          let here : span (vma_at i v1) ≡ span (vma_at (suc i) v) =
            ap span (vma_at-set_self i v _ (omega (arith, lt, small, len))) in
          rw (next, shift_left)
            (rw there (record {
              size = rest.size ∙ length-set v i _;
              before = λ j h.
                  rest.before j (omega arith) ∙ ap span (vma_at-set_ne j i v _ (omega arith));
              moved = λ j h k. elim (ℕ_discrete j i) [
                | yes same ↦
                    rest.before j (omega (arith, same))
                    ∙ ap (λ a. span (vma_at a v1)) same
                    ∙ here
                    ∙ ap (λ a. span (vma_at (suc a) v)) (sym same)
                | no other ↦
                    rest.moved j (omega arith) k
                    ∙ ap span (vma_at-set_ne (suc j) i v _ (omega arith))
              ];
              behind = λ j h k.
                  rest.behind j (omega (arith, more, k)) k
                  ∙ ap span (vma_at-set_ne j i v _ (omega (arith, more, k)));
            }))
      | no last ↦
          let empty : ((vma_at (suc i) v).addr == 0) ≡ true =
            (==_iff (vma_at (suc i) v).addr 0).1 (tail.unused (suc i) (omega arith)) in
          rw (next, shift_left)
            (rw empty (record {
              size = refl;
              before = λ j h. refl;
              moved = λ j h k. absurd (omega (arith, h, k, last));
              behind = λ j h k. refl;
            }))
    ]

find_vma-some :
    (rounds i k a : ℕ) (v : List Vma)
    → i ≤ k
    → k < i + rounds
    → ((j : ℕ) → j < k → (vma_at j v).addr ≢ a)
    → (vma_at k v).addr ≡ a
    → find_vma rounds i v a ≡ some k
unfolding find_vma
find_vma-some zero i k a v lo hi others here = absurd (omega arith)
find_vma-some (suc rounds) i k a v lo hi others here = elim (ℕ_discrete i k) [
  | yes same ↦
      let hit : ((vma_at i v).addr == a) ≡ true =
        (==_iff (vma_at i v).addr a).1 (ap (λ j. (vma_at j v).addr) same ∙ here) in
      rw (hit, find_vma) (ap some same)
  | no below ↦
      let miss : ((vma_at i v).addr == a) ≡ false = ground (arith, others i (omega arith)) in
      rw (miss, find_vma)
        (find_vma-some rounds (suc i) k a v (omega arith) (omega arith) others here)
]

le→leb : (a b : ℕ) → a ≤ b → leb a b ≡ true
le→leb a b h = ground arith

minus_one : (n : ℕ) → 0 < n → pos n -ℤ pos 1 ≡ pos (n - 1)
unfolding ◌-ℤ◌
minus_one n h = ground arith

-- Every mapping has a byte.
abbrev pub AllNonempty : ℕ → List Vma → Type 0
AllNonempty n v = (i : ℕ) → i < n → 0 < (vma_at i v).len

round_up_past : (a b : ℕ) → 0 < b → a < pg_round_up (a + b)
round_up_past a b h = omega arith

-- Mappings in order that have bytes start at different addresses.
starts_increase :
    (n d j : ℕ) (v : List Vma)
    → Laid n v
    → AllNonempty n v
    → suc (j + d) < n
    → (vma_at j v).addr < (vma_at (suc (j + d)) v).addr
starts_increase n zero j v laid full lt =
    let same : suc (j + 0) ≡ suc j = omega arith in
    omega (
      arith,
      ap (λ i. (vma_at i v).addr) same,
      laid.apart j (omega arith),
      round_up_past (vma_at j v).addr (vma_at j v).len (full j (omega arith)),
    )
starts_increase n (suc d) j v laid full lt =
    let same : suc (j + suc d) ≡ suc (suc j + d) = omega arith in
    omega (
      arith,
      ap (λ i. (vma_at i v).addr) same,
      laid.apart j (omega arith),
      round_up_past (vma_at j v).addr (vma_at j v).len (full j (omega arith)),
      starts_increase n d (suc j) v laid full (omega arith),
    )

-- The mapping `k` of `n` is gone from `v`: those behind it are one place down. Behind the last one
-- nothing is written, so it stands twice unless it is the one that is gone.
pub record Removed (n k : ℕ) (v w : List Vma) : Type 0 where
  pub size : length w ≡ length v
  pub before : (j : ℕ) → j < k → span (vma_at j w) ≡ span (vma_at j v)
  pub moved : (j : ℕ) → k ≤ j → suc j < n → span (vma_at j w) ≡ span (vma_at (suc j) v)
  pub twice : (j : ℕ) → k < j → n ≤ suc j → span (vma_at j w) ≡ span (vma_at j v)
  pub gone : suc k ≡ n → span (vma_at k w) ≡ (0, 0)

module _ (outside : ℤ → Vma) (n k addr size : ℕ) (s : Space) (laid : Laid n s.vmas)
    (full : AllNonempty n s.vmas) (small : n < max_vmas) (len : length s.vmas ≡ max_vmas)
    (lt : k < n) (starts : pg_round_up addr ≡ (vma_at k s.vmas).addr)
    (whole : (vma_at k s.vmas).len ≤ pg_round_up size) where
  zeroed-Tail : Tail n k (set s.vmas k (zero_mmap_region_struct (vma_at k s.vmas)))
  zeroed-Tail = record {
    used = λ j h i.
        subst (λ (a : Vma). 0 < a.addr) (sym (vma_at-set_ne j k s.vmas _ (omega arith)))
          (laid.positive j i);
    unused = λ j h.
        ap (λ (a : Vma). a.addr) (vma_at-set_ne j k s.vmas _ (omega (arith, h, lt)))
        ∙ laid.clean j h;
  }

  zeroed-Removed : Removed n k s.vmas (
      shift_left outside
        (max_vmas - k)
        k
        (set s.vmas k (zero_mmap_region_struct (vma_at k s.vmas))))
  zeroed-Removed =
      let zeroed = set s.vmas k (zero_mmap_region_struct (vma_at k s.vmas)) in
      let done : Shifted n k zeroed (shift_left outside (max_vmas - k) k zeroed) =
        shift_left-Shifted outside n (max_vmas - k) k zeroed small (length-set s.vmas k _ ∙ len)
          (omega (arith, lt, small)) lt zeroed-Tail in
      record {
        size = done.size ∙ length-set s.vmas k _;
        before = λ j h. done.before j h ∙ ap span (vma_at-set_ne j k s.vmas _ (omega arith));
        moved =
            λ j h i. done.moved j h i ∙ ap span (vma_at-set_ne (suc j) k s.vmas _ (omega arith));
        twice = λ j h i.
            done.behind j (omega arith) i ∙ ap span (vma_at-set_ne j k s.vmas _ (omega arith));
        gone = λ e.
            done.behind k (omega arith) (omega (arith, e))
            ∙ ap span (vma_at-set_self k s.vmas _ (omega (arith, lt, small, len)));
      }

  found : find_vma max_vmas 0 s.vmas (pg_round_up addr) ≡ some k
  found =
      find_vma-some max_vmas 0 k (pg_round_up addr) s.vmas (omega arith) (omega (arith, lt, small))
        (λ j h e.
          let d : suc (j + (k - suc j)) ≡ k = omega (arith, h) in
          let higher = starts_increase n (k - suc j) j s.vmas laid full (omega (arith, d, lt)) in
          absurd (omega (arith, higher, ap (λ i. (vma_at i s.vmas).addr) d, e, starts)))
        (sym starts)

  -- What `remove` leaves of the mappings.
  abbrev Cut : Space → Type 0
  Cut after = (after.total ≡ pos (n - 1)) × Removed n k s.vmas after.vmas

  remove-Cut :
      (t : Space)
      → t.vmas ≡ s.vmas
      → t.total ≡ pos n
      → Cut (remove outside k addr (pg_round_up size) t)
  unfolding remove ◌-ℤ◌
  remove-Cut t same total =
      let fits : leb (vma_at k t.vmas).len (pg_round_up size) ≡ true =
        ap (λ v. leb (vma_at k v).len (pg_round_up size)) same
        ∙ le→leb (vma_at k s.vmas).len (pg_round_up size) whole in
      rw (fits, remove)
        (
          ap (λ x. x -ℤ pos 1) total ∙ minus_one n (omega (arith, lt)),
          subst
              (λ v. Removed n k s.vmas (
                shift_left outside (max_vmas - k) k
                  (set v k (zero_mmap_region_struct (vma_at k v)))))
              (sym same) zeroed-Removed,
        )

  pub umunmap-Removed :
      s.total ≡ pos n
      → ((umunmap outside true addr size s).0 ≡ true)
        × ((umunmap outside true addr size s).1.total ≡ pos (n - 1))
        × Removed n k s.vmas (umunmap outside true addr size s).1.vmas
  unfolding umunmap unmap_at
  umunmap-Removed total =
      let some_byte : ((vma_at k s.vmas).len == 0) ≡ false = ground (arith, full k lt) in
      rw (found, umunmap)
        (rw some_byte (elim (Bool-cases (writes_back (vma_at k s.vmas))) [
          | inl back ↦
              let cut = remove-Cut (write_back (vma_at k s.vmas) s) refl total in
              rw back (refl, cut.0, cut.1)
          | inr keep ↦ let cut = remove-Cut s refl total in rw keep (refl, cut.0, cut.1)
        ]))
