-- ===== src/Mmap/Unmap/Cleared.antt =====
-- clear_maps of p5/xv6-public/sys_mmap.c, when a process exits.
use cs537projects.Base.{
  ℕ, zero, suc, ◌+◌, ◌-◌, ◌<◌, ◌≡◌, refl, ap, ◌∙◌, true, List, [], ◌∷◌, leb, ◌==◌, set, length,
  arith, Bool-cases, inl, inr, Option-cases, ℕ_discrete, ==_iff,
}
use cs537projects.Base.Int.{ℤ, pos, pos_part}
use cs537projects.Mmap.{Vma, vma_at, copy_mmap_struct, pg_round_up, max_vmas, last_vma, end_of}
use cs537projects.Mmap.Layout.{Laid}
use cs537projects.Mmap.Pages.{Space, free_pages, get_physical_page}
use cs537projects.Mmap.Unmap.{
  find_vma, vma_or, shift_left, writes_back, remove, unmap_at, umunmap, clear_from, clear_maps,
}
use cs537projects.Mmap.Unmap.Removed.{Removed, AllNonempty, umunmap-Removed}

-- Without its last mapping a table is in order too.
last-Laid : (k : ℕ) (v w : List Vma) → Laid (suc k) v → Removed (suc k) k v w → Laid k w
last-Laid k v w laid cut =
    let starts : (i : ℕ) → i < k → (vma_at i w).addr ≡ (vma_at i v).addr =
      λ i h. ap (λ (s : ℕ × ℕ). s.0) (cut.before i h) in
    let ends : (i : ℕ) → i < k → end_of (vma_at i w) ≡ end_of (vma_at i v) =
      λ i h. ap (λ (s : ℕ × ℕ). pg_round_up (s.0 + s.1)) (cut.before i h) in
    record {
      room = omega (arith, laid.room, cut.size);
      apart =
          λ i h. omega (arith, laid.apart i (omega arith), ends i (omega arith), starts (suc i) h);
      aligned = λ i h. omega (arith, laid.aligned i (omega arith), starts i h);
      below = λ i h. omega (arith, laid.below i (omega arith), ends i h);
      positive = λ i h. omega (arith, laid.positive i (omega arith), starts i h);
      clean = λ i h. elim (ℕ_discrete i k) [
        | yes e ↦ ap (λ j. (vma_at j w).addr) e ∙ ap (λ (s : ℕ × ℕ). s.0) (cut.gone refl)
        | no ne ↦
            ap (λ (s : ℕ × ℕ). s.0) (cut.twice i (omega arith) (omega arith))
            ∙ laid.clean i (omega arith)
      ];
    }

last-AllNonempty :
    (k : ℕ) (v w : List Vma) → AllNonempty (suc k) v → Removed (suc k) k v w → AllNonempty k w
last-AllNonempty k v w full cut i h =
    omega (arith, full i (omega arith), ap (λ (s : ℕ × ℕ). s.1) (cut.before i h))

-- The reference counts of the entries.
abbrev ref_at : ℕ → List Vma → ℕ
ref_at j v = (vma_at j v).ref_count

ref_at-set :
    (j i : ℕ) (v : List Vma) (x : Vma)
    → x.ref_count ≡ ref_at i v
    → ref_at j (set v i x) ≡ ref_at j v
ref_at-set j i [] x h = refl
ref_at-set zero zero (y ∷ v) x h = h
ref_at-set zero (suc i) (y ∷ v) x h = refl
ref_at-set (suc j) zero (y ∷ v) x h = refl
ref_at-set (suc j) (suc i) (y ∷ v) x h = ref_at-set j i v x h

ref_at-shift_left :
    (outside : ℤ → Vma) (j rounds i : ℕ) (v : List Vma)
    → ref_at j (shift_left outside rounds i v) ≡ ref_at j v
unfolding shift_left
ref_at-shift_left outside j zero i v = refl
ref_at-shift_left outside j (suc rounds) i v =
    let next = vma_or outside (suc i) v in
    let v1 = set v i (copy_mmap_struct (vma_at i v) next) in
    elim (Bool-cases (next.addr == 0)) [
      | inl stop ↦ rw (stop, shift_left) refl
      | inr more ↦
          rw (more, shift_left)
            (ref_at-shift_left outside j rounds (suc i) v1 ∙ ref_at-set j i v _ refl)
    ]

vmas-free_pages : (rounds a : ℕ) (s : Space) → (free_pages rounds a s).vmas ≡ s.vmas
unfolding free_pages
vmas-free_pages zero a s = refl
vmas-free_pages (suc rounds) a s = elim (Option-cases (get_physical_page a s)) [
  | inl unmapped ↦ rw (unmapped, free_pages) (vmas-free_pages rounds (a + 4096) s)
  | inr (frame, e) ↦ rw (e, free_pages) (vmas-free_pages rounds (a + 4096) _)
]

ref_at-remove :
    (outside : ℤ → Vma) (j i addr size : ℕ) (s : Space)
    → ref_at j (remove outside i addr size s).vmas ≡ ref_at j s.vmas
unfolding remove
ref_at-remove outside j i addr size s = elim (Bool-cases (leb (vma_at i s.vmas).len size)) [
  | inl whole ↦
      rw (whole, remove)
        (ref_at-shift_left outside j (max_vmas - i) i _ ∙ ref_at-set j i s.vmas _ refl)
  | inr part ↦ rw (part, remove) (ref_at-set j i s.vmas _ refl)
]

ref_at-umunmap :
    (outside : ℤ → Vma) (j addr size : ℕ) (s : Space)
    → ref_at j (umunmap outside true addr size s).1.vmas ≡ ref_at j s.vmas
unfolding umunmap unmap_at
ref_at-umunmap outside j addr size s =
    elim (Option-cases (find_vma max_vmas 0 s.vmas (pg_round_up addr))) [
      | inl nowhere ↦ rw (nowhere, umunmap) refl
      | inr (i, e) ↦
          rw (e, umunmap)
            (elim (Bool-cases ((vma_at i s.vmas).len == 0)) [
              | inl empty ↦ rw empty refl
              | inr some_byte ↦ rw some_byte (elim (Bool-cases (writes_back (vma_at i s.vmas))) [
                | inl back ↦ rw back (ref_at-remove outside j i addr (pg_round_up size) _)
                | inr keep ↦ rw keep (ref_at-remove outside j i addr (pg_round_up size) s)
              ])
            ])
    ]

-- Nothing is mapped.
abbrev pub NoneLeft : List Vma → Type 0
NoneLeft v = (i : ℕ) → (vma_at i v).addr ≡ 0

clear_from-NoneLeft :
    (outside : ℤ → Vma) (n : ℕ) (s : Space)
    → s.total ≡ pos n
    → Laid n s.vmas
    → AllNonempty n s.vmas
    → n < max_vmas
    → length s.vmas ≡ max_vmas
    → ((j : ℕ) → ref_at j s.vmas ≡ 0)
    → NoneLeft (clear_from outside true n s).vmas
unfolding clear_from
clear_from-NoneLeft outside zero s total laid full small len refs i = laid.clean i (omega arith)
clear_from-NoneLeft outside (suc k) s total laid full small len refs i =
    let last_lem : last_vma outside (record { vmas = s.vmas; total = s.total }) ≡ vma_at k s.vmas =
      ap (λ t. last_vma outside (record { vmas = s.vmas; total = t })) total in
    let last = vma_at k s.vmas in
    let own : (last.ref_count == 0) ≡ true = (==_iff last.ref_count 0).1 (refs k) in
    let after = (umunmap outside true last.addr last.len s).1 in
    let cut =
      umunmap-Removed outside (suc k) k last.addr last.len s laid full small len (omega arith)
        (omega (arith, laid.aligned k (omega arith))) (omega arith) total in
    let rest : (vma_at i (clear_from outside true k after).vmas).addr ≡ 0 =
      clear_from-NoneLeft outside k after (cut.1 ∙ ap pos (omega arith))
        (last-Laid k s.vmas after.vmas laid cut.2) (last-AllNonempty k s.vmas after.vmas full cut.2)
        (omega arith) (cut.2.size ∙ len)
        (λ j. ref_at-umunmap outside j last.addr last.len s ∙ refs j) i in
    rw (last_lem, clear_from) (rw own rest)

-- With fewer than 32 mappings in order and apart, each with a byte and none shared with a parent, with
-- the entries behind them zeroed (Laid), and when every write to a file succeeds, clear_maps leaves no
-- mapping.
pub clear_maps-NoneLeft :
    (outside : ℤ → Vma) (n : ℕ) (s : Space)
    → s.total ≡ pos n
    → Laid n s.vmas
    → AllNonempty n s.vmas
    → n < max_vmas
    → length s.vmas ≡ max_vmas
    → ((j : ℕ) → (vma_at j s.vmas).ref_count ≡ 0)
    → NoneLeft (clear_maps outside true s).vmas × ((clear_maps outside true s).total ≡ pos 0)
unfolding clear_maps
clear_maps-NoneLeft outside n s total laid full small len refs = (
  λ i.
      ap (λ t. (vma_at i (clear_from outside true (pos_part t) s).vmas).addr) total
      ∙ clear_from-NoneLeft outside n s total laid full small len refs i,
  refl,
)
