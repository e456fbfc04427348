-- ===== src/Mmap/Slots.antt =====
-- Where the entries of `vmas` stand after the shifts of setup_mmap_arr.
use cs537projects.Base.{
  ℕ, zero, suc, ◌-◌, ◌<◌, ◌≤◌, ◌≡◌, refl, ◌≢◌, ap, ◌∙◌, List, [], ◌∷◌, arith, set, length,
  length-set, ℕ_discrete,
}
use cs537projects.Mmap.{Vma, vma_at, copy_at, shift_right, copy_mmap_struct}

pub vma_at-set_self : (j : ℕ) (v : List Vma) (x : Vma) → j < length v → vma_at j (set v j x) ≡ x
vma_at-set_self j [] x h = absurd (omega arith)
vma_at-set_self zero (y ∷ v) x h = refl
vma_at-set_self (suc j) (y ∷ v) x h = vma_at-set_self j v x (omega arith)

pub vma_at-set_ne : (i j : ℕ) (v : List Vma) (x : Vma) → i ≢ j → vma_at i (set v j x) ≡ vma_at i v
vma_at-set_ne i j [] x h = refl
vma_at-set_ne zero zero (y ∷ v) x h = absurd (h refl)
vma_at-set_ne zero (suc j) (y ∷ v) x h = refl
vma_at-set_ne (suc i) zero (y ∷ v) x h = refl
vma_at-set_ne (suc i) (suc j) (y ∷ v) x h = vma_at-set_ne i j v x (λ e. h (ap suc e))

pub length-shift_right : (r j : ℕ) (v : List Vma) → length (shift_right r j v) ≡ length v
unfolding shift_right
length-shift_right zero j v = refl
length-shift_right (suc r) j v =
    length-shift_right r (j - 1) (copy_at j (j - 1) v)
    ∙ length-set v j (copy_mmap_struct (vma_at j v) (vma_at (j - 1) v))

-- What a mapping covers.
abbrev pub span : Vma → ℕ × ℕ
span v = (v.addr, v.len)

span-copy_self :
    (j k : ℕ) (v : List Vma) → j < length v → span (vma_at j (copy_at j k v)) ≡ span (vma_at k v)
span-copy_self j k v h =
    ap span (vma_at-set_self j v (copy_mmap_struct (vma_at j v) (vma_at k v)) h)

span-copy_ne :
    (i j k : ℕ) (v : List Vma) → i ≢ j → span (vma_at i (copy_at j k v)) ≡ span (vma_at i v)
span-copy_ne i j k v h =
    ap span (vma_at-set_ne i j v (copy_mmap_struct (vma_at j v) (vma_at k v)) h)

-- The entries below the shift and above it stay.
pub span-shift_below :
    (r j i : ℕ) (v : List Vma)
    → r ≤ j
    → j < length v
    → i ≤ j - r
    → span (vma_at i (shift_right r j v)) ≡ span (vma_at i v)
unfolding shift_right
span-shift_below zero j i v h len lo = refl
span-shift_below (suc r) j i v h len lo =
    span-shift_below r (j - 1) i (copy_at j (j - 1) v) (omega arith)
      (omega (arith, length-set v j (copy_mmap_struct (vma_at j v) (vma_at (j - 1) v))))
      (omega arith)
    ∙ span-copy_ne i j (j - 1) v (omega arith)

pub span-shift_above :
    (r j i : ℕ) (v : List Vma)
    → r ≤ j
    → j < length v
    → j < i
    → span (vma_at i (shift_right r j v)) ≡ span (vma_at i v)
unfolding shift_right
span-shift_above zero j i v h len hi = refl
span-shift_above (suc r) j i v h len hi =
    span-shift_above r (j - 1) i (copy_at j (j - 1) v) (omega arith)
      (omega (arith, length-set v j (copy_mmap_struct (vma_at j v) (vma_at (j - 1) v))))
      (omega arith)
    ∙ span-copy_ne i j (j - 1) v (omega arith)

-- In between, each entry is the one that stood before it.
pub span-shift_in :
    (r j i : ℕ) (v : List Vma)
    → r ≤ j
    → j < length v
    → j - r < i
    → i ≤ j
    → span (vma_at i (shift_right r j v)) ≡ span (vma_at (i - 1) v)
unfolding shift_right
span-shift_in zero j i v h len lo hi = absurd (omega arith)
span-shift_in (suc r) j i v h len lo hi =
    let v1 : List Vma = copy_at j (j - 1) v in
    let len1 : j - 1 < length v1 =
      omega (arith, length-set v j (copy_mmap_struct (vma_at j v) (vma_at (j - 1) v))) in
    elim (ℕ_discrete i j) [
      | yes e ↦
          span-shift_above r (j - 1) i v1 (omega arith) len1 (omega arith)
          ∙ rw e (span-copy_self j (j - 1) v len)
      | no ne ↦
          span-shift_in r (j - 1) i v1 (omega arith) len1 (omega arith) (omega arith)
          ∙ span-copy_ne (i - 1) j (j - 1) v (omega arith)
    ]
