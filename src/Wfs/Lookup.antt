-- ===== src/Wfs/Lookup.antt =====
-- Directories of p7/mount.wfs.c are read back as they were written: readdir lists the names, and
-- the loop of path_to_inode finds the number of the first entry with the name.
use cs537projects.Base.{
  ℕ, zero, suc, ◌+◌, ◌-◌, ◌*◌, ◌/◌, ◌%◌, ◌^◌, ◌<◌, ◌≤◌, ◌≡◌, refl, sym, ap, ◌∙◌, false, Option,
  none, some, List, [], ◌∷◌, ◌++◌, arith, ◌==◌, if◌then◌else◌, length, take, drop, length-append,
  length-take, length-drop, append_assoc,
}
use cs537projects.CString.{str_eq, c_string}
use cs537projects.Wfs.Path.{le_bytes, le_value, dentry_name, dentry_inode}
use cs537projects.Wfs.Ops.{dentry_bytes}

-- `x` is below 256 ^ n.
abbrev FitsIn : ℕ → ℕ → Type 0
FitsIn zero x = x ≡ 0
FitsIn (suc n) x = FitsIn n (x / 256)

le_value-le_bytes : (n x : ℕ) → FitsIn n x → le_value (le_bytes n x) ≡ x
unfolding le_value le_bytes
le_value-le_bytes zero x h = sym h
le_value-le_bytes (suc n) x h = omega (arith, le_value-le_bytes n (x / 256) h)

module _ {ℓ} {A : Type ℓ} where
  pub take-all : (n : ℕ) (xs : List A) → length xs ≤ n → take n xs ≡ xs
  take-all zero [] h = refl
  take-all zero (x ∷ xs) h = absurd (omega arith)
  take-all (suc n) [] h = refl
  take-all (suc n) (x ∷ xs) h = ap (◌∷◌ x) (take-all n xs (omega arith))

  take-append : (n : ℕ) (xs ys : List A) → length xs ≡ n → take n (xs ++ ys) ≡ xs
  take-append zero [] ys h = refl
  take-append zero (x ∷ xs) ys h = absurd (omega arith)
  take-append (suc n) [] ys h = absurd (omega arith)
  take-append (suc n) (x ∷ xs) ys h = ap (◌∷◌ x) (take-append n xs ys (omega arith))

  drop-append : (n : ℕ) (xs ys : List A) → length xs ≡ n → drop n (xs ++ ys) ≡ ys
  drop-append zero [] ys h = refl
  drop-append zero (x ∷ xs) ys h = absurd (omega arith)
  drop-append (suc n) [] ys h = absurd (omega arith)
  drop-append (suc n) (x ∷ xs) ys h = drop-append n xs ys (omega arith)

  drop-append_le : (n : ℕ) (xs ys : List A) → n ≤ length xs → drop n (xs ++ ys) ≡ drop n xs ++ ys
  drop-append_le zero xs ys h = refl
  drop-append_le (suc n) [] ys h = absurd (omega arith)
  drop-append_le (suc n) (x ∷ xs) ys h = drop-append_le n xs ys (omega arith)

module _ {ℓ} {A : Type ℓ} where
  drop-append_more :
      (n k : ℕ) (xs ys : List A) → length xs ≡ n → drop (n + k) (xs ++ ys) ≡ drop k ys
  drop-append_more n k [] ys h = let e : n + k ≡ k = omega (arith, h) in ap (λ j. drop j ys) e
  drop-append_more n k (x ∷ xs) ys h =
      let e : n + k ≡ suc (length xs + k) = omega (arith, h) in
      ap (λ j. drop j (x ∷ xs ++ ys)) e ∙ drop-append_more (length xs) k xs ys refl

-- No NUL in a name.
abbrev pub NoNul : List ℕ → Type 0
NoNul [] = Unit {0}
NoNul (c ∷ s) = ((c == 0) ≡ false) × NoNul s

c_string-NoNul : (s rest : List ℕ) → NoNul s → c_string (s ++ 0 ∷ rest) ≡ s
unfolding c_string
c_string-NoNul [] rest h = refl
c_string-NoNul (c ∷ s) rest h = rw h.0 (ap (◌∷◌ c) (c_string-NoNul s rest h.1))

abbrev pub GoodName : List ℕ → ℕ → Type 0
GoodName name number = (length name < 32) × NoNul name × (number < 2 ^ 32 - 1)

abbrev pub GoodNames : List (List ℕ × ℕ) → Type 0
GoodNames [] = Unit {0}
GoodNames ((name, number) ∷ ds) = GoodName name number × GoodNames ds

-- The number of the first entry with the name.
abbrev pub number_named : List ℕ → List (List ℕ × ℕ) → Option ℕ
number_named tok [] = none
number_named tok ((name, number) ∷ ds) =
    if str_eq name tok then some number else number_named tok ds

-- The 32 bytes of the name.
abbrev name_field : List ℕ → List ℕ → List ℕ
name_field junk name = (name ++ 0 ∷ []) ++ drop (length (name ++ 0 ∷ [])) (take 32 junk)

module _ (junk : List ℕ) (room : 32 ≤ length junk) where
  length-name_field : (name : List ℕ) → length name < 32 → length (name_field junk name) ≡ 32
  length-name_field name h =
      let written = name ++ 0 ∷ [] in
      omega (
        arith,
        length-append written (drop (length written) (take 32 junk)),
        length-drop (length written) (take 32 junk),
        length-take 32 junk,
        length-append name (0 ∷ []),
        room,
        h,
      )

  length-le_bytes_8 : (number : ℕ) → length (le_bytes 8 number) ≡ 8
  unfolding le_bytes
  length-le_bytes_8 number = refl

  dentry_bytes_lem :
      (name : List ℕ) (number : ℕ)
      → length name < 32
      → dentry_bytes junk name number ≡ name_field junk name ++ le_bytes 8 number
  unfolding dentry_bytes
  dentry_bytes_lem name number h =
      let written = name ++ 0 ∷ [] in
      let field = take 32 junk in
      let parts : written ++ drop (length written) (field ++ le_bytes 8 number)
          ≡ name_field junk name ++ le_bytes 8 number =
        ap (◌++◌ written) (
          drop-append_le (length written) field (le_bytes 8 number)
            (omega (arith, length-append name (0 ∷ []), length-take 32 junk, room, h)))
        ∙ sym (append_assoc written (drop (length written) field) (le_bytes 8 number)) in
      ap (take 40) parts
      ∙ take-all 40 (name_field junk name ++ le_bytes 8 number) (
          omega (
            arith,
            length-append (name_field junk name) (le_bytes 8 number),
            length-name_field name h,
            length-le_bytes_8 number,
          ))

  name_of :
      (name : List ℕ) (number : ℕ) (rest : List ℕ)
      → GoodName name number
      → c_string (dentry_bytes junk name number ++ rest) ≡ name
  name_of name number rest good =
      let written = name ++ 0 ∷ [] in
      let tail = drop (length written) (take 32 junk) in
      ap (λ s. c_string (s ++ rest)) (dentry_bytes_lem name number good.0)
      ∙ ap c_string (
          append_assoc (written ++ tail) (le_bytes 8 number) rest
          ∙ append_assoc written tail (le_bytes 8 number ++ rest)
          ∙ append_assoc name (0 ∷ []) (tail ++ (le_bytes 8 number ++ rest)))
      ∙ c_string-NoNul name (tail ++ (le_bytes 8 number ++ rest)) good.1

  number_of :
      (name : List ℕ) (number : ℕ) (rest : List ℕ)
      → GoodName name number
      → le_value (take 8 (drop 32 (dentry_bytes junk name number ++ rest))) % 2 ^ 32 ≡ number
  number_of name number rest good =
      ap (λ s. le_value (take 8 (drop 32 s)) % 2 ^ 32)
        (ap (λ s. s ++ rest) (dentry_bytes_lem name number good.0)
          ∙ append_assoc (name_field junk name) (le_bytes 8 number) rest)
      ∙ ap (λ s. le_value (take 8 s) % 2 ^ 32)
          (drop-append 32 (name_field junk name) (le_bytes 8 number ++ rest)
            (length-name_field name good.0))
      ∙ ap (λ s. le_value s % 2 ^ 32)
          (take-append 8 (le_bytes 8 number) rest (length-le_bytes_8 number))
      ∙ ap (λ x. x % 2 ^ 32) (le_value-le_bytes 8 number (omega (arith, good.2)))
      ∙ omega (arith, good.2)

  pub length-dentry :
      (name : List ℕ) (number : ℕ) → length name < 32 → length (dentry_bytes junk name number) ≡ 40
  length-dentry name number h =
      ap length (dentry_bytes_lem name number h)
      ∙ omega (
        arith,
        length-append (name_field junk name) (le_bytes 8 number),
        length-name_field name h,
        length-le_bytes_8 number,
      )

  pub dentry_name-dir :
      (i : ℕ) (before name : List ℕ) (number : ℕ) (rest : List ℕ)
      → length before ≡ 40 * i
      → GoodName name number
      → dentry_name i (before ++ (dentry_bytes junk name number ++ rest)) ≡ name
  unfolding dentry_name
  dentry_name-dir i before name number rest at good =
      ap c_string (drop-append (40 * i) before (dentry_bytes junk name number ++ rest) at)
      ∙ name_of name number rest good

  pub dentry_inode-dir :
      (i : ℕ) (before name : List ℕ) (number : ℕ) (rest : List ℕ)
      → length before ≡ 40 * i
      → GoodName name number
      → dentry_inode i (before ++ (dentry_bytes junk name number ++ rest)) ≡ number
  unfolding dentry_inode
  dentry_inode-dir i before name number rest at good =
      ap (λ s. le_value (take 8 s) % 2 ^ 32)
        (drop-append_more (40 * i) 32 before (dentry_bytes junk name number ++ rest) at)
      ∙ number_of name number rest good
