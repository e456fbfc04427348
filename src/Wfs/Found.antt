-- ===== src/Wfs/Found.antt =====
-- A node that mknod or mkdir of p7/mount.wfs.c has made is found through its path, and every other
-- path leads where it led.
use cs537projects.Base.{
  ℕ, ◌+◌, ◌≤◌, ◌≡◌, refl, sym, ap, ◌∙◌, subst, true, false, none, some, List, [], ◌∷◌, ◌++◌, arith,
  ◌==◌, ==_iff, if◌then◌else◌, length, Option-cases, Bool-cases, inl, inr,
}
use cs537projects.CString.{str_eq}
use cs537projects.Wfs.Log.{entry_at}
use cs537projects.Wfs.Path.{found, path_to_inode}
use cs537projects.Wfs.Ops.{Wfs, Caller, done, make_node, new_node}
use cs537projects.Wfs.Lookup.{number_named}
use cs537projects.Wfs.Refine.{make_node-live}
use cs537projects.Wfs.Names.{Component, Components, path_of}
use cs537projects.Wfs.Tree.{
  Node, file, directory, entries, Tree, follow, follow-none, some_injective,
}
use cs537projects.Wfs.Grow.{added, reached}
use cs537projects.Wfs.Made.{Makeable, make_node-Tree}

-- A name that the directory holds keeps its number; a new name gets the new one.
number_named-kept :
    (tok : List ℕ) (ds : List (List ℕ × ℕ)) (name : List ℕ) (number m : ℕ)
    → number_named tok ds ≡ some m
    → number_named tok (ds ++ (name, number) ∷ []) ≡ some m
number_named-kept tok [] name number m h = absurd (cc h)
number_named-kept tok ((first, k) ∷ ds) name number m h = elim (Bool-cases (str_eq first tok)) [
  | inl same ↦ rw same (subst (λ b. (if b then some k else number_named tok ds) ≡ some m) same h)
  | inr other ↦ rw other (
      number_named-kept tok ds name number m
        (subst (λ b. (if b then some k else number_named tok ds) ≡ some m) other h))
]

str_eq_same : (s : List ℕ) → str_eq s s ≡ true
unfolding str_eq
str_eq_same [] = refl
str_eq_same (c ∷ s) = rw ((==_iff c c).1 refl) (str_eq_same s)

number_named-new :
    (ds : List (List ℕ × ℕ)) (name : List ℕ) (number : ℕ)
    → number_named name ds ≡ none
    → number_named name (ds ++ (name, number) ∷ []) ≡ some number
number_named-new [] name number h = rw (str_eq_same name) refl
number_named-new ((first, k) ∷ ds) name number h = elim (Bool-cases (str_eq first name)) [
  | inl same ↦ absurd (cc (subst (λ b. (if b then some k else number_named name ds) ≡ none) same h))
  | inr other ↦ rw other (
      number_named-new ds name number
        (subst (λ b. (if b then some k else number_named name ds) ≡ none) other h))
]

module _ (nodes : ℕ → Node) (fs : Wfs) (n : ℕ) (name : List ℕ) (ds : List (List ℕ × ℕ))
    (node : Node) (tree : Tree nodes fs) (is_dir : nodes n ≡ directory ds) where
  abbrev grown_nodes : ℕ → Node
  grown_nodes = added nodes n name (fs.cur_inode_num + 1) node

  -- A number that has entries was given out.
  entries-kept :
      (a m : ℕ) (tok : List ℕ)
      → number_named tok (entries (nodes a)) ≡ some m
      → number_named tok (entries (grown_nodes a)) ≡ some m
  entries-kept a m tok h = elim (Bool-cases (a == fs.cur_inode_num + 1)) [
    | inl new ↦
        let (is_file, not_live) =
          tree.unused a (omega (arith, (==_iff a (fs.cur_inode_num + 1)).0 new)) in
        absurd (cc (ap (λ k. number_named tok (entries k)) is_file, h))
    | inr old ↦ elim (Bool-cases (a == n)) [
      | inl same ↦
          let of_n : number_named tok (entries (nodes n)) ≡ some m =
            subst (λ k. number_named tok (entries (nodes k)) ≡ some m) ((==_iff a n).0 same) h in
          rw (old, same)
            (number_named-kept tok (entries (nodes n)) name (fs.cur_inode_num + 1) m of_n)
      | inr other ↦ rw (old, other) h
    ]
  ]

  follow-kept :
      (names : List (List ℕ)) (a m : ℕ)
      → follow nodes (some a) names ≡ some m
      → follow grown_nodes (some a) names ≡ some m
  follow-kept [] a m h = h
  follow-kept (tok ∷ names) a m h = elim (Option-cases (number_named tok (entries (nodes a)))) [
    | inl nothing ↦ absurd (cc (ap (λ o. follow nodes o names) nothing, follow-none nodes names, h))
    | inr (k, at) ↦
        ap (λ o. follow grown_nodes o names) (entries-kept a k tok at)
        ∙ follow-kept names k m (sym (ap (λ o. follow nodes o names) at) ∙ h)
  ]

follow-append :
    (nodes : ℕ → Node) (names : List (List ℕ)) (name : List ℕ) (a n : ℕ)
    → follow nodes (some a) names ≡ some n
    → follow nodes (some a) (names ++ name ∷ []) ≡ number_named name (entries (nodes n))
follow-append nodes [] name a n h =
    ap (λ k. number_named name (entries (nodes k))) (some_injective h)
follow-append nodes (tok ∷ names) name a n h =
    elim (Option-cases (number_named tok (entries (nodes a)))) [
      | inl nothing ↦
          absurd (cc (ap (λ o. follow nodes o names) nothing, follow-none nodes names, h))
      | inr (k, at) ↦
          ap (λ o. follow nodes o (names ++ name ∷ [])) at
          ∙ follow-append nodes names name k n (sym (ap (λ o. follow nodes o names) at) ∙ h)
    ]

Components-append :
    (names : List (List ℕ)) (name : List ℕ)
    → Components names
    → Component name
    → Components (names ++ name ∷ [])
Components-append [] name h one = (one, tt)
Components-append (first ∷ names) name h one = (h.0, Components-append names name h.1 one)

-- The names of the new node lead to the new number.
follow-new :
    (nodes : ℕ → Node) (fs : Wfs) (names : List (List ℕ)) (n : ℕ) (name : List ℕ)
    (ds : List (List ℕ × ℕ)) (node : Node)
    → Tree nodes fs
    → nodes n ≡ directory ds
    → follow nodes (some 0) names ≡ some n
    → number_named name ds ≡ none
    → (n == fs.cur_inode_num + 1) ≡ false
    → follow (added nodes n name (fs.cur_inode_num + 1) node) (some 0) (names ++ name ∷ [])
      ≡ some (fs.cur_inode_num + 1)
follow-new nodes fs names n name ds node tree is_dir leads free old =
    let grown = added nodes n name (fs.cur_inode_num + 1) node in
    let same : (n == n) ≡ true = (==_iff n n).1 refl in
    let of_n : entries (grown n) ≡ entries (nodes n) ++ (name, fs.cur_inode_num + 1) ∷ [] =
      rw (old, same) refl in
    follow-append grown names name 0 n
      (follow-kept nodes fs n name ds node tree is_dir names 0 n leads)
    ∙ ap (λ l. number_named name l) of_n
    ∙ number_named-new (entries (nodes n)) name (fs.cur_inode_num + 1)
        (ap (λ k. number_named name (entries k)) is_dir ∙ free)

-- In a log that holds a tree, under the same conditions on the path (Makeable), when the directory does
-- not hold the name, which has no '/' and is not empty, and the whole path has at most 127 bytes: mknod
-- and mkdir return, and afterwards the path with that name leads to the new node, an entry with the
-- mode and the owner of the call, the next inode number and no bytes.
pub make_node-found :
    (dirname basename : List ℕ → List ℕ) (mode : ℕ) (c : Caller) (junk path : List ℕ) (fs : Wfs)
    (nodes : ℕ → Node) (names : List (List ℕ)) (n : ℕ) (ds : List (List ℕ × ℕ))
    → Makeable nodes fs (dirname path) (basename path) junk names n ds
    → number_named (basename path) ds ≡ none
    → Component (basename path)
    → length (path_of (names ++ basename path ∷ [])) ≤ 127
    → (fs' : Wfs) × (i : ℕ) × (make_node dirname basename mode c junk path fs ≡ done fs')
      × (path_to_inode (path_of (names ++ basename path ∷ [])) fs'.log ≡ found i)
      × (entry_at i fs'.log
          ≡ record { inode = new_node mode c (fs.cur_inode_num + 1); content = [] })
make_node-found dirname basename mode c junk path fs nodes names n ds able free plain short =
    let (p, to, at_n, of_n, live_n) =
      reached nodes fs names n able.tree able.plain able.short able.leads in
    let (fs', made, tree') =
      make_node-Tree dirname basename mode c junk path fs nodes names n ds file able (inl refl) in
    let number = fs.cur_inode_num + 1 in
    let old : (n == number) ≡ false = elim (Bool-cases (n == number)) [
      | inl same ↦
          absurd (cc ((able.tree.unused n (omega (arith, (==_iff n number).0 same))).1, live_n))
      | inr other ↦ other
    ] in
    let (i, at, of_number, numbered, live_number) =
      reached (added nodes n (basename path) number file) fs' (names ++ basename path ∷ []) number
        tree' (Components-append names (basename path) able.plain plain) short
        (follow-new nodes fs names n (basename path) ds file able.tree able.is_dir able.leads free
          old) in
    let (q, to_q, after) = make_node-live dirname basename mode c junk path fs fs' made in
    let new : (number == number) ≡ true = (==_iff number number).1 refl in
    (fs', i, made, at, some_injective (sym live_number ∙ after number ∙ rw new refl))

-- In a log that holds a tree, under the same conditions on the path (Makeable), whether the name was
-- there before or not: mknod and mkdir return, and an absolute path of at most 127 bytes, of names that
-- are not empty, that led to a number in the tree leads to an entry with this number afterwards.
pub make_node-kept :
    (dirname basename : List ℕ → List ℕ) (mode : ℕ) (c : Caller) (junk path : List ℕ) (fs : Wfs)
    (nodes : ℕ → Node) (names : List (List ℕ)) (n : ℕ) (ds : List (List ℕ × ℕ))
    (others : List (List ℕ)) (m : ℕ)
    → Makeable nodes fs (dirname path) (basename path) junk names n ds
    → Components others
    → length (path_of others) ≤ 127
    → follow nodes (some 0) others ≡ some m
    → (fs' : Wfs) × (i : ℕ) × (make_node dirname basename mode c junk path fs ≡ done fs')
      × (path_to_inode (path_of others) fs'.log ≡ found i)
      × ((entry_at i fs'.log).inode_number ≡ m)
make_node-kept dirname basename mode c junk path fs nodes names n ds others m able plain short to =
    let (fs', made, tree') =
      make_node-Tree dirname basename mode c junk path fs nodes names n ds file able (inl refl) in
    let (i, at, of_m, numbered, live_m) =
      reached (added nodes n (basename path) (fs.cur_inode_num + 1) file) fs' others m tree' plain
        short
        (follow-kept nodes fs n (basename path) ds file able.tree able.is_dir others 0 m to) in
    (fs', i, made, at, numbered)
