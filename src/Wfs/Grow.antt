-- ===== src/Wfs/Grow.antt =====
-- mknod, mkdir and write of p7/mount.wfs.c at any path of a tree: the log holds the tree afterwards
-- that the call is meant to make.
use cs537projects.Base.{
  ℕ, ◌+◌, ◌<◌, ◌≤◌, ◌≡◌, refl, sym, ap, ◌∙◌, subst, true, none, some, List, [], ◌∷◌, ◌++◌, arith,
  ◌==◌, ==_iff, if◌then◌else◌, length, length-append, Bool-cases, inl, inr, ◌⊎◌,
}
use cs537projects.CString.{str_eq}
use cs537projects.Wfs.Log.{LogEntry, entry_at, number_to_inode}
use cs537projects.Wfs.Path.{found, pointer, path_to_inode}
use cs537projects.Wfs.Ops.{Wfs, grown_inode}
use cs537projects.Wfs.Live.{live, InLog, last_index-InLog, number_to_inode-last}
use cs537projects.Wfs.Lookup.{GoodName, GoodNames, number_named}
use cs537projects.Wfs.Listed.{DirBytes-append}
use cs537projects.Wfs.Refine.{grown}
use cs537projects.Wfs.Names.{Components, path_of}
use cs537projects.Wfs.Tree.{
  Node, file, directory, entries, Directory, Stored, Tree, follow, by_number, live-pointer,
  follow-live, path_to_inode-Tree, some_injective,
}

-- The tree with a new node under the number, and its name in the directory `n`.
abbrev pub added : (ℕ → Node) → ℕ → List ℕ → ℕ → Node → ℕ → Node
added nodes n name number node m =
    if m == number
    then node
    else (if m == n then directory (entries (nodes n) ++ (name, number) ∷ []) else nodes m)

GoodNames-append :
    (ds : List (List ℕ × ℕ)) (name : List ℕ) (number : ℕ)
    → GoodNames ds
    → GoodName name number
    → GoodNames (ds ++ (name, number) ∷ [])
GoodNames-append [] name number good new = (new, tt)
GoodNames-append ((first, m) ∷ ds) name number good new =
    (good.0, GoodNames-append ds name number good.1 new)

number_named-append :
    (tok : List ℕ) (ds : List (List ℕ × ℕ)) (name : List ℕ) (number m : ℕ)
    → number_named tok (ds ++ (name, number) ∷ []) ≡ some m
    → (number_named tok ds ≡ some m) ⊎ (m ≡ number)
number_named-append tok [] name number m h = elim (Bool-cases (str_eq name tok)) [
  | inl same ↦
      inr (some_injective (sym (subst (λ b. (if b then some number else none) ≡ some m) same h)))
  | inr other ↦ absurd (cc (subst (λ b. (if b then some number else none) ≡ some m) other h))
]
number_named-append tok ((first, k) ∷ ds) name number m h = elim (Bool-cases (str_eq first tok)) [
  | inl same ↦ inl (
      rw same (
        cc (
          subst (λ b. (if b then some k else number_named tok (ds ++ (name, number) ∷ [])) ≡ some m)
            same h)))
  | inr other ↦ rw other (
      number_named-append tok ds name number m (
        subst (λ b. (if b then some k else number_named tok (ds ++ (name, number) ∷ [])) ≡ some m)
          other h))
]

Directory-grown :
    (ds : List (List ℕ × ℕ)) (e : LogEntry) (junk name : List ℕ) (number : ℕ)
    → 32 ≤ length junk
    → GoodName name number
    → Directory ds e
    → Directory (ds ++ (name, number) ∷ []) (grown junk name number e)
unfolding grown_inode
Directory-grown ds e junk name number room good dir = record {
  names = GoodNames-append ds name number dir.names good;
  content_of = DirBytes-append ds e.content junk name number room dir.content_of;
  size_of = omega (arith, dir.size_of, length-append ds ((name, number) ∷ []));
}

-- The names of a tree lead to an entry of the log with the number that they lead to.
pub reached :
    (nodes : ℕ → Node) (fs : Wfs) (names : List (List ℕ)) (n : ℕ)
    → Tree nodes fs
    → Components names
    → length (path_of names) ≤ 127
    → follow nodes (some 0) names ≡ some n
    → (p : ℕ) × (path_to_inode (path_of names) fs.log ≡ found p)
      × (number_to_inode n fs.log ≡ some p)
      × ((entry_at p fs.log).inode_number ≡ n)
      × (live n fs.log ≡ some (entry_at p fs.log))
reached nodes fs names n tree plain short to =
    let (e, at_0) = tree.root in
    let (e', at_n) = follow-live nodes fs names 0 n e tree at_0 to in
    let (p, at, same) = live-pointer n fs.log e' at_n in
    let there : InLog n fs.log (some p) =
      subst (λ o. InLog n fs.log o) (number_to_inode-last n p fs.log at)
        (last_index-InLog n fs.log) in
    (
      p,
      path_to_inode-Tree nodes fs names tree plain short
          ∙ ap (λ o. by_number fs.log o) to
          ∙ ap pointer at,
      at,
      there.1,
      at_n ∙ ap some (sym same),
    )

-- What a node may be when it is made.
abbrev pub Empty : Node → Type 0
Empty node = (node ≡ file) ⊎ (node ≡ directory [])

entries-Empty : (node : Node) → Empty node → entries node ≡ []
entries-Empty node (inl e) = ap entries e
entries-Empty node (inr e) = ap entries e

Stored-Empty :
    (node : Node) (e : LogEntry) → Empty node → e.size ≡ 0 → e.content ≡ [] → Stored node e
Stored-Empty node e (inl is_file) size content =
    subst (λ k. Stored k e) (sym is_file) (omega (arith, size))
Stored-Empty node e (inr is_dir) size content =
    subst (λ k. Stored k e) (sym is_dir)
      (record { names = tt; content_of = content; size_of = size })

-- Of a file system that holds a tree, and one in which the directory `n` has grown by an entry.
module _ (nodes : ℕ → Node) (fs fs' : Wfs) (n : ℕ) (junk name : List ℕ) (node : Node)
    (parent created : LogEntry) (tree : Tree nodes fs) (dir : Directory (entries (nodes n)) parent)
    (at_n : live n fs.log ≡ some parent) (room : 32 ≤ length junk)
    (good : GoodName name (fs.cur_inode_num + 1)) (empty : Empty node) (size : created.size ≡ 0)
    (content : created.content ≡ []) (next : fs'.cur_inode_num ≡ fs.cur_inode_num + 1)
    (after : (m : ℕ)
      → live m fs'.log ≡ (
          if m == fs.cur_inode_num + 1
          then some created
          else (if m == n
              then some (grown junk name (fs.cur_inode_num + 1) parent)
              else live m fs.log))) where
  grown_tree : ℕ → Node
  unfolding str_eq
  grown_tree = added nodes n name (fs.cur_inode_num + 1) node

  still_live :
      (m : ℕ) (e : LogEntry) → live m fs.log ≡ some e → (e' : LogEntry) × (live m fs'.log ≡ some e')
  still_live m e at_m = elim (Bool-cases (m == fs.cur_inode_num + 1)) [
    | inl new ↦ (created, rw (after m, new) refl)
    | inr old ↦ elim (Bool-cases (m == n)) [
      | inl same ↦ (grown junk name (fs.cur_inode_num + 1) parent, rw (after m, old, same) refl)
      | inr other ↦ (e, rw (after m, old, other) at_m)
    ]
  ]

  still-Stored : (m : ℕ) (e : LogEntry) → live m fs'.log ≡ some e → Stored (grown_tree m) e
  unfolding grown_tree
  still-Stored m e at_m = elim (Bool-cases (m == fs.cur_inode_num + 1)) [
    | inl new ↦
        let is_new : created ≡ e = some_injective (sym (rw (after m, new) refl) ∙ at_m) in
        rw new (subst (λ d. Stored node d) is_new (Stored-Empty node created empty size content))
    | inr old ↦ elim (Bool-cases (m == n)) [
      | inl same ↦
          let is_grown : grown junk name (fs.cur_inode_num + 1) parent ≡ e =
            some_injective (sym (rw (after m, old, same) refl) ∙ at_m) in
          rw (old, same)
            (subst (λ d. Directory (entries (nodes n) ++ (name, fs.cur_inode_num + 1) ∷ []) d)
              is_grown
              (Directory-grown (entries (nodes n)) parent junk name (fs.cur_inode_num + 1) room good
                dir))
      | inr other ↦ rw (old, other) (tree.stored m e (sym (rw (after m, old, other) refl) ∙ at_m))
    ]
  ]

  new_live : (e : LogEntry) × (live (fs.cur_inode_num + 1) fs'.log ≡ some e)
  new_live =
      let new : ((fs.cur_inode_num + 1) == (fs.cur_inode_num + 1)) ≡ true =
        (==_iff (fs.cur_inode_num + 1) (fs.cur_inode_num + 1)).1 refl in
      (created, rw (after (fs.cur_inode_num + 1), new) refl)

  still_linked :
      (a m : ℕ) (tok : List ℕ)
      → number_named tok (entries (grown_tree a)) ≡ some m
      → (e : LogEntry) × (live m fs'.log ≡ some e)
  unfolding grown_tree
  still_linked a m tok h = elim (Bool-cases (a == fs.cur_inode_num + 1)) [
    | inl new ↦
        let nothing : entries (grown_tree a) ≡ [] = rw new (entries-Empty node empty) in
        absurd (cc (ap (λ ds. number_named tok ds) nothing, h))
    | inr old ↦ elim (Bool-cases (a == n)) [
      | inl same ↦
          let more : entries (grown_tree a)
              ≡ entries (nodes n) ++ (name, fs.cur_inode_num + 1) ∷ [] =
            rw (old, same) refl in
          elim (number_named-append tok (entries (nodes n)) name (fs.cur_inode_num + 1) m
            (sym (ap (λ ds. number_named tok ds) more) ∙ h)) [
              | inl before ↦ let (e, at_m) = tree.linked n m tok before in still_live m e at_m
              | inr is_new ↦
                  subst (λ k. (e : LogEntry) × (live k fs'.log ≡ some e)) (sym is_new) new_live
            ]
      | inr other ↦
          let unchanged : entries (grown_tree a) ≡ entries (nodes a) = rw (old, other) refl in
          let (e, at_m) =
            tree.linked a m tok (sym (ap (λ ds. number_named tok ds) unchanged) ∙ h) in
          still_live m e at_m
    ]
  ]

  still_unused : (m : ℕ) → fs'.cur_inode_num < m → (grown_tree m ≡ file) × (live m fs'.log ≡ none)
  unfolding grown_tree
  still_unused m above =
      let (is_file, not_live) = tree.unused m (omega (arith, next, above)) in
      elim (Bool-cases (m == fs.cur_inode_num + 1)) [
        | inl new ↦ absurd (omega (arith, (==_iff m (fs.cur_inode_num + 1)).0 new, next, above))
        | inr old ↦ elim (Bool-cases (m == n)) [
          | inl same ↦ absurd (cc (ap (λ k. live k fs.log) ((==_iff m n).0 same), not_live, at_n))
          | inr other ↦ (rw (old, other) is_file, rw (after m, old, other) not_live)
        ]
      ]

  pub grown-Tree : Tree (added nodes n name (fs.cur_inode_num + 1) node) fs'
  unfolding grown_tree
  grown-Tree =
      let (e, at_0) = tree.root in
      record {
        root = still_live 0 e at_0;
        stored = still-Stored;
        linked = still_linked;
        unused = still_unused;
      }
