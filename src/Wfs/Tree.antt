-- ===== src/Wfs/Tree.antt =====
-- A tree of directories and files as the log of p7/mount.wfs.c stores it, and path_to_inode and
-- wfs_readdir at any path of it.
use cs537projects.Base.{
  ℕ, ◌*◌, ◌/◌, ◌<◌, ◌≤◌, ◌≡◌, refl, sym, ap, ◌∙◌, Option, none, some, List, [], ◌∷◌, arith, length,
  take, map, Option-cases, Bool-cases, inl, inr,
}
use cs537projects.CString.{str_eq}
use cs537projects.Wfs.Log.{LogEntry, entry_at, number_to_inode}
use cs537projects.Wfs.Path.{
  Lookup, missing, fault, found, pointer, walk, path_to_inode, child_number, tokens, find_dentry,
  not_minus_one,
}
use cs537projects.Wfs.Ops.{Wfs, Result, crash, done, names_from, wfs_readdir}
use cs537projects.Wfs.Live.{live, pointed}
use cs537projects.Wfs.Lookup.{GoodNames, number_named, take-all}
use cs537projects.Wfs.Listed.{DirBytes, find_dentry-DirBytes, names_from-DirBytes}
use cs537projects.Wfs.Names.{Components, path_of, tokens-slashed, str_eq-path_of}

-- What an inode number stands for: a file, or a directory with its names and their numbers. A
-- number that is not in use counts as a file.
pub data Node : Type 0 where
  file : Node
  directory : List (List ℕ × ℕ) → Node

abbrev pub entries : Node → List (List ℕ × ℕ)
entries file = []
entries (directory ds) = ds

-- The log entry of a directory.
pub record Directory (ds : List (List ℕ × ℕ)) (e : LogEntry) : Type 0 where
  pub names : GoodNames ds
  pub content_of : DirBytes ds e.content
  pub size_of : e.size ≡ 40 * length ds

-- The log entry of a node; a file is too short to be taken for a directory entry.
abbrev pub Stored : Node → LogEntry → Type 0
Stored file e = e.size < 40
Stored (directory ds) e = Directory ds e

-- The log holds the tree: the root is a directory that is live, every name leads to a live entry,
-- and the numbers above the last one given out are free.
pub record Tree (nodes : ℕ → Node) (fs : Wfs) : Type 0 where
  pub root : (e : LogEntry) × (live 0 fs.log ≡ some e)
  pub stored : (n : ℕ) (e : LogEntry) → live n fs.log ≡ some e → Stored (nodes n) e
  pub linked :
      (n m : ℕ) (name : List ℕ)
      → number_named name (entries (nodes n)) ≡ some m
      → (e : LogEntry) × (live m fs.log ≡ some e)
  pub unused : (n : ℕ) → fs.cur_inode_num < n → (nodes n ≡ file) × (live n fs.log ≡ none)

-- The number that the names lead to, from a directory's number on.
abbrev pub follow : (ℕ → Node) → Option ℕ → List (List ℕ) → Option ℕ
follow nodes o [] = o
follow nodes none (name ∷ names) = none
follow nodes (some n) (name ∷ names) = follow nodes (number_named name (entries (nodes n))) names

abbrev pub by_number : List LogEntry → Option ℕ → Lookup
by_number log none = missing
by_number log (some j) = pointer (number_to_inode j log)

pub some_injective {ℓ} : {A : Type ℓ} {a b : A} → some a ≡ some b → a ≡ b
some_injective {a = a} e = ap (λ o. elim o [ none ↦ a | some c ↦ c ]) e

pub live-pointer :
    (n : ℕ) (log : List LogEntry) (e : LogEntry)
    → live n log ≡ some e
    → (i : ℕ) × (number_to_inode n log ≡ some i) × (entry_at i log ≡ e)
unfolding live
live-pointer n log e h = elim (Option-cases (number_to_inode n log)) [
  | inl none_there ↦ absurd (cc (ap (λ o. pointed log o) none_there, h))
  | inr (i, at) ↦ (i, at, some_injective (sym (ap (λ o. pointed log o) at) ∙ h))
]

-- The number in a list of good entries is never the -1 of path_to_inode.
not_minus_one-named :
    (tok : List ℕ) (ds : List (List ℕ × ℕ))
    → GoodNames ds
    → not_minus_one (number_named tok ds) ≡ number_named tok ds
unfolding not_minus_one
not_minus_one-named tok [] good = refl
not_minus_one-named tok ((name, number) ∷ ds) good = elim (Bool-cases (str_eq name tok)) [
  | inl same ↦ rw same (ground (arith, good.0.2))
  | inr other ↦ rw other (not_minus_one-named tok ds good.1)
]

-- The search of one token in a stored node.
searched : LogEntry → List ℕ → Option ℕ
unfolding find_dentry not_minus_one
searched e tok = not_minus_one (find_dentry (e.size / 40) 0 e.content tok)

searched-Stored :
    (node : Node) (e : LogEntry) (tok : List ℕ)
    → Stored node e
    → searched e tok ≡ number_named tok (entries node)
unfolding searched find_dentry not_minus_one
searched-Stored file e tok small =
    let rounds : e.size / 40 ≡ 0 = omega (arith, small) in
    ap (λ n. not_minus_one (find_dentry n 0 e.content tok)) rounds
searched-Stored (directory ds) e tok dir =
    let rounds : e.size / 40 ≡ length ds = omega (arith, dir.size_of) in
    ap (λ n. not_minus_one (find_dentry n 0 e.content tok)) rounds
    ∙ ap not_minus_one (find_dentry-DirBytes 0 [] e.content ds tok refl dir.names dir.content_of)
    ∙ not_minus_one-named tok ds dir.names

child_number-Tree :
    (nodes : ℕ → Node) (fs : Wfs) (n i : ℕ) (e : LogEntry) (tok : List ℕ)
    → Tree nodes fs
    → live n fs.log ≡ some e
    → entry_at i fs.log ≡ e
    → child_number i fs.log tok ≡ number_named tok (entries (nodes n))
unfolding child_number searched
child_number-Tree nodes fs n i e tok tree at_n same =
    ap (λ d. searched d tok) same ∙ searched-Stored (nodes n) e tok (tree.stored n e at_n)

pub follow-none : (nodes : ℕ → Node) (names : List (List ℕ)) → follow nodes none names ≡ none
follow-none nodes [] = refl
follow-none nodes (name ∷ names) = refl

walk-Tree :
    (nodes : ℕ → Node) (fs : Wfs) (names : List (List ℕ)) (n : ℕ) (e : LogEntry)
    → Tree nodes fs
    → live n fs.log ≡ some e
    → walk fs.log (number_to_inode n fs.log) names ≡ by_number fs.log (follow nodes (some n) names)
unfolding walk
walk-Tree nodes fs [] n e tree at_n = refl
walk-Tree nodes fs (name ∷ names) n e tree at_n =
    let (i, at, same) = live-pointer n fs.log e at_n in
    let child = child_number-Tree nodes fs n i e name tree at_n same in
    rw (at, walk)
      (elim (Option-cases (number_named name (entries (nodes n)))) [
        | inl no_child ↦
            rw (child, no_child, walk)
              (sym (ap (λ o. by_number fs.log o) (follow-none nodes names)))
        | inr (m, here) ↦
            let (e', at_m) = tree.linked n m name here in
            rw (child, here, walk) (walk-Tree nodes fs names m e' tree at_m)
      ])

-- In a log that holds a tree, an absolute path of at most 127 bytes, of names that are not empty, leads
-- to the live entry that its names lead to in the tree, and to NULL if they lead nowhere; path_to_inode
-- never reads through NULL.
pub path_to_inode-Tree :
    (nodes : ℕ → Node) (fs : Wfs) (names : List (List ℕ))
    → Tree nodes fs
    → Components names
    → length (path_of names) ≤ 127
    → path_to_inode (path_of names) fs.log ≡ by_number fs.log (follow nodes (some 0) names)
unfolding path_to_inode str_eq walk
path_to_inode-Tree nodes fs [] tree plain short = refl
path_to_inode-Tree nodes fs (name ∷ names) tree plain short =
    let (e, at) = tree.root in
    let toks : tokens (take 127 (path_of (name ∷ names))) ≡ name ∷ names =
      ap tokens (take-all 127 (path_of (name ∷ names)) short)
      ∙ tokens-slashed (name ∷ names) plain in
    rw (str_eq-path_of name names plain.0, path_to_inode)
      (ap (λ ts. walk fs.log (number_to_inode 0 fs.log) ts) toks
        ∙ walk-Tree nodes fs (name ∷ names) 0 e tree at)

-- The names of a tree lead to live entries.
pub follow-live :
    (nodes : ℕ → Node) (fs : Wfs) (names : List (List ℕ)) (n m : ℕ) (e : LogEntry)
    → Tree nodes fs
    → live n fs.log ≡ some e
    → follow nodes (some n) names ≡ some m
    → (e' : LogEntry) × (live m fs.log ≡ some e')
follow-live nodes fs [] n m e tree at_n to =
    (e, ap (λ k. live k fs.log) (sym (some_injective to)) ∙ at_n)
follow-live nodes fs (name ∷ names) n m e tree at_n to =
    elim (Option-cases (number_named name (entries (nodes n)))) [
      | inl no_child ↦
          absurd (cc (ap (λ o. follow nodes o names) no_child, follow-none nodes names, to))
      | inr (k, here) ↦
          let (e', at_k) = tree.linked n k name here in
          follow-live nodes fs names k m e' tree at_k
            (sym (ap (λ o. follow nodes o names) here) ∙ to)
    ]

abbrev pub listed : (ℕ → Node) → Option ℕ → Result (List (List ℕ))
listed nodes none = crash
listed nodes (some n) = done ((b'.' ∷ []) ∷ (b'.' ∷ b'.' ∷ []) ∷ map (λ d. d.0) (entries (nodes n)))

names_from-Stored :
    (node : Node) (e : LogEntry)
    → Stored node e
    → names_from (e.size / 40) 0 e.content ≡ map (λ d. d.0) (entries node)
unfolding names_from
names_from-Stored file e small =
    let rounds : e.size / 40 ≡ 0 = omega (arith, small) in ap (λ n. names_from n 0 e.content) rounds
names_from-Stored (directory ds) e dir =
    let rounds : e.size / 40 ≡ length ds = omega (arith, dir.size_of) in
    ap (λ n. names_from n 0 e.content) rounds
    ∙ names_from-DirBytes 0 [] e.content ds refl dir.names dir.content_of

listing : List LogEntry → Lookup → Result (List (List ℕ))
unfolding names_from
listing log l = elim l [
  | found i ↦ done (
      (b'.' ∷ [])
      ∷ (b'.' ∷ b'.' ∷ [])
      ∷ names_from ((entry_at i log).size / 40) 0 (entry_at i log).content)
  | missing ↦ crash
  | fault ↦ crash
]

-- In a log that holds a tree, wfs_readdir of such a path of at most 127 bytes gives ".", ".." and the
-- names of the directory that it leads to, in their order; it reads through NULL if the path leads
-- nowhere.
pub readdir-Tree :
    (nodes : ℕ → Node) (fs : Wfs) (names : List (List ℕ))
    → Tree nodes fs
    → Components names
    → length (path_of names) ≤ 127
    → wfs_readdir (path_of names) fs ≡ listed nodes (follow nodes (some 0) names)
unfolding wfs_readdir listing names_from
readdir-Tree nodes fs names tree plain short =
    ap (λ l. listing fs.log l) (path_to_inode-Tree nodes fs names tree plain short)
    ∙ elim (Option-cases (follow nodes (some 0) names)) [
      | inl nowhere ↦ rw nowhere refl
      | inr (n, to) ↦
          let (e, at_0) = tree.root in
          let (e', at_n) = follow-live nodes fs names 0 n e tree at_0 to in
          let (i, at, same) = live-pointer n fs.log e' at_n in
          rw (to, at, listing)
            (ap
                (λ (d : LogEntry).
                  done ((b'.' ∷ []) ∷ (b'.' ∷ b'.' ∷ []) ∷ names_from (d.size / 40) 0 d.content))
                same
              ∙ ap (λ l. done ((b'.' ∷ []) ∷ (b'.' ∷ b'.' ∷ []) ∷ l))
                  (names_from-Stored (nodes n) e' (tree.stored n e' at_n)))
    ]
