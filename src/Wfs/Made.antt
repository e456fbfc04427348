-- ===== src/Wfs/Made.antt =====
-- What mkfs, mknod, mkdir and write of p7/mount.wfs.c do to the tree of a log, and the way back to a
-- new node through its path.
use cs537projects.Base.{
  ℕ, ◌+◌, ◌<◌, ◌≤◌, ◌≡◌, refl, sym, ap, ◌∙◌, subst, false, none, some, List, [], arith, ◌==◌,
  ==_iff, if◌then◌else◌, length, Bool-cases, inl, inr,
}
use cs537projects.Wfs.Log.{LogEntry, entry_at, number_to_inode}
use cs537projects.Wfs.Path.{path_to_inode}
use cs537projects.Wfs.Ops.{
  Wfs, Caller, done, make_node, make_in, new_node, wfs_write, write_in, written_size, mkfs,
}
use cs537projects.Wfs.Live.{live, live-append}
use cs537projects.Wfs.Lookup.{GoodName, number_named}
use cs537projects.Wfs.Invariant.{make_at, write_at}
use cs537projects.Wfs.Refine.{make_in-live, write_in-live, if_swap, grown, overwritten}
use cs537projects.Wfs.Names.{Components, path_of}
use cs537projects.Wfs.Tree.{
  Node, file, directory, entries, Directory, Stored, Tree, follow, some_injective,
}
use cs537projects.Wfs.Grow.{added, Empty, reached, grown-Tree}

-- The tree of a fresh disk.
abbrev pub root_only : ℕ → Node
root_only m = if m == 0 then directory [] else file

abbrev root_entry : Caller → LogEntry
unfolding mkfs
root_entry c = entry_at 0 (mkfs c).log

mkfs-live :
    (c : Caller) (m : ℕ) → live m (mkfs c).log ≡ (if m == 0 then some (root_entry c) else none)
unfolding mkfs number_to_inode root_entry live
mkfs-live c m = live-append m [] (root_entry c) ∙ if_swap 0 m (some (root_entry c)) none

root_only-nothing : (n : ℕ) (name : List ℕ) → number_named name (entries (root_only n)) ≡ none
root_only-nothing n name = elim (Bool-cases (n == 0)) [
  | inl is_root ↦ rw is_root refl
  | inr other ↦ rw other refl
]

-- mkfs makes a disk that holds the tree of an empty root.
pub mkfs-Tree : (c : Caller) → Tree root_only (mkfs c)
unfolding mkfs root_entry
mkfs-Tree c = record {
  root = (root_entry c, mkfs-live c 0);
  stored = λ n e h. elim (Bool-cases (n == 0)) [
    | inl is_root ↦
        let same : root_entry c ≡ e = some_injective (sym (mkfs-live c n ∙ rw is_root refl) ∙ h) in
        rw is_root (
          subst (λ d. Directory [] d) same
            (record { names = tt; content_of = refl; size_of = refl }))
    | inr other ↦
        let nowhere : live n (mkfs c).log ≡ none = mkfs-live c n ∙ rw other refl in
        absurd (cc (nowhere, h))
  ];
  linked = λ n m name h. absurd (cc (root_only-nothing n name, h));
  unused = λ n h.
      let other : (n == 0) ≡ false = ground (arith, h) in
      (rw other refl, mkfs-live c n ∙ rw other refl);
}

-- mknod and mkdir below the directory that the names lead to.
pub make_in-Tree :
    (mode : ℕ) (c : Caller) (junk name : List ℕ) (p : ℕ) (fs : Wfs) (nodes : ℕ → Node) (n : ℕ)
    (ds : List (List ℕ × ℕ)) (node : Node)
    → Tree nodes fs
    → nodes n ≡ directory ds
    → number_to_inode n fs.log ≡ some p
    → (entry_at p fs.log).inode_number ≡ n
    → live n fs.log ≡ some (entry_at p fs.log)
    → GoodName name (fs.cur_inode_num + 1)
    → 32 ≤ length junk
    → Empty node
    → Tree (added nodes n name (fs.cur_inode_num + 1) node) (make_in mode c junk name p fs)
unfolding new_node make_in
make_in-Tree mode c junk name p fs nodes n ds node tree is_dir at_n of_n live_n good room empty =
    let dir : Stored (directory ds) (entry_at p fs.log) =
      subst (λ k. Stored k (entry_at p fs.log)) is_dir (tree.stored n (entry_at p fs.log) live_n) in
    let same : ds ≡ entries (nodes n) = ap entries (sym is_dir) in
    grown-Tree nodes fs (make_in mode c junk name p fs) n junk name node (entry_at p fs.log)
      (record { inode = new_node mode c (fs.cur_inode_num + 1); content = [] }) tree
      (subst (λ l. Directory l (entry_at p fs.log)) same dir) live_n room good empty refl refl refl
      (λ m.
        subst
          (λ k. live m (make_in mode c junk name p fs).log ≡ (
            if m == fs.cur_inode_num + 1
            then some (record { inode = new_node mode c (fs.cur_inode_num + 1); content = [] })
            else (if m == k
                then some (grown junk name (fs.cur_inode_num + 1) (entry_at p fs.log))
                else live m fs.log)))
          of_n
          (make_in-live mode c junk name p fs m (ap (λ k. number_to_inode k fs.log) of_n ∙ at_n)))

-- The hypotheses of a mknod or mkdir at a path whose directory part is a directory of the tree.
pub record Makeable (nodes : ℕ → Node) (fs : Wfs) (dirname_path basename_path junk : List ℕ)
    (names : List (List ℕ)) (n : ℕ) (ds : List (List ℕ × ℕ)) : Type 0 where
  pub tree : Tree nodes fs
  pub at : dirname_path ≡ path_of names
  pub plain : Components names
  pub short : length (path_of names) ≤ 127
  pub leads : follow nodes (some 0) names ≡ some n
  pub is_dir : nodes n ≡ directory ds
  pub good : GoodName basename_path (fs.cur_inode_num + 1)
  pub room : 32 ≤ length junk

-- In a log that holds a tree, when the directory part of the path, of at most 127 bytes, leads to a
-- directory, the last part is shorter than 32 bytes and has no NUL, numbers stay below 2^32 - 1 and
-- malloc gives 32 bytes (Makeable): mknod and mkdir return, and the log then holds the tree with the
-- name in that directory and an empty node under the next number.
pub make_node-Tree :
    (dirname basename : List ℕ → List ℕ) (mode : ℕ) (c : Caller) (junk path : List ℕ) (fs : Wfs)
    (nodes : ℕ → Node) (names : List (List ℕ)) (n : ℕ) (ds : List (List ℕ × ℕ)) (node : Node)
    → Makeable nodes fs (dirname path) (basename path) junk names n ds
    → Empty node
    → (fs' : Wfs) × (make_node dirname basename mode c junk path fs ≡ done fs')
      × Tree (added nodes n (basename path) (fs.cur_inode_num + 1) node) fs'
unfolding make_node
make_node-Tree dirname basename mode c junk path fs nodes names n ds node able empty =
    let (p, to, at_n, of_n, live_n) =
      reached nodes fs names n able.tree able.plain able.short able.leads in
    (
      make_in mode c junk (basename path) p fs,
      ap (λ l. make_at mode c junk (basename path) fs l)
          (ap (λ d. path_to_inode d fs.log) able.at ∙ to),
      make_in-Tree mode c junk (basename path) p fs nodes n ds node able.tree able.is_dir at_n of_n
          live_n able.good able.room empty,
    )

written :
    (c : Caller) (buffer : ℕ → ℕ) (size offset i : ℕ) (fs : Wfs)
    → done (write_in c buffer size offset i fs)
      ≡ done (written_size size offset, (write_in c buffer size offset i fs).1)
unfolding write_in
written c buffer size offset i fs = refl

small_write : (size offset : ℕ) → offset ≤ 8 → written_size size offset < 40
unfolding written_size
small_write size offset early = ground (arith, early)

write_in-Tree :
    (c : Caller) (buffer : ℕ → ℕ) (size offset p : ℕ) (fs : Wfs) (nodes : ℕ → Node) (n : ℕ)
    → Tree nodes fs
    → nodes n ≡ file
    → offset ≤ 8
    → number_to_inode n fs.log ≡ some p
    → (entry_at p fs.log).inode_number ≡ n
    → live n fs.log ≡ some (entry_at p fs.log)
    → Tree nodes (write_in c buffer size offset p fs).1
unfolding write_in
write_in-Tree c buffer size offset p fs nodes n tree is_file early at_n of_n live_n =
    let fs' = (write_in c buffer size offset p fs).1 in
    let old = entry_at p fs.log in
    let new = overwritten c buffer size offset old in
    let after : (m : ℕ) → live m fs'.log ≡ (if m == n then some new else live m fs.log) = λ m.
      subst (λ k. live m fs'.log ≡ (if m == k then some new else live m fs.log)) of_n
        (write_in-live c buffer size offset p fs m
          (ap (λ k. number_to_inode k fs.log) of_n ∙ at_n)) in
    let kept : (m : ℕ) (e : LogEntry)
        → live m fs.log ≡ some e
        → (e' : LogEntry) × (live m fs'.log ≡ some e') =
      λ m e h. elim (Bool-cases (m == n)) [
        | inl same ↦ (new, after m ∙ rw same refl)
        | inr other ↦ (e, after m ∙ rw other h)
      ] in
    let (e, at_0) = tree.root in
    record {
      root = kept 0 e at_0;
      stored = λ m d h. elim (Bool-cases (m == n)) [
        | inl same ↦
            let is_new : new ≡ d = some_injective (sym (after m ∙ rw same refl) ∙ h) in
            let still_file : file ≡ nodes m = sym (ap nodes ((==_iff m n).0 same) ∙ is_file) in
            subst (λ k. Stored k d) still_file
              (omega (arith, ap (λ (x : LogEntry). x.size) is_new, small_write size offset early))
        | inr other ↦
            let before : live m fs.log ≡ some d = sym (after m ∙ rw other refl) ∙ h in
            tree.stored m d before
      ];
      linked = λ a m name h. let (d, at_m) = tree.linked a m name h in kept m d at_m;
      unused = λ m above.
          let (none_made, not_live) = tree.unused m above in
          elim (Bool-cases (m == n)) [
            | inl same ↦
                absurd (cc (ap (λ k. live k fs.log) ((==_iff m n).0 same), not_live, live_n))
            | inr other ↦ (none_made, after m ∙ rw other not_live)
          ];
    }

-- In a log that holds a tree, a write at an absolute path of at most 127 bytes, of names that are not
-- empty and that lead to a file of the tree, from an offset in the first 8 bytes, returns the truncated
-- size; the log then holds the same tree.
pub write-Tree :
    (c : Caller) (buffer : ℕ → ℕ) (size offset : ℕ) (fs : Wfs) (nodes : ℕ → Node)
    (names : List (List ℕ)) (n : ℕ)
    → Tree nodes fs
    → Components names
    → length (path_of names) ≤ 127
    → follow nodes (some 0) names ≡ some n
    → nodes n ≡ file
    → offset ≤ 8
    → (fs' : Wfs) × (wfs_write c (path_of names) buffer size offset fs
        ≡ done (written_size size offset, fs'))
      × Tree nodes fs'
unfolding wfs_write
write-Tree c buffer size offset fs nodes names n tree plain short leads is_file early =
    let (p, to, at_n, of_n, live_n) = reached nodes fs names n tree plain short leads in
    (
      (write_in c buffer size offset p fs).1,
      ap (λ l. write_at c buffer size offset fs l) to ∙ written c buffer size offset p fs,
      write_in-Tree c buffer size offset p fs nodes n tree is_file early at_n of_n live_n,
    )
