-- ===== src/Wfs/Refine.antt =====
-- The file system as a map from inode numbers to live entries: what mknod, mkdir and write of
-- p7/mount.wfs.c do to it.
use cs537projects.Base.{
  ℕ, ◌+◌, ◌%◌, ◌^◌, ◌≡◌, refl, sym, ap, ◌∙◌, subst, some, List, [], ◌∷◌, ◌++◌, arith, ◌==◌,
  if◌then◌else◌, take, Option-cases, Bool-cases, inl, inr,
}
use cs537projects.CString.{str_eq}
use cs537projects.Wfs.Log.{LogEntry, entry_at, number_to_inode, delete_at}
use cs537projects.Wfs.Path.{
  Lookup, found, missing, fault, pointer, walk, path_to_inode, child_number, tokens,
}
use cs537projects.Wfs.Ops.{
  Wfs, Caller, done, make_node, make_in, grown_inode, dentry_bytes, new_node, wfs_write, write_in,
  written_size, memory_at,
}
use cs537projects.Wfs.Live.{
  live, InLog, last_index-InLog, number_to_inode-last, live-append, live-replace,
}
use cs537projects.Wfs.Invariant.{Lookup-cases, done_injective, make_at, write_at}

-- A pointer that a path leads to is the one of its inode number.
abbrev Numbered : List LogEntry → Lookup → Type 0
Numbered log (found i) = number_to_inode (entry_at i log).inode_number log ≡ some i
Numbered log missing = Unit {0}
Numbered log fault = Unit {0}

pointer-Numbered : (n : ℕ) (log : List LogEntry) → Numbered log (pointer (number_to_inode n log))
pointer-Numbered n log = elim (Option-cases (number_to_inode n log)) [
  | inl none_there ↦ rw none_there tt
  | inr (i, at) ↦
      let there : InLog n log (some i) =
        subst (λ o. InLog n log o) (number_to_inode-last n i log at) (last_index-InLog n log) in
      rw at (ap (λ k. number_to_inode k log) there.1 ∙ at)
]

walk-Numbered :
    (n : ℕ) (log : List LogEntry) (toks : List (List ℕ))
    → Numbered log (walk log (number_to_inode n log) toks)
unfolding walk
walk-Numbered n log [] = pointer-Numbered n log
walk-Numbered n log (tok ∷ toks) = elim (Option-cases (number_to_inode n log)) [
  | inl none_there ↦ rw none_there tt
  | inr (i, at) ↦ rw at (elim (Option-cases (child_number i log tok)) [
    | inl no_child ↦ rw (no_child, walk) tt
    | inr (j, child) ↦ rw (child, walk) (walk-Numbered j log toks)
  ])
]

path_to_inode-Numbered :
    (path : List ℕ) (log : List LogEntry) → Numbered log (path_to_inode path log)
unfolding path_to_inode
path_to_inode-Numbered path log = elim (Bool-cases (str_eq path (b'/' ∷ []))) [
  | inl root ↦ rw root (pointer-Numbered 0 log)
  | inr other ↦ rw other (walk-Numbered 0 log (tokens (take 127 path)))
]

path-number :
    (path : List ℕ) (log : List LogEntry) (i : ℕ)
    → path_to_inode path log ≡ found i
    → number_to_inode (entry_at i log).inode_number log ≡ some i
path-number path log i at = subst (λ l. Numbered log l) at (path_to_inode-Numbered path log)

-- The entry that a write makes from the old one.
abbrev pub overwritten : Caller → (ℕ → ℕ) → ℕ → ℕ → LogEntry → LogEntry
overwritten c buffer size offset old =
    let size' = written_size size offset in
    record {
      inode = record old.inode {
        deleted = 0;
        size = size' % 2 ^ 32;
        atime = c.now;
        mtime = c.now;
        ctime = c.now;
      };
      content = memory_at buffer offset size';
    }

-- The entry of a directory with one more name.
abbrev pub grown : List ℕ → List ℕ → ℕ → LogEntry → LogEntry
grown junk name number old = record {
  inode = grown_inode old.inode;
  content = old.content ++ dentry_bytes junk name number;
}

-- The log after a write to the entry at `i`.
pub write_in-live :
    (c : Caller) (buffer : ℕ → ℕ) (size offset i : ℕ) (fs : Wfs) (m : ℕ)
    → number_to_inode (entry_at i fs.log).inode_number fs.log ≡ some i
    → live m (write_in c buffer size offset i fs).1.log ≡ (
        if m == (entry_at i fs.log).inode_number
        then some (overwritten c buffer size offset (entry_at i fs.log))
        else live m fs.log)
unfolding write_in
write_in-live c buffer size offset i fs m at =
    live-replace m (entry_at i fs.log).inode_number i fs.log
      (overwritten c buffer size offset (entry_at i fs.log)) at refl refl

-- A write that returns found an entry through its path; it returns the truncated size, makes the
-- entry with the new bytes the live one of the same inode number, and changes no other number.
pub write-live :
    (c : Caller) (path : List ℕ) (buffer : ℕ → ℕ) (size offset n : ℕ) (fs fs' : Wfs)
    → wfs_write c path buffer size offset fs ≡ done (n, fs')
    → (i : ℕ) × (path_to_inode path fs.log ≡ found i)
      × (n ≡ written_size size offset)
      × ((m : ℕ)
          → live m fs'.log ≡ (
              if m == (entry_at i fs.log).inode_number
              then some (overwritten c buffer size offset (entry_at i fs.log))
              else live m fs.log))
unfolding wfs_write write_in
write-live c path buffer size offset n fs fs' e = elim (Lookup-cases (path_to_inode path fs.log)) [
  | inl (i, at) ↦
      let result = done_injective (sym (ap (λ l. write_at c buffer size offset fs l) at) ∙ e) in
      (
        i,
        at,
        sym (ap (λ (r : ℕ × Wfs). r.0) result),
        λ m.
            ap (λ (r : ℕ × Wfs). live m r.1.log) (sym result)
            ∙ write_in-live c buffer size offset i fs m (path-number path fs.log i at),
      )
  | inr (inl at) ↦ absurd (cc (ap (λ l. write_at c buffer size offset fs l) at, e))
  | inr (inr at) ↦ absurd (cc (ap (λ l. write_at c buffer size offset fs l) at, e))
]

pub if_swap {ℓ} :
    {A : Type ℓ} (a b : ℕ) (x y : A) → (if a == b then x else y) ≡ (if b == a then x else y)
if_swap a b x y = ground arith

-- The log after a new entry went into the directory at `p`.
pub make_in-live :
    (mode : ℕ) (c : Caller) (junk name : List ℕ) (p : ℕ) (fs : Wfs) (m : ℕ)
    → number_to_inode (entry_at p fs.log).inode_number fs.log ≡ some p
    → live m (make_in mode c junk name p fs).log ≡ (
        if m == fs.cur_inode_num + 1
        then some (record { inode = new_node mode c (fs.cur_inode_num + 1); content = [] })
        else (if m == (entry_at p fs.log).inode_number
            then some (grown junk name (fs.cur_inode_num + 1) (entry_at p fs.log))
            else live m fs.log))
unfolding make_in new_node grown_inode
make_in-live mode c junk name p fs m at =
    let number = fs.cur_inode_num + 1 in
    let parent = entry_at p fs.log in
    let new_parent = grown junk name number parent in
    let created : LogEntry = record { inode = new_node mode c number; content = [] } in
    live-append m (delete_at p fs.log ++ new_parent ∷ []) created
    ∙ if_swap number m _ _
    ∙ ap (λ o. if m == number then some created else o)
        (live-replace m parent.inode_number p fs.log new_parent at refl refl)

-- A mknod or mkdir that returns found an entry for the
-- directory part of the path; afterwards the next inode number has an empty live entry, the
-- directory's number the entry with the name appended, and no other number is changed.
pub make_node-live :
    (dirname basename : List ℕ → List ℕ) (mode : ℕ) (c : Caller) (junk path : List ℕ) (fs fs' : Wfs)
    → make_node dirname basename mode c junk path fs ≡ done fs'
    → (p : ℕ) × (path_to_inode (dirname path) fs.log ≡ found p)
      × ((m : ℕ)
          → live m fs'.log ≡ (
              if m == fs.cur_inode_num + 1
              then some (record { inode = new_node mode c (fs.cur_inode_num + 1); content = [] })
              else (if m == (entry_at p fs.log).inode_number
                  then some (grown junk (basename path) (fs.cur_inode_num + 1) (entry_at p fs.log))
                  else live m fs.log)))
unfolding make_node
make_node-live dirname basename mode c junk path fs fs' e =
    elim (Lookup-cases (path_to_inode (dirname path) fs.log)) [
      | inl (p, at) ↦
          let result =
            done_injective (sym (ap (λ l. make_at mode c junk (basename path) fs l) at) ∙ e) in
          (
            p,
            at,
            λ m.
                ap (λ (r : Wfs). live m r.log) (sym result)
                ∙ make_in-live mode c junk (basename path) p fs m
                    (path-number (dirname path) fs.log p at),
          )
      | inr (inl at) ↦ absurd (cc (ap (λ l. make_at mode c junk (basename path) fs l) at, e))
      | inr (inr at) ↦ absurd (cc (ap (λ l. make_at mode c junk (basename path) fs l) at, e))
    ]
