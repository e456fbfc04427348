-- ===== src/Wfs/Invariant.antt =====
-- Sequences of the operations of p7/mount.wfs.c on a fresh disk, and what each does to the live
-- entries.
use cs537projects.Base.{
  ℕ, zero, suc, ◌+◌, ◌/◌, ◌^◌, ◌<◌, ◌≤◌, ◌≡◌, refl, sym, ap, ◌∙◌, subst, List, [], ◌∷◌, ◌++◌, arith,
  length, take, drop, inl, inr, ◌⊎◌, length-append, length-take, length-drop,
}
use cs537projects.Wfs.Log.{
  LogEntry, entry_at, delete_at, log_bytes, sizeof_inode, sizeof_sb, sizeof_dentry,
}
use cs537projects.Wfs.Path.{Lookup, found, missing, fault, path_to_inode, le_bytes}
use cs537projects.Wfs.Ops.{
  Wfs, Caller, Result, crash, enoent, done, make_node, make_in, grown_inode, dentry_bytes, new_node,
  wfs_write, write_in, written_size, memory_at, mkfs,
}

-- The state of the file system after any calls; reads change nothing. A block of malloc has room
-- for a directory entry, a write is shorter than 2^32.
pub data Reach (dirname basename : List ℕ → List ℕ) : Wfs → Type 0 where
  fresh : (c : Caller) → Reach dirname basename (mkfs c)
  make :
      {fs fs' : Wfs} (mode : ℕ) (c : Caller) (junk path : List ℕ)
      → Reach dirname basename fs
      → 32 ≤ length junk
      → make_node dirname basename mode c junk path fs ≡ done fs'
      → Reach dirname basename fs'
  write :
      {fs fs' : Wfs} (c : Caller) (path : List ℕ) (buffer : ℕ → ℕ) (size offset n : ℕ)
      → Reach dirname basename fs
      → size < 2 ^ 32
      → wfs_write c path buffer size offset fs ≡ done (n, fs')
      → Reach dirname basename fs'

-- Every entry has as many bytes as its size says, and a number that was given out.
abbrev pub EntriesOk : ℕ → List LogEntry → Type 0
EntriesOk cur [] = Unit {0}
EntriesOk cur (e ∷ es) = (e.size ≡ length e.content) × (e.inode_number ≤ cur) × EntriesOk cur es

pub record LogOk (fs : Wfs) : Type 0 where
  pub entries : EntriesOk fs.cur_inode_num fs.log
  pub at_head : fs.head ≡ sizeof_sb + log_bytes fs.log

EntriesOk-append :
    (cur : ℕ) (xs : List LogEntry) (e : LogEntry)
    → EntriesOk cur xs
    → e.size ≡ length e.content
    → e.inode_number ≤ cur
    → EntriesOk cur (xs ++ e ∷ [])
EntriesOk-append cur [] e h s n = (s, n, tt)
EntriesOk-append cur (x ∷ xs) e h s n = (h.0, h.1, EntriesOk-append cur xs e h.2 s n)

EntriesOk-delete_at :
    (cur i : ℕ) (xs : List LogEntry) → EntriesOk cur xs → EntriesOk cur (delete_at i xs)
EntriesOk-delete_at cur i [] h = tt
EntriesOk-delete_at cur zero (x ∷ xs) h = h
EntriesOk-delete_at cur (suc i) (x ∷ xs) h = (h.0, h.1, EntriesOk-delete_at cur i xs h.2)

EntriesOk-mono :
    (cur cur' : ℕ) (xs : List LogEntry) → cur ≤ cur' → EntriesOk cur xs → EntriesOk cur' xs
EntriesOk-mono cur cur' [] le h = tt
EntriesOk-mono cur cur' (x ∷ xs) le h = (h.0, omega (arith, h.1), EntriesOk-mono cur cur' xs le h.2)

pub EntriesOk-entry_at :
    (cur i : ℕ) (xs : List LogEntry)
    → EntriesOk cur xs
    → ((entry_at i xs).size ≡ length (entry_at i xs).content) × ((entry_at i xs).inode_number ≤ cur)
EntriesOk-entry_at cur i [] h = (refl, omega arith)
EntriesOk-entry_at cur zero (x ∷ xs) h = (h.0, h.1)
EntriesOk-entry_at cur (suc i) (x ∷ xs) h = EntriesOk-entry_at cur i xs h.2

log_bytes-append :
    (xs : List LogEntry) (e : LogEntry)
    → log_bytes (xs ++ e ∷ []) ≡ log_bytes xs + (sizeof_inode + e.size)
log_bytes-append [] e = omega arith
log_bytes-append (x ∷ xs) e = omega (arith, log_bytes-append xs e)

log_bytes-delete_at : (i : ℕ) (xs : List LogEntry) → log_bytes (delete_at i xs) ≡ log_bytes xs
log_bytes-delete_at i [] = refl
log_bytes-delete_at zero (x ∷ xs) = refl
log_bytes-delete_at (suc i) (x ∷ xs) = omega (arith, log_bytes-delete_at i xs)

length-le_bytes : (n x : ℕ) → length (le_bytes n x) ≡ n
unfolding le_bytes
length-le_bytes zero x = refl
length-le_bytes (suc n) x = ap suc (length-le_bytes n (x / 256))

length-dentry_bytes :
    (junk name : List ℕ) (number : ℕ)
    → 32 ≤ length junk
    → length (dentry_bytes junk name number) ≡ sizeof_dentry
unfolding dentry_bytes
length-dentry_bytes junk name number h =
    let block = take 32 junk ++ le_bytes 8 number in
    let written = name ++ 0 ∷ [] in
    omega (
      arith,
      length-take sizeof_dentry (written ++ drop (length written) block),
      length-append written (drop (length written) block),
      length-drop (length written) block,
      length-append (take 32 junk) (le_bytes 8 number),
      length-take 32 junk,
      length-le_bytes 8 number,
      h,
    )

length-memory_at : (mem : ℕ → ℕ) (i n : ℕ) → length (memory_at mem i n) ≡ n
length-memory_at mem i zero = refl
length-memory_at mem i (suc n) = ap suc (length-memory_at mem (suc i) n)

written_size_le : (size offset : ℕ) → written_size size offset ≤ size
unfolding written_size
written_size_le size offset = ground arith

make_in-LogOk :
    (mode : ℕ) (c : Caller) (junk name : List ℕ) (p : ℕ) (fs : Wfs)
    → 32 ≤ length junk
    → LogOk fs
    → LogOk (make_in mode c junk name p fs)
unfolding make_in grown_inode new_node
make_in-LogOk mode c junk name p fs room ok =
    let parent = entry_at p fs.log in
    let old = EntriesOk-entry_at fs.cur_inode_num p fs.log ok.entries in
    let number = fs.cur_inode_num + 1 in
    let new_parent : LogEntry = record {
      inode = grown_inode parent.inode;
      content = parent.content ++ dentry_bytes junk name number;
    } in
    let created : LogEntry = record { inode = new_node mode c number; content = [] } in
    record {
      entries =
          EntriesOk-append number (delete_at p fs.log ++ new_parent ∷ []) created
            (EntriesOk-append number (delete_at p fs.log) new_parent
              (EntriesOk-mono fs.cur_inode_num number (delete_at p fs.log) (omega arith)
                (EntriesOk-delete_at fs.cur_inode_num p fs.log ok.entries))
              (omega (
                arith,
                old.0,
                length-append parent.content (dentry_bytes junk name number),
                length-dentry_bytes junk name number room,
              ))
              (omega (arith, old.1)))
            refl (omega arith);
      at_head = omega (
        arith,
        ok.at_head,
        log_bytes-append (delete_at p fs.log ++ new_parent ∷ []) created,
        log_bytes-append (delete_at p fs.log) new_parent,
        log_bytes-delete_at p fs.log,
      );
    }

write_in-LogOk :
    (c : Caller) (buffer : ℕ → ℕ) (size offset i : ℕ) (fs : Wfs)
    → size < 2 ^ 32
    → LogOk fs
    → LogOk (write_in c buffer size offset i fs).1
unfolding write_in
write_in-LogOk c buffer size offset i fs small ok =
    let old = EntriesOk-entry_at fs.cur_inode_num i fs.log ok.entries in
    record {
      entries =
          EntriesOk-append fs.cur_inode_num (delete_at i fs.log) _
            (EntriesOk-delete_at fs.cur_inode_num i fs.log ok.entries)
            (omega (
              arith,
              length-memory_at buffer offset (written_size size offset),
              written_size_le size offset,
              small,
            ))
            old.1;
      at_head = omega (
        arith,
        ok.at_head,
        log_bytes-append (delete_at i fs.log) _,
        log_bytes-delete_at i fs.log,
      );
    }

-- To split on what a path leads to.
pub Lookup-cases : (l : Lookup) → ((i : ℕ) × (l ≡ found i)) ⊎ ((l ≡ missing) ⊎ (l ≡ fault))
Lookup-cases (found i) = inl (i, refl)
Lookup-cases missing = inr (inl refl)
Lookup-cases fault = inr (inr refl)

done_or {ℓ} : {A : Type ℓ} → A → Result A → A
done_or a crash = a
done_or a enoent = a
done_or a (done b) = b

pub done_injective {ℓ} : {A : Type ℓ} {a b : A} → done a ≡ done b → a ≡ b
unfolding done_or
done_injective {a = a} e = ap (λ r. done_or a r) e

-- The bodies of the two calls, by what the path leads to.
abbrev pub make_at : ℕ → Caller → List ℕ → List ℕ → Wfs → Lookup → Result Wfs
make_at mode c junk name fs l = elim l [
  | found p ↦ done (make_in mode c junk name p fs)
  | missing ↦ crash
  | fault ↦ crash
]

abbrev pub write_at : Caller → (ℕ → ℕ) → ℕ → ℕ → Wfs → Lookup → Result (ℕ × Wfs)
write_at c buffer size offset fs l = elim l [
  | found i ↦ done (write_in c buffer size offset i fs)
  | missing ↦ crash
  | fault ↦ crash
]

-- After any calls on a fresh disk that return, every entry of the log holds as many bytes as its
-- inode says and has a number that was given out, and `head` is where the last entry ends.
pub Reach-LogOk :
    (dirname basename : List ℕ → List ℕ) (fs : Wfs) → Reach dirname basename fs → LogOk fs
unfolding make_node wfs_write mkfs
Reach-LogOk dirname basename fs (fresh c) = record {
  entries = (refl, omega arith, tt);
  at_head = refl;
}
Reach-LogOk dirname basename fs (make {fs = before} mode c junk path reach room e) =
    let ok = Reach-LogOk dirname basename before reach in
    elim (Lookup-cases (path_to_inode (dirname path) before.log)) [
      | inl (p, at) ↦
          subst LogOk
            (done_injective (sym (ap (λ l. make_at mode c junk (basename path) before l) at) ∙ e))
            (make_in-LogOk mode c junk (basename path) p before room ok)
      | inr (inl at) ↦ absurd (cc (ap (λ l. make_at mode c junk (basename path) before l) at, e))
      | inr (inr at) ↦ absurd (cc (ap (λ l. make_at mode c junk (basename path) before l) at, e))
    ]
Reach-LogOk dirname basename fs (write {fs = before} c path buffer size offset n reach small e) =
    let ok = Reach-LogOk dirname basename before reach in
    elim (Lookup-cases (path_to_inode path before.log)) [
      | inl (p, at) ↦
          subst LogOk
            (ap (λ (r : ℕ × Wfs). r.1)
              (done_injective (sym (ap (λ l. write_at c buffer size offset before l) at) ∙ e)))
            (write_in-LogOk c buffer size offset p before small ok)
      | inr (inl at) ↦ absurd (cc (ap (λ l. write_at c buffer size offset before l) at, e))
      | inr (inr at) ↦ absurd (cc (ap (λ l. write_at c buffer size offset before l) at, e))
    ]
