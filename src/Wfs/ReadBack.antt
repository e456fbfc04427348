-- ===== src/Wfs/ReadBack.antt =====
-- What wfs_read gives back after wfs_write in p7/mount.wfs.c.
use cs537projects.Base.{
  ℕ, zero, suc, ◌+◌, ◌-◌, ◌%◌, ◌^◌, ◌<◌, ◌≤◌, ◌≡◌, refl, sym, subst, length, ap, ap₂, ◌∙◌, false,
  some, List, ◌∷◌, arith, ◌==◌, ltb, if◌then◌else◌, take, min,
}
use cs537projects.Wfs.Log.{LogEntry, entry_at}
use cs537projects.Wfs.Path.{Lookup, found, missing, fault}
use cs537projects.Wfs.Ops.{
  Wfs, Caller, Result, done, enoent, crash, wfs_write, wfs_read, written_size, memory_at, Read,
  inside, read_at,
}
use cs537projects.Wfs.Live.{live}
use cs537projects.Wfs.Refine.{write-live, overwritten}
use cs537projects.Wfs.Names.{Components, path_of}
use cs537projects.Wfs.Tree.{Node, file, Tree, follow, some_injective}
use cs537projects.Wfs.Grow.{reached}
use cs537projects.Wfs.Made.{write-Tree}

written_size-start : (size : ℕ) → written_size size 0 ≡ min size 8
unfolding written_size
written_size-start size = ground arith

take-memory_at : (mem : ℕ → ℕ) (i n k : ℕ) → n ≤ k → take k (memory_at mem i n) ≡ memory_at mem i n
take-memory_at mem i zero zero h = refl
take-memory_at mem i zero (suc k) h = refl
take-memory_at mem i (suc n) zero h = absurd (omega arith)
take-memory_at mem i (suc n) (suc k) h =
    ap (◌∷◌ (mem i)) (take-memory_at mem (suc i) n k (omega arith))

read_at-start :
    (e : LogEntry) (mem : ℕ → ℕ) (n k : ℕ)
    → e.size ≡ n
    → e.content ≡ memory_at mem 0 n
    → n < 2 ^ 64
    → n ≤ k
    → read_at e k 0 ≡ inside (memory_at mem 0 n)
unfolding read_at
read_at-start e mem n k size content small enough =
    let low : ltb e.size 0 ≡ false = ground arith in
    let count : (if ltb ((e.size + 2 ^ 64 - 0) % 2 ^ 64) k
          then (e.size + 2 ^ 64 - 0) % 2 ^ 64
          else k)
        ≡ n =
      ground (arith, size, small, enough) in
    rw low (
      ap₂ (λ j s. inside (take j s)) count content
      ∙ ap inside (take-memory_at mem 0 n n (omega arith)))

if_same {ℓ} : {A : Type ℓ} (a : ℕ) (x y : A) → (if a == a then x else y) ≡ x
if_same a x y = ground arith

abbrev reading : ℕ → ℕ → List LogEntry → Lookup → Result Read
reading k offset log l = elim l [
  | found i ↦ done (read_at (entry_at i log) k offset)
  | missing ↦ enoent
  | fault ↦ crash
]

found_injective : {i j : ℕ} → found i ≡ found j → i ≡ j
found_injective e = cc

-- What is live under the number `m` after a write to the file `n` of the tree.
written_file :
    (c : Caller) (buffer : ℕ → ℕ) (size offset : ℕ) (fs fs' : Wfs) (nodes : ℕ → Node)
    (names : List (List ℕ)) (n m : ℕ)
    → Tree nodes fs
    → Components names
    → length (path_of names) ≤ 127
    → follow nodes (some 0) names ≡ some n
    → wfs_write c (path_of names) buffer size offset fs ≡ done (written_size size offset, fs')
    → (old : LogEntry) × (live m fs'.log
        ≡ (if m == n then some (overwritten c buffer size offset old) else live m fs.log))
written_file c buffer size offset fs fs' nodes names n m tree plain short to wrote =
    let (i, at, count, lives) =
      write-live c (path_of names) buffer size offset (written_size size offset) fs fs' wrote in
    let (p, to_p, at_n, of_n, live_n) = reached nodes fs names n tree plain short to in
    let number : (entry_at i fs.log).inode_number ≡ n =
      ap (λ j. (entry_at j fs.log).inode_number) (found_injective (sym at ∙ to_p)) ∙ of_n in
    (
      entry_at i fs.log,
      subst
          (λ k. live m fs'.log ≡ (
            if m == k
            then some (overwritten c buffer size offset (entry_at i fs.log))
            else live m fs.log))
          number (lives m),
    )

-- In a log that holds a tree, a write from the start of a file at an absolute path of at most 127
-- bytes, of names that are not empty, returns the size cut down to 8; a read of at least as many bytes
-- from the start at that path then gives the first bytes of the buffer, 8 at most, and nothing else.
pub write-read :
    (c : Caller) (buffer : ℕ → ℕ) (size k : ℕ) (fs : Wfs) (nodes : ℕ → Node) (names : List (List ℕ))
    (n : ℕ)
    → Tree nodes fs
    → Components names
    → length (path_of names) ≤ 127
    → follow nodes (some 0) names ≡ some n
    → nodes n ≡ file
    → min size 8 ≤ k
    → (fs' : Wfs) × (wfs_write c (path_of names) buffer size 0 fs ≡ done (min size 8, fs'))
      × (wfs_read (path_of names) k 0 fs' ≡ done (inside (memory_at buffer 0 (min size 8))))
unfolding wfs_read
write-read c buffer size k fs nodes names n tree plain short to is_file enough =
    let (fs', wrote, tree') =
      write-Tree c buffer size 0 fs nodes names n tree plain short to is_file (omega arith) in
    let (old, after) =
      written_file c buffer size 0 fs fs' nodes names n n tree plain short to wrote in
    let (q, to_q, at_q, of_q, live_q) = reached nodes fs' names n tree' plain short to in
    let new = overwritten c buffer size 0 old in
    let is_new : entry_at q fs'.log ≡ new = some_injective (sym live_q ∙ after ∙ if_same n _ _) in
    let count : written_size size 0 ≡ min size 8 = written_size-start size in
    (
      fs',
      wrote ∙ ap (λ j. done (j, fs')) count,
      ap (λ l. reading k 0 fs'.log l) to_q
          ∙ ap (λ e. done (read_at e k 0)) is_new
          ∙ ap done (
              read_at-start new buffer (min size 8) k (omega (arith, count))
                (ap (λ j. memory_at buffer 0 j) count) (omega arith) enough),
    )
