-- ===== src/Wfs/Tests.antt =====
-- The theorems about the file system at concrete calls on a fresh disk.
use cs537projects.Base.{
  ℕ, ◌+◌, ◌≡◌, refl, none, some, List, [], ◌∷◌, ◌==◌, if◌then◌else◌, arith, length, take, inl, inr,
  replicate, drop,
}
use cs537projects.CString.{str_eq, c_string}
use cs537projects.Wfs.Log.{entry_at, number_to_inode}
use cs537projects.Wfs.Path.{
  path_to_inode, tokens, walk, child_number, dentry_name, dentry_inode, le_value, le_bytes, found,
}
use cs537projects.Wfs.Ops.{
  Wfs, Caller, done, mkfs, make_in, make_node, wfs_write, wfs_read, write_in, written_size,
  wfs_readdir, dentry_bytes, grown_inode, new_node, memory_at, inside, remount,
}
use cs537projects.Wfs.Live.{live}
use cs537projects.Wfs.Invariant.{Reach, fresh, make, write, LogOk, Reach-LogOk}
use cs537projects.Wfs.Refine.{write-live, make_node-live, overwritten, grown}
use cs537projects.Wfs.Tree.{
  Node, file, directory, Tree, by_number, path_to_inode-Tree, readdir-Tree,
}
use cs537projects.Wfs.Grow.{added}
use cs537projects.Wfs.Made.{
  root_only, mkfs-Tree, make_in-Tree, Makeable, make_node-Tree, write-Tree,
}
use cs537projects.Wfs.Found.{make_node-found, make_node-kept}
use cs537projects.Wfs.ReadBack.{write-read}
use cs537projects.Wfs.Remount.{remount-loses}

abbrev caller : Caller
caller = record { uid = 1000; gid = 1000; now = 7 }

abbrev junk : List ℕ
junk = replicate 40 9

-- "/a" and "/b"
abbrev path_a : List ℕ
path_a = b'/' ∷ b'a' ∷ []

abbrev root_of : List ℕ → List ℕ
root_of path = b'/' ∷ []

abbrev name_of : List ℕ → List ℕ
name_of path = drop 1 path

abbrev disk : Wfs
disk = mkfs caller

abbrev with_a : Wfs
with_a = make_in 0x81A4 caller junk (b'a' ∷ []) 0 disk

abbrev letters : ℕ → ℕ
letters i = 65 + i

abbrev with_text : Wfs
with_text = (write_in caller letters 3 0 2 with_a).1

made_a : make_node root_of name_of 0x81A4 caller junk path_a disk ≡ done with_a
unfolding make_node path_to_inode number_to_inode mkfs str_eq
made_a = refl

find_a : path_to_inode path_a with_a.log ≡ found 2
unfolding make_in mkfs path_to_inode number_to_inode str_eq tokens walk child_number dentry_name
    dentry_inode c_string dentry_bytes le_value le_bytes grown_inode new_node
find_a = refl

wrote_a : wfs_write caller path_a letters 3 0 with_a ≡ done (3, with_text)
unfolding wfs_write written_size make_in mkfs path_to_inode number_to_inode str_eq tokens walk
    child_number dentry_name dentry_inode c_string dentry_bytes le_value le_bytes grown_inode
    new_node
wrote_a = refl

with_a-Reach : Reach root_of name_of with_a
with_a-Reach = make 0x81A4 caller junk path_a (fresh caller) (omega arith) made_a

with_text-Reach : Reach root_of name_of with_text
with_text-Reach = write caller path_a letters 3 0 3 with_a-Reach (omega arith) wrote_a

Reach-LogOk_example : LogOk with_text
Reach-LogOk_example = Reach-LogOk root_of name_of with_text with_text-Reach

make_node-live_example :
    (p : ℕ) × (path_to_inode (b'/' ∷ []) disk.log ≡ found p)
    × ((m : ℕ)
        → live m with_a.log ≡ (
            if m == 101
            then some (record { inode = new_node 0x81A4 caller 101; content = [] })
            else (if m == (entry_at p disk.log).inode_number
                then some (grown junk (b'a' ∷ []) 101 (entry_at p disk.log))
                else live m disk.log)))
unfolding mkfs
make_node-live_example = make_node-live root_of name_of 0x81A4 caller junk path_a disk with_a made_a

write-live_example :
    (i : ℕ) × (path_to_inode path_a with_a.log ≡ found i)
    × (3 ≡ written_size 3 0)
    × ((m : ℕ)
        → live m with_text.log ≡ (
            if m == (entry_at i with_a.log).inode_number
            then some (overwritten caller letters 3 0 (entry_at i with_a.log))
            else live m with_a.log))
write-live_example = write-live caller path_a letters 3 0 3 with_a with_text wrote_a

remount-loses_example : live 101 (remount with_text).log ≡ none
remount-loses_example = remount-loses root_of name_of with_text 101 with_text-Reach (omega arith)

-- "/a" as a directory, and "/a/b" in it
abbrev path_ab : List ℕ
path_ab = b'/' ∷ b'a' ∷ b'/' ∷ b'b' ∷ []

abbrev in_a : List (List ℕ)
in_a = (b'a' ∷ []) ∷ []

abbrev in_ab : List (List ℕ)
in_ab = (b'a' ∷ []) ∷ (b'b' ∷ []) ∷ []

abbrev dir_of : List ℕ → List ℕ
dir_of path = if length path == 2 then b'/' ∷ [] else take 2 path

abbrev base_of : List ℕ → List ℕ
base_of path = if length path == 2 then drop 1 path else drop 3 path

abbrev dir_a : Wfs
dir_a = make_in 0x41ED caller junk (b'a' ∷ []) 0 disk

abbrev dir_ab : Wfs
dir_ab = make_in 0x81A4 caller junk (b'b' ∷ []) 2 dir_a

abbrev nodes_a : ℕ → Node
nodes_a = added root_only 0 (b'a' ∷ []) 101 (directory [])

abbrev nodes_ab : ℕ → Node
nodes_ab = added nodes_a 101 (b'b' ∷ []) 102 file

holds_a : Tree nodes_a dir_a
unfolding mkfs live number_to_inode
holds_a =
    make_in-Tree 0x41ED caller junk (b'a' ∷ []) 0 disk root_only 0 [] (directory [])
      (mkfs-Tree caller) refl refl refl refl (omega arith, (refl, tt), omega arith) (omega arith)
      (inr refl)

holds_ab : Tree nodes_ab dir_ab
unfolding mkfs live number_to_inode make_in grown_inode new_node
holds_ab =
    make_in-Tree 0x81A4 caller junk (b'b' ∷ []) 2 dir_a nodes_a 101 [] file holds_a refl refl refl
      refl (omega arith, (refl, tt), omega arith) (omega arith) (inl refl)

able_a : Makeable root_only disk (dir_of path_a) (base_of path_a) junk [] 0 []
unfolding mkfs
able_a = record {
  tree = mkfs-Tree caller;
  at = refl;
  plain = tt;
  short = omega arith;
  leads = refl;
  is_dir = refl;
  good = (omega arith, (refl, tt), omega arith);
  room = omega arith;
}

able_ab : Makeable nodes_a dir_a (dir_of path_ab) (base_of path_ab) junk in_a 101 []
unfolding mkfs make_in str_eq
able_ab = record {
  tree = holds_a;
  at = refl;
  plain = ((refl, tt), tt);
  short = omega arith;
  leads = refl;
  is_dir = refl;
  good = (omega arith, (refl, tt), omega arith);
  room = omega arith;
}

path_to_inode-Tree_example : path_to_inode path_ab dir_ab.log ≡ by_number dir_ab.log (some 102)
unfolding str_eq
path_to_inode-Tree_example =
    path_to_inode-Tree nodes_ab dir_ab in_ab holds_ab ((refl, tt), ((refl, tt), tt)) (omega arith)

readdir-Tree_example :
    wfs_readdir path_a dir_ab ≡ done ((b'.' ∷ []) ∷ (b'.' ∷ b'.' ∷ []) ∷ (b'b' ∷ []) ∷ [])
unfolding str_eq
readdir-Tree_example = readdir-Tree nodes_ab dir_ab in_a holds_ab ((refl, tt), tt) (omega arith)

make_node-Tree_example :
    (fs' : Wfs) × (make_node dir_of base_of 0x41ED caller junk path_a disk ≡ done fs')
    × Tree (added root_only 0 (b'a' ∷ []) 101 (directory [])) fs'
unfolding mkfs
make_node-Tree_example =
    make_node-Tree dir_of base_of 0x41ED caller junk path_a disk root_only [] 0 [] (directory [])
      able_a (inr refl)

make_node-found_example :
    (fs' : Wfs) × (i : ℕ) × (make_node dir_of base_of 0x81A4 caller junk path_ab dir_a ≡ done fs')
    × (path_to_inode path_ab fs'.log ≡ found i)
    × (entry_at i fs'.log ≡ record { inode = new_node 0x81A4 caller 102; content = [] })
unfolding mkfs make_in
make_node-found_example =
    make_node-found dir_of base_of 0x81A4 caller junk path_ab dir_a nodes_a in_a 101 [] able_ab refl
      (refl, tt) (omega arith)

make_node-kept_example :
    (fs' : Wfs) × (i : ℕ) × (make_node dir_of base_of 0x81A4 caller junk path_ab dir_a ≡ done fs')
    × (path_to_inode path_a fs'.log ≡ found i)
    × ((entry_at i fs'.log).inode_number ≡ 101)
unfolding str_eq
make_node-kept_example =
    make_node-kept dir_of base_of 0x81A4 caller junk path_ab dir_a nodes_a in_a 101 [] in_a 101
      able_ab ((refl, tt), tt) (omega arith) refl

write-Tree_example :
    (fs' : Wfs) × (wfs_write caller path_ab letters 20 0 dir_ab ≡ done (8, fs')) × Tree nodes_ab fs'
unfolding str_eq written_size
write-Tree_example =
    write-Tree caller letters 20 0 dir_ab nodes_ab in_ab 102 holds_ab ((refl, tt), ((refl, tt), tt))
      (omega arith) refl refl (omega arith)

write-read_example :
    (fs' : Wfs) × (wfs_write caller path_ab letters 20 0 dir_ab ≡ done (8, fs'))
    × (wfs_read path_ab 100 0 fs' ≡ done (inside (memory_at letters 0 8)))
unfolding str_eq
write-read_example =
    write-read caller letters 20 100 dir_ab nodes_ab in_ab 102 holds_ab
      ((refl, tt), ((refl, tt), tt)) (omega arith) refl refl (omega arith)
