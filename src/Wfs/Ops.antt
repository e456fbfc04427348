-- ===== src/Wfs/Ops.antt =====
-- The FUSE operations of p7/mount.wfs.c, the mount in its main, and p7/mkfs.wfs.c. `dirname`,
-- `basename`, the clock and the ids of the caller are parameters; so is the memory that a write
-- reads from, and what malloc leaves in a new block. The disk is taken to have room.
use Prim.Native.Nat.{bit_or}
use cs537projects.Base.{
  ℕ, zero, suc, ◌+◌, ◌-◌, ◌/◌, ◌%◌, ◌^◌, List, [], ◌∷◌, ◌++◌, ◌==◌, ltb, if◌then◌else◌, take, drop,
  length,
}
use cs537projects.Wfs.Log.{
  Inode, LogEntry, entry_at, delete_at, sizeof_inode, sizeof_dentry, sizeof_sb,
}
use cs537projects.Wfs.Path.{found, missing, fault, path_to_inode, dentry_name, le_bytes}

-- `wp->disk` up to `wp->head`, and `cur_inode_num`. `saved_head` is the `head` of the superblock.
pub record Wfs : Type 0 where
  pub log : List LogEntry
  pub head : ℕ
  pub saved_head : ℕ
  pub cur_inode_num : ℕ

-- An operation reads through NULL, returns -ENOENT, or returns a value.
pub data Result {ℓ} (A : Type ℓ) : Type ℓ where
  crash : Result A
  enoent : Result A
  done : A → Result A

-- The environment of a call.
pub record Caller : Type 0 where
  pub uid : ℕ
  pub gid : ℕ
  pub now : ℕ

abbrev s_ifdir : ℕ
s_ifdir = 0x4000

abbrev s_ifreg : ℕ
s_ifreg = 0x8000

-- The fields that wfs_getattr copies out.
pub record Stat : Type 0 where
  pub st_mode : ℕ
  pub st_uid : ℕ
  pub st_gid : ℕ
  pub st_atime : ℕ
  pub st_mtime : ℕ
  pub st_size : ℕ
  pub st_nlink : ℕ

unfoldable pub stat_of : LogEntry → Stat
stat_of e = record {
  st_mode = e.mode;
  st_uid = e.uid;
  st_gid = e.gid;
  st_atime = e.atime;
  st_mtime = e.mtime;
  st_size = e.size;
  st_nlink = e.links;
}

unfoldable pub wfs_getattr : List ℕ → Wfs → Result Stat
unfolding stat_of
wfs_getattr path fs = elim (path_to_inode path fs.log) [
  | found i ↦ done (stat_of (entry_at i fs.log))
  | missing ↦ enoent
  | fault ↦ crash
]

-- `new_parent_inode`: the fields that its initializer does not name are 0.
unfoldable pub grown_inode : Inode → Inode
grown_inode n = record n { deleted = 0; flags = 0; mtime = 0; size = n.size + sizeof_dentry }

-- The number goes in before the name; a name of 32 bytes or more runs over it.
unfoldable pub dentry_bytes : List ℕ → List ℕ → ℕ → List ℕ
unfolding le_bytes
dentry_bytes junk name number =
    let written = name ++ 0 ∷ [] in
    take sizeof_dentry (written ++ drop (length written) (take 32 junk ++ le_bytes 8 number))

unfoldable pub new_node : ℕ → Caller → ℕ → Inode
new_node mode c number = record {
  inode_number = number;
  deleted = 0;
  mode = mode;
  uid = c.uid;
  gid = c.gid;
  flags = 0;
  size = 0;
  atime = c.now;
  mtime = c.now;
  ctime = c.now;
  links = 1;
}

-- `wfs_mknod` and `wfs_mkdir` once the parent is found at the index `p`.
unfoldable pub make_in : ℕ → Caller → List ℕ → List ℕ → ℕ → Wfs → Wfs
unfolding grown_inode dentry_bytes new_node
make_in mode c junk name p fs =
    let parent = entry_at p fs.log in
    let number = fs.cur_inode_num + 1 in
    let new_parent : LogEntry = record {
      inode = grown_inode parent.inode;
      content = parent.content ++ dentry_bytes junk name number;
    } in
    let created : LogEntry = record { inode = new_node mode c number; content = [] } in
    record fs {
      log = (delete_at p fs.log ++ new_parent ∷ []) ++ created ∷ [];
      head = fs.head + (sizeof_inode + parent.size + sizeof_dentry) + sizeof_inode;
      cur_inode_num = number;
    }

module _ (dirname basename : List ℕ → List ℕ) where
  unfoldable pub make_node : ℕ → Caller → List ℕ → List ℕ → Wfs → Result Wfs
  unfolding make_in
  make_node mode c junk path fs = elim (path_to_inode (dirname path) fs.log) [
    | found p ↦ done (make_in mode c junk (basename path) p fs)
    | missing ↦ crash
    | fault ↦ crash
  ]

  abbrev wfs_mknod : ℕ → Caller → List ℕ → List ℕ → Wfs → Result Wfs
  wfs_mknod mode = make_node (bit_or s_ifreg mode)

  abbrev wfs_mkdir : ℕ → Caller → List ℕ → List ℕ → Wfs → Result Wfs
  wfs_mkdir mode = make_node (bit_or s_ifdir mode)

-- What a read puts in the buffer: bytes of the file, or, from an offset past its end, so many bytes
-- of what lies behind it.
pub data Read : Type 0 where
  inside : List ℕ → Read
  beyond : ℕ → Read

-- `cur_inode->size - offset` is unsigned.
unfoldable pub read_at : LogEntry → ℕ → ℕ → Read
read_at e size offset =
    let size_read = (e.size + 2 ^ 64 - offset) % 2 ^ 64 in
    if ltb e.size offset
    then beyond (if ltb size_read size then size_read else size)
    else inside (take (if ltb size_read size then size_read else size) (drop offset e.content))

unfoldable pub wfs_read : List ℕ → ℕ → ℕ → Wfs → Result Read
unfolding read_at
wfs_read path size offset fs = elim (path_to_inode path fs.log) [
  | found i ↦ done (read_at (entry_at i fs.log) size offset)
  | missing ↦ enoent
  | fault ↦ crash
]

-- `n` bytes of memory from the address `i`.
abbrev pub memory_at : (ℕ → ℕ) → ℕ → ℕ → List ℕ
memory_at mem i zero = []
memory_at mem i (suc n) = mem i ∷ memory_at mem (suc i) n

-- `sizeof(buffer)` is 8; the difference is unsigned.
unfoldable pub written_size : ℕ → ℕ → ℕ
written_size size offset =
    let size_written = (8 + 2 ^ 64 - offset) % 2 ^ 64 in
    if ltb size_written size then size_written else size

-- `wfs_write` once the inode is found at the index `i`.
unfoldable pub write_in : Caller → (ℕ → ℕ) → ℕ → ℕ → ℕ → Wfs → ℕ × Wfs
unfolding written_size
write_in c buffer size offset i fs =
    let old = entry_at i fs.log in
    let size' = written_size size offset in
    let new_log : LogEntry = record {
      inode = record old.inode {
        deleted = 0;
        size = size' % 2 ^ 32;
        atime = c.now;
        mtime = c.now;
        ctime = c.now;
      };
      content = memory_at buffer offset size';
    } in
    (
      size',
      record fs {
        log = delete_at i fs.log ++ new_log ∷ [];
        head = fs.head + (sizeof_inode + size' % 2 ^ 32);
      },
    )

-- A missing path is written to before it is tested.
unfoldable pub wfs_write : Caller → List ℕ → (ℕ → ℕ) → ℕ → ℕ → Wfs → Result (ℕ × Wfs)
unfolding write_in
wfs_write c path buffer size offset fs = elim (path_to_inode path fs.log) [
  | found i ↦ done (write_in c buffer size offset i fs)
  | missing ↦ crash
  | fault ↦ crash
]

-- The names that wfs_readdir gives to the filler after "." and "..".
unfoldable pub names_from : ℕ → ℕ → List ℕ → List (List ℕ)
names_from zero i bytes = []
names_from (suc rounds) i bytes = dentry_name i bytes ∷ names_from rounds (i + 1) bytes

unfoldable pub wfs_readdir : List ℕ → Wfs → Result (List (List ℕ))
unfolding names_from
wfs_readdir path fs = elim (path_to_inode path fs.log) [
  | found i ↦
      let dir = entry_at i fs.log in
      done ((b'.' ∷ []) ∷ (b'.' ∷ b'.' ∷ []) ∷ names_from (dir.size / sizeof_dentry) 0 dir.content)
  | missing ↦ crash
  | fault ↦ crash
]

-- The body is commented out.
unfoldable pub wfs_unlink : List ℕ → Wfs → Result Wfs
wfs_unlink path fs = done fs

-- mkfs.wfs.c: the root directory, and the `head` behind it. The same record is the first mount.
unfoldable pub mkfs : Caller → Wfs
mkfs c = record {
  log =
      record {
        inode = record {
          inode_number = 0;
          deleted = 0;
          mode = 0x41ED;
          uid = c.uid;
          gid = c.gid;
          flags = 0;
          size = 0;
          atime = c.now;
          mtime = c.now;
          ctime = c.now;
          links = 2;
        };
        content = [];
      }
      ∷ [];
  head = sizeof_sb + sizeof_inode;
  saved_head = sizeof_sb + sizeof_inode;
  cur_inode_num = 100;
}

-- The entries of which the bytes lie below `head`.
unfoldable pub below_head : ℕ → List LogEntry → List LogEntry
below_head room [] = []
below_head room (e ∷ es) =
    let rest = below_head (room - (sizeof_inode + e.size)) es in if 0 == room then [] else e ∷ rest

-- main of mount.wfs.c on a disk that was mounted before: `head` comes from the superblock, the
-- inode numbers start again.
unfoldable pub remount : Wfs → Wfs
unfolding below_head
remount fs = record {
  log = below_head (fs.saved_head - sizeof_sb) fs.log;
  head = fs.saved_head;
  saved_head = fs.saved_head;
  cur_inode_num = 100;
}
