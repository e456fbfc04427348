-- ===== src/Wfs/Log.antt =====
-- The log of p7/mount.wfs.c and the structures of p7/wfs.h. The entries that lie end to end between
-- the superblock and `head` are a list; a pointer to an entry is its index. `content` (data) has `size` bytes.
use cs537projects.Base.{
  ℕ, zero, suc, ◌+◌, Option, none, some, List, [], ◌∷◌, ◌==◌, if◌then◌else◌, get_or,
}

-- struct wfs_inode
pub record Inode : Type 0 where
  pub inode_number : ℕ
  pub deleted : ℕ
  pub mode : ℕ
  pub uid : ℕ
  pub gid : ℕ
  pub flags : ℕ
  pub size : ℕ
  pub atime : ℕ
  pub mtime : ℕ
  pub ctime : ℕ
  pub links : ℕ

-- struct wfs_log_entry
pub record LogEntry : Type 0 where
  pub inode : Inode
  pub open inode use *
  pub content : List ℕ

abbrev no_inode : Inode
no_inode = record {
  inode_number = 0;
  deleted = 0;
  mode = 0;
  uid = 0;
  gid = 0;
  flags = 0;
  size = 0;
  atime = 0;
  mtime = 0;
  ctime = 0;
  links = 0;
}

abbrev pub entry_at : ℕ → List LogEntry → LogEntry
entry_at i log = get_or log i (record { inode = no_inode; content = [] })

-- sizeof(struct wfs_inode), of a struct wfs_log_entry too
abbrev pub sizeof_inode : ℕ
sizeof_inode = 44

abbrev pub sizeof_dentry : ℕ
sizeof_dentry = 40

abbrev pub sizeof_sb : ℕ
sizeof_sb = 8

-- The `while` of `number_to_inode`, with `cur_log` and the index of `start_log`.
unfoldable pub last_from : ℕ → ℕ → Option ℕ → List LogEntry → Option ℕ
last_from n i cur [] = cur
last_from n i cur (e ∷ es) = last_from n (suc i) (if e.inode_number == n then some i else cur) es

unfoldable pub unless_deleted : List LogEntry → Option ℕ → Option ℕ
unless_deleted log none = none
unless_deleted log (some i) = if (entry_at i log).deleted == 0 then some i else none

-- `none` is NULL.
unfoldable pub number_to_inode : ℕ → List LogEntry → Option ℕ
unfolding unless_deleted last_from
number_to_inode n log = unless_deleted log (last_from n 0 none log)

-- inode->deleted = 1
abbrev mark_deleted : LogEntry → LogEntry
mark_deleted e = record e { inode = record e.inode { deleted = 1 } }

abbrev pub delete_at : ℕ → List LogEntry → List LogEntry
delete_at i [] = []
delete_at zero (e ∷ es) = mark_deleted e ∷ es
delete_at (suc i) (e ∷ es) = e ∷ delete_at i es

-- The bytes that the entries take.
abbrev pub log_bytes : List LogEntry → ℕ
log_bytes [] = 0
log_bytes (e ∷ es) = sizeof_inode + e.size + log_bytes es
