-- ===== src/Wfs/Path.antt =====
-- Directory entries and paths of p7/mount.wfs.c: `path_to_inode` and the loop that it runs.
use cs537projects.Base.{
  ℕ, zero, suc, ◌+◌, ◌*◌, ◌-◌, ◌/◌, ◌%◌, ◌^◌, Bool, true, Option, none, some, List, [], ◌∷◌, ◌==◌,
  if◌then◌else◌, take, drop,
}
use cs537projects.CString.{c_string, str_eq}
use cs537projects.Wfs.Log.{LogEntry, entry_at, number_to_inode, sizeof_dentry}

-- A number in `n` bytes, the lowest first, and back.
unfoldable pub le_bytes : ℕ → ℕ → List ℕ
le_bytes zero x = []
le_bytes (suc n) x = x % 256 ∷ le_bytes n (x / 256)

unfoldable pub le_value : List ℕ → ℕ
le_value [] = 0
le_value (b ∷ bs) = b + 256 * le_value bs

-- `dentry[i].name` as strcmp reads it.
unfoldable pub dentry_name : ℕ → List ℕ → List ℕ
unfolding c_string
dentry_name i bytes = c_string (drop (sizeof_dentry * i) bytes)

-- `j = dentry[i].inode_number`, the bits of an int.
unfoldable pub dentry_inode : ℕ → List ℕ → ℕ
unfolding le_value
dentry_inode i bytes = le_value (take 8 (drop (sizeof_dentry * i + 32) bytes)) % 2 ^ 32

-- The `for` of `path_to_inode` from the entry `i` on; `none` is the -1 left in `j`.
unfoldable pub find_dentry : ℕ → ℕ → List ℕ → List ℕ → Option ℕ
find_dentry zero i bytes tok = none
find_dentry (suc rounds) i bytes tok =
    let rest = find_dentry rounds (i + 1) bytes tok in
    if str_eq (dentry_name i bytes) tok then some (dentry_inode i bytes) else rest

-- if(j == -1)
unfoldable pub not_minus_one : Option ℕ → Option ℕ
not_minus_one none = none
not_minus_one (some j) = if j == 2 ^ 32 - 1 then none else some j

abbrev pub at_separator : List ℕ → Bool
at_separator [] = true
at_separator (c ∷ s) = c == b'/'

abbrev pub cons_head : ℕ → List (List ℕ) → List (List ℕ)
cons_head c [] = (c ∷ []) ∷ []
cons_head c (t ∷ ts) = (c ∷ t) ∷ ts

-- The tokens of `strtok(path, "/")`.
unfoldable pub tokens : List ℕ → List (List ℕ)
tokens [] = []
tokens (c ∷ s) =
    let rest = tokens s in
    if c == b'/' then rest else (if at_separator s then (c ∷ []) ∷ rest else cons_head c rest)

-- What `path_to_inode` comes to: a pointer, NULL, or a read through NULL.
pub data Lookup : Type 0 where
  found : ℕ → Lookup
  missing : Lookup
  fault : Lookup

abbrev pub pointer : Option ℕ → Lookup
pointer none = missing
pointer (some i) = found i

-- j, for the directory at the index `i`.
unfoldable pub child_number : ℕ → List LogEntry → List ℕ → Option ℕ
unfolding not_minus_one find_dentry
child_number i log tok =
    let dir = entry_at i log in
    not_minus_one (find_dentry (dir.size / sizeof_dentry) 0 dir.content tok)

-- The `while` over the tokens.
unfoldable pub walk : List LogEntry → Option ℕ → List (List ℕ) → Lookup
unfolding child_number number_to_inode
walk log root [] = pointer root
walk log none (tok ∷ toks) = fault
walk log (some i) (tok ∷ toks) = elim (child_number i log tok) [
  | none ↦ missing
  | some j ↦ walk log (number_to_inode j log) toks
]

-- The path is a C string without its NUL; 127 bytes of it are copied.
unfoldable pub path_to_inode : List ℕ → List LogEntry → Lookup
unfolding walk tokens
path_to_inode path log =
    if str_eq path (b'/' ∷ [])
    then pointer (number_to_inode 0 log)
    else walk log (number_to_inode 0 log) (tokens (take 127 path))
