-- ===== src/Wfs/Listed.antt =====
-- The bytes of whole directories of p7/mount.wfs.c, entry by entry: the names that readdir lists, and
-- the number that path_to_inode finds.
use cs537projects.Base.{
  ℕ, ◌+◌, ◌*◌, ◌<◌, ◌≤◌, ◌≡◌, refl, sym, ap, ap₂, ◌∙◌, some, List, [], ◌∷◌, ◌++◌, arith,
  if◌then◌else◌, length, map, length-append, append_assoc, append-nil,
}
use cs537projects.CString.{str_eq}
use cs537projects.Wfs.Path.{dentry_name, dentry_inode, find_dentry}
use cs537projects.Wfs.Ops.{dentry_bytes, names_from}
use cs537projects.Wfs.Lookup.{
  GoodNames, number_named, length-dentry, dentry_name-dir, dentry_inode-dir,
}

-- The bytes of a directory that lists the names with their numbers; what malloc left behind each name
-- may differ.
abbrev pub DirBytes : List (List ℕ × ℕ) → List ℕ → Type 0
DirBytes [] s = s ≡ []
DirBytes ((name, number) ∷ ds) s =
    (junk : List ℕ) × (rest : List ℕ) × (32 ≤ length junk)
    × (s ≡ dentry_bytes junk name number ++ rest)
    × DirBytes ds rest

pub DirBytes-append :
    (ds : List (List ℕ × ℕ)) (s junk name : List ℕ) (number : ℕ)
    → 32 ≤ length junk
    → DirBytes ds s
    → DirBytes (ds ++ (name, number) ∷ []) (s ++ dentry_bytes junk name number)
DirBytes-append [] s junk name number room h = (
  junk,
  [],
  room,
  ap (λ r. r ++ dentry_bytes junk name number) h ∙ sym (append-nil (dentry_bytes junk name number)),
  refl,
)
DirBytes-append ((first, m) ∷ ds) s junk name number room (old_junk, rest, old_room, at, behind) = (
  old_junk,
  rest ++ dentry_bytes junk name number,
  old_room,
  ap (λ r. r ++ dentry_bytes junk name number) at
      ∙ append_assoc (dentry_bytes old_junk first m) rest (dentry_bytes junk name number),
  DirBytes-append ds rest junk name number room behind,
)

shift_dir :
    (before block rest : List ℕ) (s : List ℕ)
    → s ≡ block ++ rest
    → before ++ s ≡ (before ++ block) ++ rest
shift_dir before block rest s e = ap (λ r. before ++ r) e ∙ sym (append_assoc before block rest)

next_block :
    (i : ℕ) (before junk name : List ℕ) (number : ℕ)
    → 32 ≤ length junk
    → length before ≡ 40 * i
    → length name < 32
    → length (before ++ dentry_bytes junk name number) ≡ 40 * (i + 1)
next_block i before junk name number room at short = omega (
  arith,
  length-append before (dentry_bytes junk name number),
  length-dentry junk room name number short,
  at,
)

pub names_from-DirBytes :
    (i : ℕ) (before s : List ℕ) (ds : List (List ℕ × ℕ))
    → length before ≡ 40 * i
    → GoodNames ds
    → DirBytes ds s
    → names_from (length ds) i (before ++ s) ≡ map (λ d. d.0) ds
unfolding names_from
names_from-DirBytes i before s [] at good bytes = refl
names_from-DirBytes i before s ((name, number) ∷ ds) at good (junk, rest, room, e, behind) =
    ap₂ ◌∷◌
      (ap (λ r. dentry_name i (before ++ r)) e
        ∙ dentry_name-dir junk room i before name number rest at good.0)
      (ap (λ r. names_from (length ds) (i + 1) r)
          (shift_dir before (dentry_bytes junk name number) rest s e)
        ∙ names_from-DirBytes (i + 1) (before ++ dentry_bytes junk name number) rest ds
            (next_block i before junk name number room at good.0.0) good.1 behind)

pub find_dentry-DirBytes :
    (i : ℕ) (before s : List ℕ) (ds : List (List ℕ × ℕ)) (tok : List ℕ)
    → length before ≡ 40 * i
    → GoodNames ds
    → DirBytes ds s
    → find_dentry (length ds) i (before ++ s) tok ≡ number_named tok ds
unfolding find_dentry
find_dentry-DirBytes i before s [] tok at good bytes = refl
find_dentry-DirBytes i before s ((name, number) ∷ ds) tok at good (junk, rest, room, e, behind) =
    let all = before ++ s in
    let later : find_dentry (length ds) (i + 1) all tok ≡ number_named tok ds =
      ap (λ r. find_dentry (length ds) (i + 1) r tok)
        (shift_dir before (dentry_bytes junk name number) rest s e)
      ∙ find_dentry-DirBytes (i + 1) (before ++ dentry_bytes junk name number) rest ds tok
          (next_block i before junk name number room at good.0.0) good.1 behind in
    ap
      (λ r.
        if str_eq r tok then some (dentry_inode i all) else find_dentry (length ds) (i + 1) all tok)
      (ap (λ r. dentry_name i (before ++ r)) e
        ∙ dentry_name-dir junk room i before name number rest at good.0)
    ∙ ap₂ (λ (a : ℕ) b. if str_eq name tok then some a else b)
        (ap (λ r. dentry_inode i (before ++ r)) e
          ∙ dentry_inode-dir junk room i before name number rest at good.0)
        later
