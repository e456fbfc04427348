-- ===== src/LastCat/Answers.antt =====
-- What getlastcat (p2/xv6/initial-xv6/src/sysproc.c) answers after runs of programs by exec (exec.c).
use cs537projects.Base.{
  ℕ, zero, suc, ◌≤◌, ◌<◌, ◌≡◌, refl, ap, ◌∙◌, Bool, true, false, some, List, [], ◌∷◌, leb, length,
  take, arith, Bool-cases, inl, inr, ◌⊎◌,
}
use cs537projects.CString.{str_eq}
use cs537projects.LastCat.{
  CatLog, Exec, exec, execs, record_exec, record_cat, check_files, sys_getlastcat, invalid_filename,
  last_of, word_cat,
}

abbrev pub AllFiles : (List ℕ → Bool) → List (List ℕ) → Type 0
AllFiles is_file [] = Unit {0}
AllFiles is_file (s ∷ more) = (is_file s ≡ true) × AllFiles is_file more

abbrev pub SomeMissing : (List ℕ → Bool) → List (List ℕ) → Type 0
SomeMissing is_file [] = ⊥
SomeMissing is_file (s ∷ more) = (is_file s ≡ false) ⊎ SomeMissing is_file more

-- A program that is not named "cat".
abbrev pub OtherProgram : List (List ℕ) → Type 0
OtherProgram [] = Unit {0}
OtherProgram (name ∷ args) = str_eq name word_cat ≡ false

abbrev pub OtherPrograms : List Exec → Type 0
OtherPrograms [] = Unit {0}
OtherPrograms (e ∷ more) = OtherProgram e.argv × OtherPrograms more

-- A run of "cat" that gets as far as the record.
pub record CatRun (s : List ℕ) (more : List (List ℕ)) (e : Exec) : Type 0 where
  pub words : e.argv ≡ word_cat ∷ s ∷ more
  pub few : length more < 31
  pub loaded : e.loads ≡ true

check_files-AllFiles :
    (is_file : List ℕ → Bool) (args : List (List ℕ)) (l : CatLog)
    → AllFiles is_file args
    → check_files is_file args l ≡ l
unfolding check_files
check_files-AllFiles is_file [] l h = refl
check_files-AllFiles is_file (s ∷ more) l h = rw (h.0) (check_files-AllFiles is_file more l h.1)

check_files-SomeMissing :
    (is_file : List ℕ → Bool) (args : List (List ℕ)) (l : CatLog)
    → SomeMissing is_file args
    → (check_files is_file args l).file_dne ≡ 1
unfolding check_files
check_files-SomeMissing is_file [] l h = absurd h
check_files-SomeMissing is_file (s ∷ more) l (inl missing) = rw missing refl
check_files-SomeMissing is_file (s ∷ more) l (inr behind) = elim (Bool-cases (is_file s)) [
  | inl e ↦ rw (e, check_files) (check_files-SomeMissing is_file more l behind)
  | inr e ↦ rw (e, check_files) refl
]

-- The flag is never cleared by a run.
check_files-file_dne :
    (is_file : List ℕ → Bool) (args : List (List ℕ)) (l : CatLog)
    → l.file_dne ≡ 1
    → (check_files is_file args l).file_dne ≡ 1
unfolding check_files
check_files-file_dne is_file [] l h = h
check_files-file_dne is_file (s ∷ more) l h = elim (Bool-cases (is_file s)) [
  | inl e ↦ rw (e, check_files) (check_files-file_dne is_file more l h)
  | inr e ↦ rw (e, check_files) refl
]

record_cat-file_dne :
    (is_file : List ℕ → Bool) (args : List (List ℕ)) (l : CatLog)
    → l.file_dne ≡ 1
    → (record_cat is_file args l).file_dne ≡ 1
unfolding record_cat
record_cat-file_dne is_file [] l h = h
record_cat-file_dne is_file (s ∷ more) l h =
    check_files-file_dne is_file (s ∷ more)
      (record l { indicator = 1; arg_num = 1; cat_s = take 1024 (last_of s more) }) h

record_exec-file_dne :
    (is_file : List ℕ → Bool) (argv : List (List ℕ)) (l : CatLog)
    → l.file_dne ≡ 1
    → (record_exec is_file argv l).file_dne ≡ 1
unfolding record_exec
record_exec-file_dne is_file [] l h = h
record_exec-file_dne is_file (name ∷ args) l h = elim (Bool-cases (str_eq name word_cat)) [
  | inl e ↦ rw (e, record_exec) (record_cat-file_dne is_file args l h)
  | inr e ↦ rw (e, record_exec) h
]

exec-file_dne : (e : Exec) (l : CatLog) → l.file_dne ≡ 1 → (exec e l).0.file_dne ≡ 1
unfolding exec
exec-file_dne e l h = elim (Bool-cases (e.loads)) [
  | inl a ↦ elim (Bool-cases (leb 33 (length e.argv))) [
    | inl b ↦ rw (a, b, exec) h
    | inr b ↦ rw (a, b, exec) (record_exec-file_dne e.is_file e.argv l h)
  ]
  | inr a ↦ rw (a, exec) h
]

execs-file_dne : (es : List Exec) (l : CatLog) → l.file_dne ≡ 1 → (execs es l).file_dne ≡ 1
execs-file_dne [] l h = h
execs-file_dne (e ∷ more) l h = execs-file_dne more (exec e l).0 (exec-file_dne e l h)

record_exec-OtherProgram :
    (is_file : List ℕ → Bool) (argv : List (List ℕ)) (l : CatLog)
    → OtherProgram argv
    → record_exec is_file argv l ≡ l
unfolding record_exec
record_exec-OtherProgram is_file [] l h = refl
record_exec-OtherProgram is_file (name ∷ args) l h = rw h refl

exec-OtherProgram : (e : Exec) (l : CatLog) → OtherProgram e.argv → (exec e l).0 ≡ l
unfolding exec
exec-OtherProgram e l h = elim (Bool-cases (e.loads)) [
  | inl a ↦ elim (Bool-cases (leb 33 (length e.argv))) [
    | inl b ↦ rw (a, b, exec) refl
    | inr b ↦ rw (a, b, exec) (record_exec-OtherProgram e.is_file e.argv l h)
  ]
  | inr a ↦ rw (a, exec) refl
]

execs-OtherPrograms : (es : List Exec) (l : CatLog) → OtherPrograms es → execs es l ≡ l
execs-OtherPrograms [] l h = refl
execs-OtherPrograms (e ∷ more) l h =
    execs-OtherPrograms more (exec e l).0 h.1 ∙ exec-OtherProgram e l h.0

exec-CatRun :
    (s : List ℕ) (more : List (List ℕ)) (e : Exec) (l : CatLog)
    → CatRun s more e
    → (exec e l).0
      ≡ check_files e.is_file
          (s ∷ more)
          (record l { indicator = 1; arg_num = 1; cat_s = take 1024 (last_of s more) })
unfolding exec record_exec record_cat str_eq
exec-CatRun s more e l h =
    let small : leb 33 (suc (suc (length more))) ≡ false = ground (arith, h.few) in
    rw (h.loaded, h.words, small) refl

take-take : (n m : ℕ) (s : List ℕ) → n ≤ m → take n (take m s) ≡ take n s
take-take zero m s h = refl
take-take (suc n) zero s h = absurd (omega (arith, h))
take-take (suc n) (suc m) [] h = refl
take-take (suc n) (suc m) (x ∷ s) h = ap (λ r. x ∷ r) (take-take n m s (omega (arith, h)))

-- After a run of "cat" whose arguments are all files, and any runs of other programs, getlastcat
-- answers with the last argument, cut to 1023 bytes, if no missing file is on record from before.
pub sys_getlastcat-last :
    (s : List ℕ) (more : List (List ℕ)) (e : Exec) (others : List Exec) (l : CatLog)
    → CatRun s more e
    → AllFiles e.is_file (s ∷ more)
    → OtherPrograms others
    → l.file_dne ≡ 0
    → (sys_getlastcat true (execs others (exec e l).0)).1 ≡ some (take 1023 (last_of s more))
unfolding sys_getlastcat
sys_getlastcat-last s more e others l run files rest clean =
    let recorded : CatLog = record l {
      indicator = 1;
      arg_num = 1;
      cat_s = take 1024 (last_of s more);
    } in
    let after : execs others (exec e l).0 ≡ recorded =
      execs-OtherPrograms others (exec e l).0 rest
      ∙ exec-CatRun s more e l run
      ∙ check_files-AllFiles e.is_file (s ∷ more) recorded files in
    rw (after, clean) (ap some (take-take 1023 1024 (last_of s more) (omega arith)))

-- After a run of "cat" with an argument that is no file, whatever runs follow, the next getlastcat
-- answers "Invalid filename", and clears the record of it.
sys_getlastcat-invalid :
    (s : List ℕ) (more : List (List ℕ)) (e : Exec) (later : List Exec) (l : CatLog)
    → CatRun s more e
    → SomeMissing e.is_file (s ∷ more)
    → sys_getlastcat true (execs later (exec e l).0)
      ≡ (record (execs later (exec e l).0) { file_dne = 0 }, some invalid_filename)
unfolding sys_getlastcat
sys_getlastcat-invalid s more e later l run missing =
    let flagged : (execs later (exec e l).0).file_dne ≡ 1 = execs-file_dne later (exec e l).0 (
      ap (λ (k : CatLog). k.file_dne) (exec-CatRun s more e l run)
      ∙ check_files-SomeMissing e.is_file (s ∷ more)
          (record l { indicator = 1; arg_num = 1; cat_s = take 1024 (last_of s more) }) missing) in
    rw flagged refl
