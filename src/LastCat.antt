-- ===== src/LastCat.antt =====
-- getlastcat of p2/xv6/initial-xv6/src: what exec (exec.c) records about runs of "cat", and what
-- sys_getlastcat (sysproc.c) answers. Whether a path names a file (namei), whether the program's
-- file loads, and whether exec's last copy succeeds are parameters. Strings are bytes without NUL.
pub mod Answers
mod Tests
use cs537projects.Base.{
  ℕ, zero, suc, ◌+◌, ◌≤◌, ◌≡◌, refl, ap, ◌∙◌, sym, Bool, true, false, not, Option, none, some, List,
  [], ◌∷◌, ◌==◌, ltb, leb, if◌then◌else◌, length, take, arith, Bool-cases, inl, inr, lt→ltb,
}
use cs537projects.CString.{str_eq}

-- The four global variables.
pub record CatLog : Type 0 where
  pub indicator : ℕ
  pub arg_num : ℕ
  pub file_dne : ℕ
  pub cat_s : List ℕ

abbrev pub nothing_run : CatLog
nothing_run = record { indicator = 0; arg_num = 0; file_dne = 0; cat_s = [] }

abbrev pub word_cat : List ℕ
word_cat = b'c' ∷ b'a' ∷ b't' ∷ []

abbrev pub last_of : List ℕ → List (List ℕ) → List ℕ
last_of s [] = s
last_of s (t ∷ more) = last_of t more

-- One exec: the words of argv, the paths that name a file, and how the parts outside this model end.
pub record Exec : Type 0 where
  pub argv : List (List ℕ)
  pub is_file : List ℕ → Bool
  pub loads : Bool
  pub commits : Bool

-- The loop over the arguments behind the program's name.
unfoldable pub check_files : (List ℕ → Bool) → List (List ℕ) → CatLog → CatLog
check_files is_file [] l = l
check_files is_file (s ∷ more) l =
    let rest = check_files is_file more l in if is_file s then rest else record l { file_dne = 1 }

unfoldable pub record_cat : (List ℕ → Bool) → List (List ℕ) → CatLog → CatLog
unfolding check_files
record_cat is_file [] l = record l { indicator = 1; arg_num = 0 }
record_cat is_file (s ∷ more) l =
    check_files is_file (s ∷ more)
      (record l { indicator = 1; arg_num = 1; cat_s = take 1024 (last_of s more) })

-- `sizeof(argv[0])` is 4, so the name is compared with its end.
unfoldable pub record_exec : (List ℕ → Bool) → List (List ℕ) → CatLog → CatLog
unfolding record_cat str_eq
record_exec is_file [] l = l
record_exec is_file (name ∷ args) l =
    let recorded = record_cat is_file args l in if str_eq name word_cat then recorded else l

-- The log after an exec, and whether the exec succeeds; MAXARG is 32.
unfoldable pub exec : Exec → CatLog → CatLog × Bool
unfolding record_exec
exec e l =
    let recorded = record_exec e.is_file e.argv l in
    if not e.loads
    then (l, false)
    else (if leb 33 (length e.argv) then (l, false) else (recorded, e.commits))

-- Many execs, one after the other.
abbrev pub execs : List Exec → CatLog → CatLog
execs [] l = l
execs (e ∷ more) l = execs more (exec e l).0

-- "Invalid filename"
abbrev pub invalid_filename : List ℕ
invalid_filename =
    b'I' ∷ b'n' ∷ b'v' ∷ b'a' ∷ b'l' ∷ b'i' ∷ b'd' ∷ 32 ∷ b'f' ∷ b'i' ∷ b'l' ∷ b'e' ∷ b'n' ∷ b'a'
    ∷ b'm' ∷ b'e' ∷ []

-- "Cat has not yet been called"
abbrev pub not_yet_called : List ℕ
not_yet_called =
    b'C' ∷ b'a' ∷ b't' ∷ 32 ∷ b'h' ∷ b'a' ∷ b's' ∷ 32 ∷ b'n' ∷ b'o' ∷ b't' ∷ 32 ∷ b'y' ∷ b'e' ∷ b't'
    ∷ 32 ∷ b'b' ∷ b'e' ∷ b'e' ∷ b'n' ∷ 32 ∷ b'c' ∷ b'a' ∷ b'l' ∷ b'l' ∷ b'e' ∷ b'd' ∷ []

-- "No args were passed"
abbrev no_args : List ℕ
no_args =
    b'N' ∷ b'o' ∷ 32 ∷ b'a' ∷ b'r' ∷ b'g' ∷ b's' ∷ 32 ∷ b'w' ∷ b'e' ∷ b'r' ∷ b'e' ∷ 32 ∷ b'p' ∷ b'a'
    ∷ b's' ∷ b's' ∷ b'e' ∷ b'd' ∷ []

-- The log after the call, and what is written to the buffer; `none` is the result -1.
unfoldable pub sys_getlastcat : Bool → CatLog → CatLog × Option (List ℕ)
sys_getlastcat buffer_ok l =
    if not buffer_ok
    then (l, none)
    else (if l.file_dne == 1
        then (record l { file_dne = 0 }, some invalid_filename)
        else (if l.indicator == 0
            then (l, some not_yet_called)
            else (if l.arg_num == 0 then (l, some no_args) else (l, some (take 1023 l.cat_s)))))
