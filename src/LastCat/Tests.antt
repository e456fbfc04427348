-- ===== src/LastCat/Tests.antt =====
-- The theorems about getlastcat at concrete runs of programs.
use cs537projects.Base.{
  ℕ, ◌≡◌, refl, true, false, some, List, [], ◌∷◌, Bool, take, ◌==◌, get_or, arith,
}
use cs537projects.CString.{str_eq}
use cs537projects.LastCat.{
  Exec, exec, execs, sys_getlastcat, nothing_run, not_yet_called, word_cat, last_of,
}
use cs537projects.LastCat.Answers.{CatRun, sys_getlastcat-last}

abbrev readme : List ℕ
readme = b'R' ∷ b'E' ∷ []

abbrev notes : List ℕ
notes = b'n' ∷ b'o' ∷ []

-- Only names with a capital R exist.
abbrev on_disk : List ℕ → Bool
on_disk s = get_or s 0 0 == b'R'

abbrev cat_readme : Exec
cat_readme = record {
  argv = word_cat ∷ readme ∷ [];
  is_file = on_disk;
  loads = true;
  commits = true;
}

abbrev cat_notes : Exec
cat_notes = record { argv = word_cat ∷ notes ∷ []; is_file = on_disk; loads = true; commits = true }

abbrev list_files : Exec
list_files = record {
  argv = (b'l' ∷ b's' ∷ []) ∷ [];
  is_file = on_disk;
  loads = true;
  commits = true;
}

cat_readme-CatRun : CatRun readme [] cat_readme
cat_readme-CatRun = record { words = refl; few = omega arith; loaded = refl }

cat_notes-CatRun : CatRun notes [] cat_notes
cat_notes-CatRun = record { words = refl; few = omega arith; loaded = refl }

list_files_other : str_eq (b'l' ∷ b's' ∷ []) word_cat ≡ false
unfolding str_eq
list_files_other = refl

sys_getlastcat-last_example :
    (sys_getlastcat true (execs (list_files ∷ []) (exec cat_readme nothing_run).0)).1
    ≡ some (take 1023 (last_of readme []))
sys_getlastcat-last_example =
    sys_getlastcat-last readme [] cat_readme (list_files ∷ []) nothing_run cat_readme-CatRun
      (refl, tt) (list_files_other, tt) refl

not_yet_called_test : (sys_getlastcat true nothing_run).1 ≡ some not_yet_called
unfolding sys_getlastcat
not_yet_called_test = refl
