-- ===== src/Wsh/Jobs.antt =====
-- The job table of p3/wsh.c: `ids`, `job_arr` and `curr_fg_id`, and what works on them. The results
-- of waitpid are parameters. `none` is a read or a write through NULL or outside `job_arr`.
pub mod Invariant
pub mod Least
use cs537projects.Base.{
  ℕ, zero, suc, ◌+◌, ◌-◌, ◌≡◌, Bool, true, false, ◌&&◌, ◌||◌, Option, none, some, List, [], ◌∷◌,
  ◌==◌, if◌then◌else◌, get_or, set, replicate,
}

-- struct Job
pub record Job : Type 0 where
  pub id : ℕ
  pub command : List ℕ
  pub job_status : ℕ
  pub pid : ℕ
  pub pgid : ℕ

abbrev pub foreground : ℕ
foreground = 0

abbrev pub background : ℕ
background = 1

abbrev pub stopped : ℕ
stopped = 2

-- 256 entries each; `none` in `curr_fg_id` is -1.
pub record Shell : Type 0 where
  pub ids : List ℕ
  pub job_arr : List (Option Job)
  pub curr_fg_id : Option ℕ

abbrev pub max_jobs : ℕ
max_jobs = 256

abbrev pub start : Shell
start = record { ids = replicate max_jobs 0; job_arr = replicate max_jobs none; curr_fg_id = none }

abbrev pub job_at : Shell → ℕ → Option Job
job_at sh i = get_or sh.job_arr i none

-- A pointer of `job_arr` and the mark in `ids`.
abbrev pub put_job : ℕ → ℕ → Option Job → Shell → Shell
put_job i mark o sh = record sh { ids = set sh.ids i mark; job_arr = set sh.job_arr i o }

unfoldable pub find_free : List ℕ → Option ℕ
find_free [] = none
find_free (x ∷ xs) =
    let rest = find_free xs in
    if x == 0 then some 0 else elim rest [ none ↦ none | some i ↦ some (suc i) ]

-- `setjobid`: 0 when all ids are taken.
unfoldable pub setjobid : Shell → ℕ × Shell
unfolding find_free
setjobid sh = elim (find_free sh.ids) [
  | none ↦ (0, sh)
  | some i ↦ (suc i, record sh { ids = set sh.ids i 1 })
]

unfoldable pub add_job : ℕ → List ℕ → ℕ → ℕ → Shell → Option Shell
add_job zero argument status pid sh = none
add_job (suc i) argument status pid sh = some (record sh {
  job_arr = set sh.job_arr i (
      some (record { id = suc i; command = argument; job_status = status; pid = pid; pgid = pid }));
})

-- The parent's side of `exec_cmds` for a command that it forked.
unfoldable pub launch : List ℕ → ℕ → ℕ → Shell → Option Shell
unfolding setjobid add_job
launch input status pid sh =
    let (id, claimed) = setjobid sh in
    elim (add_job id input status pid claimed) [
      | none ↦ none
      | some added ↦
          some (if status == foreground then record added { curr_fg_id = some id } else added)
    ]

-- The body of the loop of `remove_jobs`; `reaped` says for which pids waitpid is positive.
unfoldable pub remove_job : (ℕ → Bool) → ℕ → Shell → Option Shell
remove_job reaped i sh =
    if get_or sh.ids i 0 == 1
    then (elim (job_at sh i) [
      | none ↦ none
      | some j ↦ some (if reaped j.pid then put_job i 0 none sh else sh)
    ])
    else some sh

unfoldable pub remove_from : (ℕ → Bool) → ℕ → ℕ → Shell → Option Shell
unfolding remove_job
remove_from reaped zero i sh = some sh
remove_from reaped (suc rounds) i sh = elim (remove_job reaped i sh) [
  | none ↦ none
  | some next ↦ remove_from reaped rounds (suc i) next
]

unfoldable pub remove_jobs : (ℕ → Bool) → Shell → Option Shell
unfolding remove_from
remove_jobs reaped sh = remove_from reaped max_jobs 0 sh

-- `fg_remove`, also the handler of SIGCHLD; `exited` is WIFEXITED.
unfoldable pub fg_remove : Bool → Shell → Shell
fg_remove exited sh =
    record (elim sh.curr_fg_id [
      | none ↦ sh
      | some id ↦ elim (job_at sh (id - 1)) [
        | none ↦ sh
        | some j ↦ if (j.job_status == foreground) && exited then put_job (id - 1) 0 none sh else sh
      ]
    ]) { curr_fg_id = none }

-- `job_arr[i]->job_status = status`
unfoldable pub set_status : ℕ → ℕ → Shell → Shell
set_status i status sh = elim (job_at sh i) [
  | none ↦ sh
  | some j ↦ record sh { job_arr = set sh.job_arr i (some (record j { job_status = status })) }
]

-- For the ids from 1 to 256.
unfoldable pub put_background : ℕ → Shell → Shell
unfolding set_status
put_background id sh = elim (job_at sh (id - 1)) [
  | none ↦ sh
  | some j ↦ if j.job_status == stopped then set_status (id - 1) background sh else sh
]

-- `stopped_again` is WIFSTOPPED.
unfoldable pub put_foreground : Bool → ℕ → Shell → Shell
unfolding set_status
put_foreground stopped_again id sh =
    set_status (id - 1) (if stopped_again then stopped else foreground) sh

unfoldable pub sigint_handler : Shell → Shell
unfolding set_status
sigint_handler sh = elim sh.curr_fg_id [ none ↦ sh | some id ↦ set_status (id - 1) foreground sh ]

unfoldable pub sigtstp_handler : Shell → Shell
unfolding set_status
sigtstp_handler sh = elim sh.curr_fg_id [ none ↦ sh | some id ↦ set_status (id - 1) stopped sh ]

-- The loops of "fg" and "bg" without an id, from the index `n - 1` down.
unfoldable pub last_with : (Job → Bool) → ℕ → Shell → Option ℕ
last_with p zero sh = none
last_with p (suc i) sh =
    let rest = last_with p i sh in
    elim (job_at sh i) [
      | none ↦ rest
      | some j ↦ if (get_or sh.ids i 0 == 1) && p j then some j.id else rest
    ]

-- `target_id` of "fg" without an id, and with one.
unfoldable pub fg_target : Option ℕ → Shell → Option ℕ
unfolding last_with
fg_target (some n) sh = some n
fg_target none sh =
    last_with (λ j. (j.job_status == background) || (j.job_status == stopped)) max_jobs sh

unfoldable pub fg : Bool → Bool → Option ℕ → Shell → Shell
unfolding put_foreground fg_remove fg_target
fg stopped_again exited target sh = elim (fg_target target sh) [
  | none ↦ fg_remove exited (record sh { curr_fg_id = none })
  | some n ↦ fg_remove exited (record (put_foreground stopped_again n sh) { curr_fg_id = some n })
]

unfoldable pub bg : Option ℕ → Shell → Shell
unfolding put_background last_with
bg (some n) sh = put_background n sh
bg none sh = elim (last_with (λ j. j.job_status == stopped) max_jobs sh) [
  | none ↦ sh
  | some n ↦ put_background n sh
]
