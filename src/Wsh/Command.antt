-- ===== src/Wsh/Command.antt =====
-- `exec_cmds` of p3/wsh.c: what the shell does with the words of a line. The results of chdir, fork,
-- waitpid and of the pipeline's processes are parameters.
use cs537projects.Base.{
  ℕ, zero, suc, ◌+◌, ◌≡◌, ap, subst, Bool, true, false, not, ◌&&◌, ◌||◌, Option, none, some, List,
  [], ◌∷◌, ◌==◌, if◌then◌else◌, get_or, arith, ==_iff, ◌≢◌, Bool-cases, Option-cases, inl, inr,
}
use cs537projects.Base.Int.{ℤ, pos, negsuc, pos_part}
use cs537projects.CString.{str_eq, atoi}
use cs537projects.Wsh.Jobs.{
  find_free, setjobid, add_job, Shell, job_at, fg, bg, launch, max_jobs, background, stopped,
}
use cs537projects.Wsh.Jobs.Invariant.{
  JobsOk, SlotOk, slot, launched, launch-JobsOk, fg-JobsOk, bg-JobsOk,
}

-- What the system answers during one line; `pipes_ok` tells whether all pipe and fork calls of
-- pipe_dealer succeed.
pub record Answers : Type 0 where
  pub chdir_ok : Bool
  pub stopped_again : Bool
  pub exited : Bool
  pub fork_pid : Option ℕ
  pub waited : Bool
  pub pipes_ok : Bool

-- The shell ends, follows a null pointer, runs a pipeline, or goes on with a table and has printed
-- the jobs.
pub data Outcome : Type 0 where
  exits : ℤ → Outcome
  fault : Outcome
  pipeline : Shell → Outcome
  goes_on : Shell → List (ℕ × List ℕ) → Outcome

abbrev pub word_exit : List ℕ
word_exit = b'e' ∷ b'x' ∷ b'i' ∷ b't' ∷ []

abbrev pub word_cd : List ℕ
word_cd = b'c' ∷ b'd' ∷ []

abbrev pub word_jobs : List ℕ
word_jobs = b'j' ∷ b'o' ∷ b'b' ∷ b's' ∷ []

abbrev pub word_fg : List ℕ
word_fg = b'f' ∷ b'g' ∷ []

abbrev pub word_bg : List ℕ
word_bg = b'b' ∷ b'g' ∷ []

-- The loop of "jobs" from the index `i` on; `none` is a read through NULL.
unfoldable pub list_jobs : ℕ → ℕ → Shell → Option (List (ℕ × List ℕ))
list_jobs zero i sh = some []
list_jobs (suc rounds) i sh =
    let rest = list_jobs rounds (i + 1) sh in
    if get_or sh.ids i 0 == 1
    then (elim (job_at sh i) [
      | none ↦ none
      | some j ↦
          if (j.job_status == background) || (j.job_status == stopped)
          then (elim rest [ none ↦ none | some l ↦ some ((j.id, j.command) ∷ l) ])
          else rest
    ])
    else rest

unfoldable pub exec_jobs : Shell → Outcome
unfolding list_jobs
exec_jobs sh = elim (list_jobs max_jobs 0 sh) [ none ↦ fault | some l ↦ goes_on sh l ]

-- `atoi(args[1])`, for a second word that is an id from 1 to 256.
abbrev target_of : ℕ → List (List ℕ) → Option ℕ
target_of num_arg rest = if num_arg == 1 then none else some (pos_part (atoi (get_or rest 0 [])))

-- A command that is no built-in one: the parent's side.
unfoldable pub exec_program : Answers → Bool → ℕ → List ℕ → Shell → Outcome
unfolding launch
exec_program a piped status input sh = if piped then pipeline sh else (elim a.fork_pid [
  | none ↦ exits (negsuc 0)
  | some pid ↦ elim (launch input status pid sh) [
    | none ↦ fault
    | some added ↦ if (status == 0) && not a.waited then exits (negsuc 0) else goes_on added []
  ]
])

-- `num_arg` counts the words of the line, also a final "&"; the words after the first are `rest`.
unfoldable pub exec_builtin : Answers → ℕ → List ℕ → List (List ℕ) → Shell → Option Outcome
unfolding exec_jobs fg bg atoi
exec_builtin a num_arg word rest sh =
    if str_eq word word_exit
    then some (exits (if num_arg == 1 then pos 0 else negsuc 0))
    else (if str_eq word word_cd
        then some (if (num_arg == 2) && a.chdir_ok then goes_on sh [] else exits (negsuc 0))
        else (if str_eq word word_jobs
            then some (if num_arg == 1 then exec_jobs sh else exits (negsuc 0))
            else (if str_eq word word_fg
                then some (
                    if (num_arg == 1) || (num_arg == 2)
                    then goes_on (fg a.stopped_again a.exited (target_of num_arg rest) sh) []
                    else exits (negsuc 0))
                else (if str_eq word word_bg
                    then some (
                        if (num_arg == 1) || (num_arg == 2)
                        then goes_on (bg (target_of num_arg rest) sh) []
                        else exits (negsuc 0))
                    else none))))

-- `strcmp(args[0], ...)` faults on a line without words.
unfoldable pub exec_cmds : Answers → ℕ → Bool → ℕ → List ℕ → List (List ℕ) → Shell → Outcome
unfolding exec_builtin exec_program
exec_cmds a num_arg piped status input [] sh = fault
exec_cmds a num_arg piped status input (word ∷ rest) sh =
    elim (exec_builtin a num_arg word rest sh) [
      | none ↦ exec_program a piped status input sh
      | some o ↦ o
    ]

-- What a line leaves: no null pointer is followed, and ids and jobs agree when the shell goes on.
abbrev pub Kept : Outcome → Type 0
Kept (exits code) = Unit {0}
Kept fault = ⊥
Kept (pipeline sh) = JobsOk sh
Kept (goes_on sh printed) = JobsOk sh

abbrev KeptBy : Option Outcome → Type 0
KeptBy none = Unit {0}
KeptBy (some o) = Kept o

if_Kept : (b : Bool) (x y : Outcome) → Kept x → Kept y → Kept (if b then x else y)
if_Kept true x y h k = h
if_Kept false x y h k = k

if_KeptBy : (b : Bool) (x y : Option Outcome) → KeptBy x → KeptBy y → KeptBy (if b then x else y)
if_KeptBy true x y h k = h
if_KeptBy false x y h k = k

-- The listing of "jobs" ends.
abbrev Listed : Option (List (ℕ × List ℕ)) → Type 0
Listed none = ⊥
Listed (some l) = Unit {0}

if_Listed :
    (b : Bool) (x y : Option (List (ℕ × List ℕ)))
    → Listed x
    → Listed y
    → Listed (if b then x else y)
if_Listed true x y h k = h
if_Listed false x y h k = k

cons_Listed :
    (a : ℕ × List ℕ) (o : Option (List (ℕ × List ℕ)))
    → Listed o
    → Listed (elim o [ none ↦ none | some l ↦ some (a ∷ l) ])
cons_Listed a none h = absurd h
cons_Listed a (some l) h = tt

list_jobs-Listed : (rounds i : ℕ) (sh : Shell) → JobsOk sh → Listed (list_jobs rounds i sh)
unfolding list_jobs
list_jobs-Listed zero i sh ok = tt
list_jobs-Listed (suc rounds) i sh ok =
    let here = slot i sh ok in
    let more = list_jobs-Listed rounds (i + 1) sh ok in
    elim (Bool-cases (get_or sh.ids i 0 == 1)) [
      | inr free ↦ rw (free, list_jobs) more
      | inl marked ↦
          rw (marked, list_jobs)
            (elim (Option-cases (job_at sh i)) [
              | inl no_job ↦
                  let unmarked : get_or sh.ids i 0 ≡ 0 =
                    subst (λ o. SlotOk i (get_or sh.ids i 0) o) no_job here in
                  absurd (omega (arith, unmarked, (==_iff (get_or sh.ids i 0) 1).0 marked))
              | inr (j, at) ↦ rw at (
                  if_Listed ((j.job_status == background) || (j.job_status == stopped)) _ _
                    (cons_Listed (j.id, j.command) (list_jobs rounds (i + 1) sh) more) more)
            ])
    ]

exec_jobs-Kept : (sh : Shell) → JobsOk sh → Kept (exec_jobs sh)
unfolding exec_jobs
exec_jobs-Kept sh ok = elim (Option-cases (list_jobs max_jobs 0 sh)) [
  | inl null_read ↦ absurd (subst Listed null_read (list_jobs-Listed max_jobs 0 sh ok))
  | inr (l, e) ↦ rw (e, exec_jobs) ok
]

launch-free :
    (input : List ℕ) (status pid : ℕ) (sh : Shell)
    → find_free sh.ids ≢ none
    → launch input status pid sh ≢ none
unfolding launch setjobid add_job
launch-free input status pid sh room e = elim (Option-cases (find_free sh.ids)) [
  | inl full ↦ room full
  | inr (i, at) ↦ absurd (cc (ap (launched input status pid sh) at, e))
]

exec_program-Kept :
    (a : Answers) (piped : Bool) (status : ℕ) (input : List ℕ) (sh : Shell)
    → JobsOk sh
    → find_free sh.ids ≢ none
    → Kept (exec_program a piped status input sh)
unfolding exec_program
exec_program-Kept a true status input sh ok room = ok
exec_program-Kept a false status input sh ok room = elim (Option-cases a.fork_pid) [
  | inl failed ↦ rw (failed, exec_program) tt
  | inr (pid, e) ↦
      rw (e, exec_program)
        (elim (Option-cases (launch input status pid sh)) [
          | inl full ↦ absurd (launch-free input status pid sh room full)
          | inr (added, l) ↦ rw l (
              if_Kept ((status == 0) && not a.waited) _ _ tt
                (launch-JobsOk input status pid sh added ok l))
        ])
]

exec_builtin-KeptBy :
    (a : Answers) (num_arg : ℕ) (word : List ℕ) (rest : List (List ℕ)) (sh : Shell)
    → JobsOk sh
    → KeptBy (exec_builtin a num_arg word rest sh)
unfolding exec_builtin
exec_builtin-KeptBy a num_arg word rest sh ok = if_KeptBy (str_eq word word_exit) _ _ tt (
    if_KeptBy (str_eq word word_cd) _ _ (if_Kept ((num_arg == 2) && a.chdir_ok) _ _ ok tt) (
      if_KeptBy (str_eq word word_jobs) _ _ (if_Kept (num_arg == 1) _ _ (exec_jobs-Kept sh ok) tt) (
        if_KeptBy (str_eq word word_fg) _ _
          (if_Kept ((num_arg == 1) || (num_arg == 2)) _ _
            (fg-JobsOk a.stopped_again a.exited (target_of num_arg rest) sh ok) tt)
          (if_KeptBy (str_eq word word_bg) _ _
            (if_Kept ((num_arg == 1) || (num_arg == 2)) _ _
              (bg-JobsOk (target_of num_arg rest) sh ok) tt)
            tt))))

-- A line with a word, whatever the answers of the system, on a table in which ids and jobs agree and
-- an id is free: the shell follows no null pointer in its tables, and if it goes on, ids and jobs agree.
pub exec_cmds-Kept :
    (a : Answers) (num_arg : ℕ) (piped : Bool) (status : ℕ) (input word : List ℕ)
    (rest : List (List ℕ)) (sh : Shell)
    → JobsOk sh
    → find_free sh.ids ≢ none
    → Kept (exec_cmds a num_arg piped status input (word ∷ rest) sh)
unfolding exec_cmds
exec_cmds-Kept a num_arg piped status input word rest sh ok room =
    let known = exec_builtin-KeptBy a num_arg word rest sh ok in
    elim (Option-cases (exec_builtin a num_arg word rest sh)) [
      | inl other ↦ rw (other, exec_cmds) (exec_program-Kept a piped status input sh ok room)
      | inr (o, e) ↦ rw (e, exec_cmds) (subst KeptBy e known)
    ]
