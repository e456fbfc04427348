-- ===== src/Wsh/Jobs/Invariant.antt =====
-- `ids` and `job_arr` of p3/wsh.c agree after any operations on the job table.
use cs537projects.Base.{
  ℕ, zero, suc, ◌+◌, ◌-◌, ◌<◌, ◌≤◌, ◌≡◌, refl, sym, ap, ◌∙◌, subst, Bool, ◌&&◌, Option, none, some,
  List, [], ◌∷◌, arith, ◌==◌, if◌then◌else◌, get_or, set, replicate, Bool-cases, Option-cases, inl,
  inr, ==_iff,
}
use cs537projects.Wsh.Jobs.{
  Job, Shell, start, job_at, put_job, setjobid, find_free, add_job, launch, remove_job, remove_from,
  remove_jobs, fg_remove, set_status, put_background, put_foreground, sigint_handler,
  sigtstp_handler, fg, fg_target, bg, last_with, foreground, background, stopped, max_jobs,
}

-- An id is marked just if the table has a job, and the job has that id.
abbrev pub SlotOk : ℕ → ℕ → Option Job → Type 0
SlotOk i mark none = mark ≡ 0
SlotOk i mark (some j) = (mark ≡ 1) × (j.id ≡ suc i)

abbrev pub SlotsOk : ℕ → List ℕ → List (Option Job) → Type 0
SlotsOk b [] [] = Unit {0}
SlotsOk b [] (o ∷ os) = ⊥
SlotsOk b (x ∷ xs) [] = ⊥
SlotsOk b (x ∷ xs) (o ∷ os) = SlotOk b x o × SlotsOk (suc b) xs os

abbrev pub JobsOk : Shell → Type 0
JobsOk sh = SlotsOk 0 sh.ids sh.job_arr

slot_at :
    (b i : ℕ) (xs : List ℕ) (os : List (Option Job))
    → SlotsOk b xs os
    → SlotOk (b + i) (get_or xs i 0) (get_or os i none)
slot_at b i [] [] h = refl
slot_at b i [] (o ∷ os) h = absurd h
slot_at b i (x ∷ xs) [] h = absurd h
slot_at b zero (x ∷ xs) (o ∷ os) h =
    let e : b ≡ b + 0 = omega arith in subst (λ k. SlotOk k x o) e h.0
slot_at b (suc i) (x ∷ xs) (o ∷ os) h =
    let e : suc b + i ≡ b + suc i = omega arith in
    subst (λ k. SlotOk k (get_or xs i 0) (get_or os i none)) e (slot_at (suc b) i xs os h.1)

pub slot : (i : ℕ) (sh : Shell) → JobsOk sh → SlotOk i (get_or sh.ids i 0) (job_at sh i)
slot i sh ok =
    let e : 0 + i ≡ i = omega arith in
    subst (λ k. SlotOk k (get_or sh.ids i 0) (job_at sh i)) e (slot_at 0 i sh.ids sh.job_arr ok)

SlotsOk-set :
    (b i x : ℕ) (o : Option Job) (xs : List ℕ) (os : List (Option Job))
    → SlotsOk b xs os
    → SlotOk (b + i) x o
    → SlotsOk b (set xs i x) (set os i o)
SlotsOk-set b i x o [] [] h new = h
SlotsOk-set b i x o [] (p ∷ os) h new = absurd h
SlotsOk-set b i x o (y ∷ xs) [] h new = absurd h
SlotsOk-set b zero x o (y ∷ xs) (p ∷ os) h new =
    let e : b + 0 ≡ b = omega arith in (subst (λ k. SlotOk k x o) e new, h.1)
SlotsOk-set b (suc i) x o (y ∷ xs) (p ∷ os) h new =
    let e : b + suc i ≡ suc b + i = omega arith in
    (h.0, SlotsOk-set (suc b) i x o xs os h.1 (subst (λ k. SlotOk k x o) e new))

put : (i x : ℕ) (o : Option Job) (sh : Shell) → JobsOk sh → SlotOk i x o → JobsOk (put_job i x o sh)
put i x o sh ok new =
    let e : i ≡ 0 + i = omega arith in
    SlotsOk-set 0 i x o sh.ids sh.job_arr ok (subst (λ k. SlotOk k x o) e new)

set-get_or : (xs : List ℕ) (i : ℕ) → set xs i (get_or xs i 0) ≡ xs
set-get_or [] i = refl
set-get_or (x ∷ xs) zero = refl
set-get_or (x ∷ xs) (suc i) = ap (◌∷◌ x) (set-get_or xs i)

set_status-JobsOk : (i status : ℕ) (sh : Shell) → JobsOk sh → JobsOk (set_status i status sh)
unfolding set_status
set_status-JobsOk i status sh ok =
    let here = slot i sh ok in
    elim (Option-cases (job_at sh i)) [
      | inl no_job ↦ rw (no_job, set_status) ok
      | inr (j, at) ↦
          let marked : SlotOk i (get_or sh.ids i 0) (some j) =
            subst (λ o. SlotOk i (get_or sh.ids i 0) o) at here in
          let new : Option Job = some (record j { job_status = status }) in
          rw (at, set_status)
            (subst (λ xs. SlotsOk 0 xs (set sh.job_arr i new)) (set-get_or sh.ids i)
              (put i (get_or sh.ids i 0) new sh ok marked))
    ]

fg_remove-JobsOk : (exited : Bool) (sh : Shell) → JobsOk sh → JobsOk (fg_remove exited sh)
unfolding fg_remove
fg_remove-JobsOk exited sh ok = elim (Option-cases sh.curr_fg_id) [
  | inl no_id ↦ rw no_id ok
  | inr (id, e) ↦ rw e (elim (Option-cases (job_at sh (id - 1))) [
    | inl no_job ↦ rw no_job ok
    | inr (j, at) ↦ rw at (elim (Bool-cases ((j.job_status == foreground) && exited)) [
      | inl gone ↦ rw gone (put (id - 1) 0 none sh ok refl)
      | inr stays ↦ rw stays ok
    ])
  ])
]

put_background-JobsOk : (id : ℕ) (sh : Shell) → JobsOk sh → JobsOk (put_background id sh)
unfolding put_background
put_background-JobsOk id sh ok = elim (Option-cases (job_at sh (id - 1))) [
  | inl no_job ↦ rw (no_job, put_background) ok
  | inr (j, at) ↦
      rw (at, put_background)
        (elim (Bool-cases (j.job_status == stopped)) [
          | inl was ↦ rw was (set_status-JobsOk (id - 1) background sh ok)
          | inr other ↦ rw other ok
        ])
]

-- Neither NULL nor a broken table.
abbrev pub Fine : Option Shell → Type 0
Fine none = ⊥
Fine (some sh) = JobsOk sh

remove_job-Fine :
    (reaped : ℕ → Bool) (i : ℕ) (sh : Shell) → JobsOk sh → Fine (remove_job reaped i sh)
unfolding remove_job
remove_job-Fine reaped i sh ok =
    let here = slot i sh ok in
    elim (Bool-cases (get_or sh.ids i 0 == 1)) [
      | inl marked ↦ rw marked (elim (Option-cases (job_at sh i)) [
        | inl no_job ↦
            let unmarked : get_or sh.ids i 0 ≡ 0 =
              subst (λ o. SlotOk i (get_or sh.ids i 0) o) no_job here in
            absurd (omega (arith, unmarked, (==_iff (get_or sh.ids i 0) 1).0 marked))
        | inr (j, at) ↦ rw at (elim (Bool-cases (reaped j.pid)) [
          | inl gone ↦ rw gone (put i 0 none sh ok refl)
          | inr stays ↦ rw stays ok
        ])
      ])
      | inr free ↦ rw free ok
    ]

remove_from-Fine :
    (reaped : ℕ → Bool) (rounds i : ℕ) (sh : Shell)
    → JobsOk sh
    → Fine (remove_from reaped rounds i sh)
unfolding remove_from
remove_from-Fine reaped zero i sh ok = ok
remove_from-Fine reaped (suc rounds) i sh ok =
    let step = remove_job-Fine reaped i sh ok in
    elim (Option-cases (remove_job reaped i sh)) [
      | inl fault ↦ absurd (subst Fine fault step)
      | inr (next, e) ↦
          rw (e, remove_from) (remove_from-Fine reaped rounds (suc i) next (subst Fine e step))
    ]

-- On a table in which ids and jobs agree, remove_jobs follows no null pointer, whichever processes
-- have ended, and leaves a table in which they agree.
pub remove_jobs-Fine : (reaped : ℕ → Bool) (sh : Shell) → JobsOk sh → Fine (remove_jobs reaped sh)
unfolding remove_jobs
remove_jobs-Fine reaped sh ok = remove_from-Fine reaped max_jobs 0 sh ok

abbrev claim : Shell → Option ℕ → ℕ × Shell
claim sh free = elim free [ none ↦ (0, sh) | some i ↦ (suc i, record sh { ids = set sh.ids i 1 }) ]

-- `launch` by what the search for a free id gives.
abbrev pub launched : List ℕ → ℕ → ℕ → Shell → Option ℕ → Option Shell
launched input status pid sh free =
    let (id, claimed) = claim sh free in
    elim (add_job id input status pid claimed) [
      | none ↦ none
      | some added ↦
          some (if status == foreground then record added { curr_fg_id = some id } else added)
    ]

pub launch-JobsOk :
    (input : List ℕ) (status pid : ℕ) (sh sh' : Shell)
    → JobsOk sh
    → launch input status pid sh ≡ some sh'
    → JobsOk sh'
unfolding launch setjobid add_job
launch-JobsOk input status pid sh sh' ok e = elim (Option-cases (find_free sh.ids)) [
  | inl full ↦ absurd (cc (ap (launched input status pid sh) full, e))
  | inr (i, at) ↦
      let job : Job = record {
        id = suc i;
        command = input;
        job_status = status;
        pid = pid;
        pgid = pid;
      } in
      subst Fine (sym (ap (launched input status pid sh) at) ∙ e)
        (elim (Bool-cases (status == foreground)) [
          | inl fore ↦ rw fore (put i 1 (some job) sh ok (refl, refl))
          | inr back ↦ rw back (put i 1 (some job) sh ok (refl, refl))
        ])
]

pub fg-JobsOk :
    (again exited : Bool) (target : Option ℕ) (sh : Shell)
    → JobsOk sh
    → JobsOk (fg again exited target sh)
unfolding fg put_foreground
fg-JobsOk again exited target sh ok = elim (Option-cases (fg_target target sh)) [
  | inl no_job ↦ rw (no_job, fg) (fg_remove-JobsOk exited (record sh { curr_fg_id = none }) ok)
  | inr (n, at) ↦
      rw (at, fg)
        (fg_remove-JobsOk exited (record (put_foreground again n sh) { curr_fg_id = some n })
          (set_status-JobsOk (n - 1) (if again then stopped else foreground) sh ok))
]

pub bg-JobsOk : (target : Option ℕ) (sh : Shell) → JobsOk sh → JobsOk (bg target sh)
unfolding bg
bg-JobsOk (some n) sh ok = put_background-JobsOk n sh ok
bg-JobsOk none sh ok = elim (Option-cases (last_with (λ j. j.job_status == stopped) max_jobs sh)) [
  | inl no_job ↦ rw (no_job, bg) ok
  | inr (n, at) ↦ rw (at, bg) (put_background-JobsOk n sh ok)
]

SlotsOk-empty : (n b : ℕ) → SlotsOk b (replicate n 0) (replicate n none)
SlotsOk-empty zero b = tt
SlotsOk-empty (suc n) b = (refl, SlotsOk-empty n (suc b))

-- Both handlers.
abbrev signalled : ℕ → Shell → Option ℕ → Shell
signalled status sh current = elim current [ none ↦ sh | some id ↦ set_status (id - 1) status sh ]

signal-JobsOk :
    (status : ℕ) (sh : Shell) (current : Option ℕ)
    → JobsOk sh
    → JobsOk (signalled status sh current)
signal-JobsOk status sh none ok = ok
signal-JobsOk status sh (some id) ok = set_status-JobsOk (id - 1) status sh ok

-- An id that is given to fg or bg has a place in the table.
abbrev pub InTable : Option ℕ → Type 0
InTable none = Unit {0}
InTable (some n) = (0 < n) × (n ≤ max_jobs)

-- The job table after any sequence of its operations, the signal handlers among them, with any
-- results of waitpid and any ids from 1 to 256; a launch with no free id has no next state.
pub data Reach : Shell → Type 0 where
  begin : Reach start
  launch_step :
      {sh sh' : Shell} (input : List ℕ) (status pid : ℕ)
      → Reach sh
      → launch input status pid sh ≡ some sh'
      → Reach sh'
  remove_step :
      {sh sh' : Shell} (reaped : ℕ → Bool) → Reach sh → remove_jobs reaped sh ≡ some sh' → Reach sh'
  child_step : {sh : Shell} (exited : Bool) → Reach sh → Reach (fg_remove exited sh)
  interrupt_step : {sh : Shell} → Reach sh → Reach (sigint_handler sh)
  stop_step : {sh : Shell} → Reach sh → Reach (sigtstp_handler sh)
  fg_step :
      {sh : Shell} (again exited : Bool) (target : Option ℕ)
      → Reach sh
      → InTable target
      → Reach (fg again exited target sh)
  bg_step : {sh : Shell} (target : Option ℕ) → Reach sh → InTable target → Reach (bg target sh)

-- In every table that the operations reach, an id is marked just if the table has a job for it, and
-- each job stands at its own id.
pub Reach-JobsOk : (sh : Shell) → Reach sh → JobsOk sh
unfolding sigint_handler sigtstp_handler
Reach-JobsOk sh begin = SlotsOk-empty max_jobs 0
Reach-JobsOk sh (launch_step {sh = old} input status pid reach e) =
    launch-JobsOk input status pid old sh (Reach-JobsOk old reach) e
Reach-JobsOk sh (remove_step {sh = old} reaped reach e) =
    subst Fine e (remove_jobs-Fine reaped old (Reach-JobsOk old reach))
Reach-JobsOk sh (child_step {sh = old} exited reach) =
    fg_remove-JobsOk exited old (Reach-JobsOk old reach)
Reach-JobsOk sh (interrupt_step {sh = old} reach) =
    signal-JobsOk foreground old old.curr_fg_id (Reach-JobsOk old reach)
Reach-JobsOk sh (stop_step {sh = old} reach) =
    signal-JobsOk stopped old old.curr_fg_id (Reach-JobsOk old reach)
Reach-JobsOk sh (fg_step {sh = old} again exited target reach _) =
    fg-JobsOk again exited target old (Reach-JobsOk old reach)
Reach-JobsOk sh (bg_step {sh = old} target reach _) = bg-JobsOk target old (Reach-JobsOk old reach)
