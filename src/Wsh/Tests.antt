-- ===== src/Wsh/Tests.antt =====
-- The theorems about the shell at concrete lines and job tables.
use cs537projects.Base.{
  ℕ, subst, ◌≡◌, refl, true, false, none, some, List, [], ◌∷◌, ◌+◌, length, Option, ap, ltb,
  if◌then◌else◌, arith,
}
use cs537projects.CString.{str_eq}
use cs537projects.Wsh.Jobs.{
  Shell, Job, start, launch, setjobid, find_free, add_job, background, fg, put_job,
}
use cs537projects.Wsh.Jobs.Invariant.{Reach, begin, launch_step, fg_step, JobsOk, Reach-JobsOk}
use cs537projects.Wsh.Command.{Answers}
use cs537projects.Wsh.Pipes.{Files, shell_file, pipe_dealer}
use cs537projects.Wsh.Pipes.Opened.{Picked, PicksFree}
use cs537projects.Wsh.Pipes.Run.{RunsAs, pipe_dealer-RunsAs}
use cs537projects.Wsh.Session.{Turn, Command}
use cs537projects.Wsh.Line.{split_pipe, num_cmd, joined, split_pipe-joined}

-- "ls", and the pipeline "ls | wc"
abbrev ls : List ℕ
ls = b'l' ∷ b's' ∷ []

abbrev wc : List ℕ
wc = b'w' ∷ b'c' ∷ []

abbrev pipeline : List (List ℕ)
pipeline = ls ∷ (b'|' ∷ []) ∷ wc ∷ []

split_pipe-joined_example :
    (joined (split_pipe pipeline).0 (split_pipe pipeline).1 ≡ pipeline)
    × (length (split_pipe pipeline).1 + 1 ≡ num_cmd pipeline)
split_pipe-joined_example = split_pipe-joined pipeline

abbrev job : ℕ → ℕ → Job
job i pid = record { id = i; command = ls; job_status = background; pid = pid; pgid = pid }

abbrev one_job : Shell
one_job = put_job 0 1 (some (job 1 40)) start

launched_one : launch ls background 40 start ≡ some one_job
unfolding launch setjobid find_free add_job
launched_one = refl

one_job-Reach : Reach one_job
one_job-Reach = launch_step ls background 40 begin launched_one

Reach-JobsOk_example : JobsOk (fg false true none one_job)
Reach-JobsOk_example =
    Reach-JobsOk (fg false true none one_job) (fg_step false true none one_job-Reach tt)

abbrev answers : Answers
answers = record {
  chdir_ok = true;
  stopped_again = false;
  exited = false;
  fork_pid = some 41;
  waited = true;
  pipes_ok = true;
}

-- "wc &\n"
abbrev wc_behind : Turn
wc_behind = record {
  input = b'w' ∷ b'c' ∷ 32 ∷ b'&' ∷ 10 ∷ [];
  answers = answers;
  reaped = λ pid. false;
}

-- The descriptors 3 and 4 for the pipe of "ls | wc"
abbrev terminal : Files
terminal k = if ltb k 3 then some (shell_file k) else none

abbrev pipe_3_4 : ℕ → Option (ℕ × ℕ)
pipe_3_4 i = some (3, 4)

abbrev pid_100 : ℕ → Option ℕ
pid_100 i = some (100 + i)

abbrev or_pair : Option (ℕ × ℕ) → ℕ × ℕ
or_pair none = (0, 0)
or_pair (some p) = p

pipe_3_4-PicksFree : PicksFree 1 0 pipe_3_4 terminal
pipe_3_4-PicksFree p e =
    subst (λ q. Picked q terminal × Unit {0}) (ap or_pair e) ((refl, refl, omega arith), tt)

pipe_dealer-RunsAs_example :
    RunsAs pipe_3_4 pid_100 terminal 2
      ((ls ∷ []) ∷ (wc ∷ []) ∷ [])
      (pipe_dealer pipe_3_4 pid_100 pipeline terminal)
unfolding num_cmd split_pipe str_eq
pipe_dealer-RunsAs_example =
    pipe_dealer-RunsAs pipe_3_4 pid_100 pipeline terminal (shell_file 0) (shell_file 1) refl refl
      pipe_3_4-PicksFree
