-- ===== src/Wsh/Pipes.antt =====
-- `pipe_dealer` of p3/wsh.c: the pipes and the processes of a pipeline. The descriptors that pipe
-- picks and the answers of fork are parameters.
pub mod Opened
pub mod Wired
pub mod Run
use cs537projects.Base.{
  ℕ, zero, suc, ◌+◌, ◌-◌, Bool, Option, none, some, List, [], ◌∷◌, ◌++◌, ◌==◌, ltb, if◌then◌else◌,
  get_or, true, false,
}
use cs537projects.Wsh.Line.{split_pipe, num_cmd}

-- An open file: one that the shell has, or an end of a pipe.
pub data File : Type 0 where
  shell_file : ℕ → File
  read_end : ℕ → File
  write_end : ℕ → File

-- The descriptors of a process.
abbrev pub Files : Type 0
Files = ℕ → Option File

-- close(fd)
abbrev pub close : ℕ → Files → Files
close fd t k = if k == fd then none else t k

-- dup2(from, to)
abbrev pub dup2 : ℕ → ℕ → Files → Files
dup2 from to t k = if k == to then t from else t k

-- What pipe(pipefd[i]) opens.
abbrev pub open_pipe : ℕ → ℕ × ℕ → Files → Files
open_pipe i (r, w) t k =
    if k == r then some (read_end i) else (if k == w then some (write_end i) else t k)

abbrev pub cons_pipe : ℕ × ℕ → Option (List (ℕ × ℕ) × Files) → Option (List (ℕ × ℕ) × Files)
cons_pipe p none = none
cons_pipe p (some (pipefd, t)) = some (p ∷ pipefd, t)

-- The `for` that opens the pipes from the `i`-th on: `pipefd`, and `none` is exit(-1).
unfoldable pub open_pipes : ℕ → ℕ → (ℕ → Option (ℕ × ℕ)) → Files → Option (List (ℕ × ℕ) × Files)
open_pipes zero i pipes t = some ([], t)
open_pipes (suc rounds) i pipes t = elim (pipes i) [
  | none ↦ none
  | some p ↦ cons_pipe p (open_pipes rounds (i + 1) pipes (open_pipe i p t))
]

-- The `for` that closes both ends of all pipes.
unfoldable pub close_pipes : List (ℕ × ℕ) → Files → Files
close_pipes [] t = t
close_pipes ((r, w) ∷ pipefd) t = close_pipes pipefd (close w (close r t))

abbrev pub pipe_at : List (ℕ × ℕ) → ℕ → ℕ × ℕ
pipe_at pipefd i = get_or pipefd i (0, 0)

-- The descriptors of the child `i` of `n`: standard input and output, then the pipes closed.
unfoldable pub child_files : ℕ → ℕ → List (ℕ × ℕ) → Files → Files
unfolding close_pipes
child_files n i pipefd t =
    let t' = if ltb 0 i then dup2 (pipe_at pipefd (i - 1)).0 0 t else t in
    close_pipes pipefd (if ltb i (n - 1) then dup2 (pipe_at pipefd i).1 1 t' else t')

-- A child when it calls execvp; its process group is `group`.
pub record Child : Type 0 where
  pub pid : ℕ
  pub group : ℕ
  pub files : Files
  pub argv : List (List ℕ)

-- `pgid`, which is -1 (`none`) or set, in the child.
unfoldable pub child_group : Option ℕ → ℕ → ℕ
child_group none pid = pid
child_group (some pgid) pid = pgid

-- The `for` that forks: whether every fork went well, and the children. `pgid` is the shell's; what a
-- child writes to it stays in the child.
unfoldable pub fork_commands :
    ℕ
    → ℕ
    → Option ℕ
    → (ℕ → Option ℕ)
    → List (ℕ × ℕ)
    → Files
    → List (List (List ℕ))
    → Bool × List Child
unfolding child_files child_group
fork_commands n i pgid forks pipefd t [] = (true, [])
fork_commands n i pgid forks pipefd t (cmd ∷ cmds) =
    let (went_well, more) = fork_commands n (i + 1) pgid forks pipefd t cmds in
    elim (forks i) [
      | none ↦ (false, [])
      | some pid ↦ (
        went_well,
        record {
          pid = pid;
          group = child_group pgid pid;
          files = child_files n i pipefd t;
          argv = cmd;
        }
            ∷ more,
      )
    ]

-- The shell ends before a child is made, ends after these children, or has these children and goes
-- on to wait for them.
pub data Pipeline : Type 0 where
  no_pipe : Pipeline
  no_fork : List Child → Pipeline
  running : List Child → Files → Pipeline

unfoldable pub pipe_dealer :
    (ℕ → Option (ℕ × ℕ)) → (ℕ → Option ℕ) → List (List ℕ) → Files → Pipeline
unfolding open_pipes fork_commands close_pipes
pipe_dealer pipes forks args t =
    let (cmd, cmds) = split_pipe args in
    let n = num_cmd args in
    elim (open_pipes (n - 1) 0 pipes t) [
      | none ↦ no_pipe
      | some (pipefd, t') ↦
          let (went_well, children) = fork_commands n 0 none forks pipefd t' (cmd ∷ cmds) in
          if went_well then running children (close_pipes pipefd t') else no_fork children
    ]
