-- ===== src/Wsh/Pipes/Run.antt =====
-- A whole run of pipe_dealer of p3/wsh.c: how it ends, and what the processes hold then.
use cs537projects.Base.{
  ℕ, suc, ◌+◌, ◌-◌, ◌<◌, ◌≡◌, refl, ap, sym, ◌∙◌, subst, Bool, true, false, Option, none, some,
  List, [], ◌∷◌, length, if◌then◌else◌, Bool-cases, Option-cases, inl, inr, arith,
}
use cs537projects.Wsh.Line.{split_pipe, num_cmd, split_pipe-joined}
use cs537projects.Wsh.Pipes.{
  File, Files, open_pipes, close_pipes, child_files, Child, child_group, fork_commands, Pipeline,
  no_pipe, no_fork, running, pipe_dealer,
}
use cs537projects.Wsh.Pipes.Opened.{
  PicksFree, is_end, Opened, OpenedBy, close_pipes_lem, open_pipes-OpenedBy,
}
use cs537projects.Wsh.Pipes.Wired.{wired, child_files-wired}

-- Children from the `i`-th of `n` on, one for each of the first commands: wired to their neighbours,
-- and each the leader of a process group of its own.
abbrev pub Wires : Files → ℕ → ℕ → List (List (List ℕ)) → List Child → Type 0
Wires t n i cmds [] = Unit {0}
Wires t n i [] (c ∷ cs) = ⊥
Wires t n i (cmd ∷ cmds) (c ∷ cs) =
    ((k : ℕ) → c.files k ≡ wired t n i k)
    × (c.group ≡ c.pid)
    × (c.argv ≡ cmd)
    × Wires t n (i + 1) cmds cs

-- How a run may end: a pipe or a fork failed, or there is a child for each command and the shell has
-- the descriptors again that it had.
abbrev pub RunsAs :
    (ℕ → Option (ℕ × ℕ)) → (ℕ → Option ℕ) → Files → ℕ → List (List (List ℕ)) → Pipeline → Type 0
RunsAs pipes forks t n cmds no_pipe = (j : ℕ) × (j < n - 1) × (pipes j ≡ none)
RunsAs pipes forks t n cmds (no_fork children) =
    Wires t n 0 cmds children × (forks (length children) ≡ none)
RunsAs pipes forks t n cmds (running children files) =
    Wires t n 0 cmds children × (length children ≡ n) × ((k : ℕ) → files k ≡ t k)

abbrev ForkedBy : (ℕ → Option ℕ) → Files → ℕ → ℕ → List (List (List ℕ)) → Bool → List Child → Type 0
ForkedBy forks t n i cmds true children =
    Wires t n i cmds children × (length children ≡ length cmds)
ForkedBy forks t n i cmds false children =
    Wires t n i cmds children × (forks (i + length children) ≡ none)

ForkedBy-cons :
    (forks : ℕ → Option ℕ) (t : Files) (n i : ℕ) (cmd : List (List ℕ)) (cmds : List (List (List ℕ)))
    (c : Child) (went_well : Bool) (cs : List Child)
    → ((k : ℕ) → c.files k ≡ wired t n i k)
    → c.group ≡ c.pid
    → c.argv ≡ cmd
    → ForkedBy forks t n (i + 1) cmds went_well cs
    → ForkedBy forks t n i (cmd ∷ cmds) went_well (c ∷ cs)
ForkedBy-cons forks t n i cmd cmds c true cs files group argv (wires, len) =
    ((files, group, argv, wires), ap suc len)
ForkedBy-cons forks t n i cmd cmds c false cs files group argv (wires, fails) =
    let e : i + suc (length cs) ≡ i + 1 + length cs = omega arith in
    ((files, group, argv, wires), ap forks e ∙ fails)

fork_commands-ForkedBy :
    (forks : ℕ → Option ℕ) (n i : ℕ) (pipefd : List (ℕ × ℕ)) (t t' : Files)
    (cmds : List (List (List ℕ)))
    → ((j : ℕ) → j < n → (k : ℕ) → child_files n j pipefd t' k ≡ wired t n j k)
    → i + length cmds ≡ n
    → ForkedBy forks t n i cmds
        (fork_commands n i none forks pipefd t' cmds).0
        (fork_commands n i none forks pipefd t' cmds).1
unfolding fork_commands child_group
fork_commands-ForkedBy forks n i pipefd t t' [] files count = (tt, refl)
fork_commands-ForkedBy forks n i pipefd t t' (cmd ∷ cmds) files count =
    elim (Option-cases (forks i)) [
      | inl fails ↦
          let e : i + 0 ≡ i = omega arith in rw (fails, fork_commands) (tt, ap forks e ∙ fails)
      | inr (pid, at) ↦
          rw (at, fork_commands)
            (ForkedBy-cons forks t n i cmd cmds
              (record { pid = pid; group = pid; files = child_files n i pipefd t'; argv = cmd })
              (fork_commands n (i + 1) none forks pipefd t' cmds).0
              (fork_commands n (i + 1) none forks pipefd t' cmds).1 (files i (omega (arith, count)))
              refl refl
              (fork_commands-ForkedBy forks n (i + 1) pipefd t t' cmds files
                (omega (arith, count))))
    ]

-- The files of the shell after it has closed the pipes.
closed-shell :
    (pipefd : List (ℕ × ℕ)) (t t' : Files) (k : ℕ)
    → Opened 0 pipefd t t'
    → close_pipes pipefd t' k ≡ t k
closed-shell pipefd t t' k opened =
    close_pipes_lem pipefd t' k ∙ elim (Bool-cases (is_end k pipefd)) [
      | inl among ↦ rw among (sym (opened.1 k among))
      | inr other ↦ rw other (opened.0 k other)
    ]

finish : List (ℕ × ℕ) → Files → Bool → List Child → Pipeline
unfolding close_pipes
finish pipefd t' went_well children =
    if went_well then running children (close_pipes pipefd t') else no_fork children

finish-RunsAs :
    (pipes : ℕ → Option (ℕ × ℕ)) (forks : ℕ → Option ℕ) (t t' : Files) (pipefd : List (ℕ × ℕ))
    (n : ℕ) (cmds : List (List (List ℕ))) (went_well : Bool) (children : List Child)
    → Opened 0 pipefd t t'
    → length cmds ≡ n
    → ForkedBy forks t n 0 cmds went_well children
    → RunsAs pipes forks t n cmds (finish pipefd t' went_well children)
unfolding finish
finish-RunsAs pipes forks t t' pipefd n cmds true children opened count (wires, len) =
    (wires, len ∙ count, λ k. closed-shell pipefd t t' k opened)
finish-RunsAs pipes forks t t' pipefd n cmds false children opened count (wires, fails) =
    let e : length children ≡ 0 + length children = omega arith in (wires, ap forks e ∙ fails)

-- A run of pipe_dealer from a shell with standard input and output open, when pipe picks descriptors
-- that are not in use. If it ends early, one of the pipes or the next fork failed. Otherwise there is
-- a child for each command: it reads from the pipe before it and writes to the one behind it, has no
-- other end of a pipe, and is in a process group of its own; the shell has no end of a pipe left.
pub pipe_dealer-RunsAs :
    (pipes : ℕ → Option (ℕ × ℕ)) (forks : ℕ → Option ℕ) (args : List (List ℕ)) (t : Files)
    (a b : File)
    → t 0 ≡ some a
    → t 1 ≡ some b
    → PicksFree (num_cmd args - 1) 0 pipes t
    → RunsAs pipes forks t
        (num_cmd args)
        ((split_pipe args).0 ∷ (split_pipe args).1)
        (pipe_dealer pipes forks args t)
unfolding pipe_dealer finish
pipe_dealer-RunsAs pipes forks args t a b input output free =
    let n = num_cmd args in
    let known = open_pipes-OpenedBy (n - 1) 0 pipes t free in
    let count : suc (length (split_pipe args).1) ≡ n = omega (arith, (split_pipe-joined args).1) in
    elim (Option-cases (open_pipes (n - 1) 0 pipes t)) [
      | inl fails ↦
          let (j, bound, none_there) = subst (λ o. OpenedBy (n - 1) 0 pipes t o) fails known in
          rw (fails, pipe_dealer) (j, omega (arith, bound), none_there)
      | inr ((pipefd, t'), at) ↦
          let (len, opened) : OpenedBy (n - 1) 0 pipes t (some (pipefd, t')) =
            subst (λ o. OpenedBy (n - 1) 0 pipes t o) at known in
          let cmds = (split_pipe args).0 ∷ (split_pipe args).1 in
          rw (at, pipe_dealer)
            (finish-RunsAs pipes forks t t' pipefd n cmds
              (fork_commands n 0 none forks pipefd t' cmds).0
              (fork_commands n 0 none forks pipefd t' cmds).1 opened count
              (fork_commands-ForkedBy forks n 0 pipefd t t' cmds
                (λ j h k. child_files-wired n pipefd t t' a b input output opened len j h k)
                (omega (arith, count))))
    ]
