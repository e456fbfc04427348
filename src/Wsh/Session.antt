-- ===== src/Wsh/Session.antt =====
-- The loop of main of p3/wsh.c over its input lines, from the keyboard or, in the same way, from a
-- file, up to the end of the input.
pub mod Safe
use cs537projects.Base.{
  ℕ, ◌+◌, ◌≡◌, ◌≢◌, refl, subst, ap, ◌∙◌, sym, Bool, true, false, not, ◌&&◌, ◌||◌, Option, none,
  some, List, [], ◌∷◌, ◌==◌, if◌then◌else◌, length, Bool-cases, Option-cases, inl, inr, ◌⊎◌,
}
use cs537projects.Base.Int.{pos, negsuc, ltb_ℤ}
use cs537projects.CString.{str_eq, atoi}
use cs537projects.Wsh.Jobs.{launch, max_jobs, Shell, remove_jobs, find_free}
use cs537projects.Wsh.Jobs.Invariant.{JobsOk, Fine, remove_jobs-Fine}
use cs537projects.Wsh.Line.{split_args, bar}
use cs537projects.Wsh.Command.{
  exec_jobs, list_jobs, exec_builtin, exec_program, word_exit, word_cd, word_jobs, word_fg, word_bg,
  Answers, Outcome, exits, fault, pipeline, goes_on, exec_cmds, word_fg, word_bg, Kept,
  exec_cmds-Kept,
}

-- A line with its newline, what the system answers during it, and which pids waitpid reaps before.
pub record Turn : Type 0 where
  pub input : List ℕ
  pub answers : Answers
  pub reaped : ℕ → Bool

-- `input_bkup`
abbrev pub without_newline : List ℕ → List ℕ
without_newline [] = []
without_newline (c ∷ []) = []
without_newline (c ∷ d ∷ s) = c ∷ without_newline (d ∷ s)

-- `pipe_indicator`
unfoldable pub has_bar : List (List ℕ) → Bool
unfolding str_eq
has_bar [] = false
has_bar (w ∷ ws) = str_eq w bar || has_bar ws

-- "&"
abbrev ampersand : List ℕ
ampersand = b'&' ∷ []

-- `bg_indicator`
unfoldable pub ends_background : List (List ℕ) → Bool
unfolding str_eq
ends_background [] = false
ends_background (w ∷ []) = str_eq w ampersand
ends_background (w ∷ v ∷ ws) = ends_background (v ∷ ws)

-- The arguments up to the NULL that takes the place of a final "&".
unfoldable pub before_background : List (List ℕ) → List (List ℕ)
unfolding str_eq
before_background [] = []
before_background (w ∷ []) = if str_eq w ampersand then [] else w ∷ []
before_background (w ∷ v ∷ ws) = w ∷ before_background (v ∷ ws)

-- pipe_dealer exits when a pipe or fork fails, and else waits for its processes; before that, with a
-- final "&", it compares the NULL, which it counts.
abbrev pub after_pipeline : Bool → Bool → Outcome → Outcome
after_pipeline background pipes_ok (exits code) = exits code
after_pipeline background pipes_ok fault = fault
after_pipeline background pipes_ok (pipeline left) =
    if background then fault else (if pipes_ok then goes_on left [] else exits (negsuc 0))
after_pipeline background pipes_ok (goes_on left printed) = goes_on left printed

-- "fg" or "bg" with a second word that is no id: job_arr is read out of its bounds. The NULL in place
-- of a final "&" counts as the second word too, and atoi follows it.
unfoldable pub bad_target : List (List ℕ) → Bool
unfolding str_eq atoi
bad_target [] = false
bad_target (w ∷ []) = false
bad_target (w ∷ v ∷ []) =
    (str_eq w word_fg || str_eq w word_bg) && (ltb_ℤ (atoi v) (pos 1) || ltb_ℤ (pos 256) (atoi v))
bad_target (w ∷ v ∷ u ∷ ws) = false

-- exec_cmds for the words of a line.
unfoldable pub run_words : Turn → List (List ℕ) → Shell → Outcome
unfolding exec_cmds has_bar ends_background before_background bad_target
run_words t args sh =
    let background = ends_background args in
    let outcome =
      exec_cmds t.answers (length args) (has_bar args) (if background then 1 else 0)
        (without_newline t.input) (before_background args) sh in
    if bad_target args then fault else after_pipeline background t.answers.pipes_ok outcome

-- One round of the loop for the words of the line; without words args[-1] is compared.
unfoldable pub run_args : Turn → List (List ℕ) → Shell → Outcome
unfolding remove_jobs run_words
run_args t [] sh = fault
run_args t (w ∷ ws) sh = elim (remove_jobs t.reaped sh) [
  | none ↦ fault
  | some left ↦ run_words t (w ∷ ws) left
]

unfoldable pub run_line : Turn → Shell → Outcome
unfolding split_args run_args
run_line t sh = run_args t (split_args t.input) sh

unfoldable pub run_lines : List Turn → Shell → Outcome
unfolding run_line
run_lines [] sh = exits (pos 0)
run_lines (t ∷ turns) sh = elim (run_line t sh) [
  | exits code ↦ exits code
  | fault ↦ fault
  | pipeline left ↦ run_lines turns left
  | goes_on left printed ↦ run_lines turns left
]

-- A word stands before a final "&", a pipeline has none, and a word behind "fg" or "bg" is an id.
abbrev pub Command : List (List ℕ) → Type 0
Command args =
    (before_background args ≢ [])
    × (((has_bar args && ends_background args) ≡ false) × (bad_target args ≡ false))

-- In every round an id is free once the ended jobs are removed.
abbrev pub Roomy : List Turn → Shell → Type 0
Roomy [] sh = Unit {0}
Roomy (t ∷ turns) sh =
    ((left : Shell) → remove_jobs t.reaped sh ≡ some left → find_free left.ids ≢ none)
    × ((left : Shell) (printed : List (ℕ × List ℕ))
        → run_line t sh ≡ goes_on left printed
        → Roomy turns left)

abbrev pub Commands : List Turn → Type 0
Commands [] = Unit {0}
Commands (t ∷ turns) = Command (split_args t.input) × Commands turns
