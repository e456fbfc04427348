-- ===== src/Wsh/Session/Safe.antt =====
-- The loop of main of p3/wsh.c follows no null pointer and ends with an exit.
use cs537projects.Base.{Option, none, some, List}
use cs537projects.Wsh.Command.{Outcome, exits, fault, pipeline, goes_on}
use cs537projects.Wsh.Session.{Turn, run_lines, Command}

abbrev NotPipeline : Outcome → Type 0
NotPipeline (exits code) = Unit {0}
NotPipeline fault = Unit {0}
NotPipeline (pipeline left) = ⊥
NotPipeline (goes_on left printed) = Unit {0}

abbrev NotPipelineBy : Option Outcome → Type 0
NotPipelineBy none = Unit {0}
NotPipelineBy (some o) = NotPipeline o

abbrev pub Ends : Outcome → Type 0
Ends (exits code) = Unit {0}
Ends fault = ⊥
Ends (pipeline left) = ⊥
Ends (goes_on left printed) = ⊥

abbrev next_lines : List Turn → Outcome → Outcome
next_lines turns (exits code) = exits code
next_lines turns fault = fault
next_lines turns (pipeline left) = run_lines turns left
next_lines turns (goes_on left printed) = run_lines turns left
