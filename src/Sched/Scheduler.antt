-- ===== src/Sched/Scheduler.antt =====
-- `scheduler` of p4/xv6-public/proc.c: one pass of its loop over the process table.
use cs537projects.Base.{
  ℕ, zero, suc, ◌+◌, Bool, false, none, some, List, [], ◌∷◌, if◌then◌else◌, get_elem?,
}
use cs537projects.Sched.Table.{Proc, running, is_runnable, Kernel, modify}

-- `p->state = RUNNING; p->ticks++`
abbrev pub dispatch : Proc → Proc
dispatch p = record p { state = running; ticks = p.ticks + 1 }

abbrev runnable_at : ℕ → List Proc → Bool
runnable_at i t = elim (get_elem? t i) [ none ↦ false | some p ↦ is_runnable p.state ]

-- The `for` of `scheduler` over the slots `i`, `i + 1`, …, `n` of them. `run` is what happens from
-- `swtch` into the process until it switches back. The result has the slots that ran, in order.
unfoldable pub pass : (ℕ → Kernel → Kernel) → ℕ → ℕ → Kernel → List ℕ × Kernel
pass run zero i k = ([], k)
pass run (suc n) i k =
    if runnable_at i k.table
    then (let (ran, k') =
          pass run n (i + 1) (run i (record k { table = modify i dispatch k.table })) in
        (i ∷ ran, k'))
    else (let rest = pass run n (i + 1) k in rest)
