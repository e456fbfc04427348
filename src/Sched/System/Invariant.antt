-- ===== src/Sched/System/Invariant.antt =====
-- What holds of the process table after any sequence of operations.
use mathlib.Core.Option
use cs537projects.Base.{
  ℕ, ◌+◌, ◌-◌, ◌^◌, ◌≡◌, refl, ap, subst, ◌||◌, List, [], ◌∷◌, Option, none, some, Bool-cases, inl,
  inr, ◌==◌, ltb,
}
use cs537projects.Base.Int.{ℤ, pos, ltb_ℤ}
use cs537projects.Sched.Table.{
  Proc, Kernel, Chan, modify, kill, kill_scan, wakeup, set_state, runnable, ticks_addr,
}
use cs537projects.Sched.Table.Slots.{pids, pids-modify_same}
use cs537projects.Sched.Life.{yield, sleep, tidy_up, sleep_on}
use cs537projects.Sched.Scheduler.{dispatch}
use cs537projects.Sched.Calls.{
  nice, sys_sleep, sleep_round, timer_interrupt, set_nice, set_sleeptime, uint, uint_of,
}
use cs537projects.Sched.System.{
  Step, forks, exits, waits, waits_asleep, kills, wakes, yields, sleeps, tidies, nices, sys_sleeps,
  ticks, dispatches, Reach, here, next,
}
use cs537projects.Sched.System.Keeps.{
  PidsOk, same-PidsOk, pids-wakeup1, fork-PidsOk, exit-PidsOk, wait-PidsOk, IfSome, IfWaited,
  IfBlocked,
}

-- An operation on one slot that keeps its pid.
slot-PidsOk :
    (i : ℕ) (f : Proc → Proc) (k : Kernel)
    → ((p : Proc) → (f p).pid ≡ p.pid)
    → PidsOk k
    → PidsOk (record k { table = modify i f k.table })
slot-PidsOk i f k h v = same-PidsOk k _ (pids-modify_same i f k.table h) refl v

abbrev SamePids : List Proc → Option (List Proc) → Type 0
SamePids t none = Unit {0}
SamePids t (some u) = pids u ≡ pids t

SamePids-cons :
    (p : Proc) (t : List Proc) (o : Option (List Proc))
    → SamePids t o
    → SamePids (p ∷ t) (Option.map (◌∷◌ p) o)
SamePids-cons p t none h = tt
SamePids-cons p t (some u) h = ap (◌∷◌ p.pid) h

kill_scan-SamePids : (n : ℕ) (t : List Proc) → SamePids t (kill_scan n t)
unfolding kill_scan
kill_scan-SamePids n [] = tt
kill_scan-SamePids n (p ∷ t) = elim (Bool-cases (p.pid == n)) [
  | inl e ↦ rw e refl
  | inr e ↦ rw e (SamePids-cons p t (kill_scan n t) (kill_scan-SamePids n t))
]

kill-PidsOk : (n : ℕ) (k : Kernel) → PidsOk k → IfSome (kill n k)
unfolding kill
kill-PidsOk n k v = of_scan (kill_scan n k.table) (kill_scan-SamePids n k.table)
  where
    of_scan :
        (o : Option (List Proc))
        → SamePids k.table o
        → IfSome (Option.map (λ (t : List Proc). record k { table = t }) o)
    of_scan none h = tt
    of_scan (some u) h = same-PidsOk k (record k { table = u }) h refl v

wakeup-PidsOk : (c : Chan) (k : Kernel) → PidsOk k → PidsOk (wakeup c k)
unfolding wakeup
wakeup-PidsOk c k v = same-PidsOk k _ (pids-wakeup1 c k.table) refl v

timer-PidsOk : (k : Kernel) → PidsOk k → PidsOk (timer_interrupt k)
unfolding timer_interrupt wakeup
timer-PidsOk k v = same-PidsOk k _ (pids-wakeup1 ticks_addr k.table) refl v

nice-PidsOk : (cur : ℕ) (p : Proc) (n : ℤ) (k : Kernel) → PidsOk k → PidsOk (nice cur p n k).1
unfolding nice
nice-PidsOk cur p n k v = elim (Bool-cases (ltb_ℤ n (pos 0) || ltb_ℤ (pos 20) n)) [
  | inl bad ↦ rw bad v
  | inr good ↦ rw good (slot-PidsOk cur (set_nice n) k (λ q. refl) v)
]

sleep_round-PidsOk :
    (cur : ℕ) (p : Proc) (t : ℕ) (n : ℤ) (k : Kernel)
    → PidsOk k
    → IfBlocked (sleep_round cur p t n k)
unfolding sleep_round sleep
sleep_round-PidsOk cur p t n k v =
    elim (Bool-cases (ltb (uint (k.ticks + 2 ^ 32 - t)) (uint_of n))) [
      | inl more ↦ rw more (elim (Bool-cases p.killed) [
        | inl dead ↦ rw dead tt
        | inr alive ↦ rw alive (slot-PidsOk cur (sleep_on ticks_addr) k (λ q. refl) v)
      ])
      | inr over ↦ rw over tt
    ]

sys_sleep-PidsOk :
    (cur : ℕ) (p : Proc) (n : ℤ) (k : Kernel) → PidsOk k → IfBlocked (sys_sleep cur p n k)
unfolding sys_sleep
sys_sleep-PidsOk cur p n k v =
    sleep_round-PidsOk cur p k.ticks n _ (slot-PidsOk cur (set_sleeptime n) k (λ q. refl) v)

Step-PidsOk :
    (nproc : ℕ) (pages : ℕ → List ℕ) {k k' : Kernel} → Step nproc pages k k' → PidsOk k → PidsOk k'
unfolding yield sleep tidy_up
Step-PidsOk nproc pages {k} (forks cur p copied e) v = fork-PidsOk cur p copied k v
Step-PidsOk nproc pages {k} (exits cur p e h) v = subst IfSome h (exit-PidsOk nproc cur p k v)
Step-PidsOk nproc pages {k} (waits cur p pid e h) v = subst IfWaited h (wait-PidsOk pages cur p k v)
Step-PidsOk nproc pages {k} (waits_asleep cur p e h) v =
    subst IfWaited h (wait-PidsOk pages cur p k v)
Step-PidsOk nproc pages {k} (kills pid h) v = subst IfSome h (kill-PidsOk pid k v)
Step-PidsOk nproc pages {k} (wakes chan) v = wakeup-PidsOk chan k v
Step-PidsOk nproc pages {k} (yields cur) v = slot-PidsOk cur (set_state runnable) k (λ q. refl) v
Step-PidsOk nproc pages {k} (sleeps cur chan) v = slot-PidsOk cur (sleep_on chan) k (λ q. refl) v
Step-PidsOk nproc pages {k} (tidies cur) v =
    slot-PidsOk cur (λ p. record p { chan = Chan.null }) k (λ q. refl) v
Step-PidsOk nproc pages {k} (nices cur p n e) v = nice-PidsOk cur p n k v
Step-PidsOk nproc pages {k} (sys_sleeps cur p n e h) v =
    subst IfBlocked h (sys_sleep-PidsOk cur p n k v)
Step-PidsOk nproc pages {k} ticks v = timer-PidsOk k v
Step-PidsOk nproc pages {k} (dispatches i) v = slot-PidsOk i dispatch k (λ q. refl) v

-- From a table in which no pid other than 0 stands twice and `nextpid` is above every pid, every
-- sequence of forks, exits, waits, kills, wakeups, sleeps, yields, dispatches, timer interrupts and
-- calls of `nice` leads to such a table.
pub Reach-PidsOk :
    (nproc : ℕ) (pages : ℕ → List ℕ) {k k' : Kernel} → Reach nproc pages k k' → PidsOk k → PidsOk k'
Reach-PidsOk nproc pages here v = v
Reach-PidsOk nproc pages (next r s) v = Step-PidsOk nproc pages s (Reach-PidsOk nproc pages r v)
