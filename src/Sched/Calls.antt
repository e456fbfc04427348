-- ===== src/Sched/Calls.antt =====
-- The system calls that p4 adds: `nice` and `getschedstate` of proc.c, and `sys_sleep` of sysproc.c
-- with the timer interrupt of trap.c.
pub mod Sleep
pub mod Nice
use cs537projects.Base.{
  ℕ, zero, suc, ◌+◌, ◌-◌, ◌%◌, ◌^◌, ◌≡◌, Bool, true, false, ◌||◌, Option, none, some, List, [], ◌∷◌,
  map, ltb, if◌then◌else◌, get_elem?,
}
use cs537projects.Base.Int.{ℤ, pos, negsuc, ltb_ℤ, pos_part, neg_part}
use cs537projects.Sched.Table.{Chan, ticks_addr, Proc, Kernel, modify, is_unused, wakeup}
use cs537projects.Sched.Life.{sleep}

abbrev pub set_nice : ℤ → Proc → Proc
set_nice n p = record p { nice = n }

-- `nice` of the process `p` in the slot `cur`; `none` is -1.
unfoldable pub nice : ℕ → Proc → ℤ → Kernel → Option ℤ × Kernel
nice cur p newnice k =
    if ltb_ℤ newnice (pos 0) || ltb_ℤ (pos 20) newnice
    then (none, k)
    else (some p.nice, record k { table = modify cur (set_nice newnice) k.table })

-- `struct pschedinfo`, whose five arrays have an entry for each slot, as one array of entries.
pub record Info : Type 0 where
  pub inuse : ℕ
  pub priority : ℤ
  pub nice : ℤ
  pub pid : ℕ
  pub ticks : ℕ

unfoldable pub fill_info : Proc → Info → Info
fill_info p r =
    if is_unused p.state
    then record r { inuse = 0 }
    else record { inuse = 1; priority = p.priority; nice = p.nice; pid = p.pid; ticks = p.ticks }

unfoldable pub fill_infos : List Proc → List Info → List Info
unfolding fill_info
fill_infos [] rs = rs
fill_infos (p ∷ ps) [] = []
fill_infos (p ∷ ps) (r ∷ rs) = fill_info p r ∷ fill_infos ps rs

-- `none` is the null pointer and the result -1.
unfoldable pub getschedstate : Option (List Info) → Kernel → Option (List Info)
unfolding fill_infos
getschedstate none k = none
getschedstate (some rs) k = some (fill_infos k.table rs)

abbrev pub uint : ℕ → ℕ
uint n = n % 2 ^ 32

-- The conversion of an `int` to `uint` in a comparison.
abbrev pub uint_of : ℤ → ℕ
uint_of n = (pos_part n + (2 ^ 32 - neg_part n)) % 2 ^ 32

-- `curr->sleeptime = n`
abbrev pub set_sleeptime : ℤ → Proc → Proc
set_sleeptime n p = record p { sleeptime = n }

pub data SleepCall : Type 0 where
  returned : SleepCall
  interrupted : SleepCall
  blocked : Kernel → SleepCall

-- One round of the `while` of `sys_sleep`, up to `sleep`; `p` is the process in the slot `cur`.
unfoldable pub sleep_round : ℕ → Proc → ℕ → ℤ → Kernel → SleepCall
unfolding sleep
sleep_round cur p ticks0 n k =
    if ltb (uint (k.ticks + 2 ^ 32 - ticks0)) (uint_of n)
    then (if p.killed then interrupted else blocked (sleep cur ticks_addr k))
    else returned

-- `sys_sleep` up to its first `sleep`.
unfoldable pub sys_sleep : ℕ → Proc → ℤ → Kernel → SleepCall
unfolding sleep_round
sys_sleep cur p n k =
    sleep_round cur p k.ticks n (record k { table = modify cur (set_sleeptime n) k.table })

-- The timer interrupt on cpu 0: `ticks++; wakeup(&ticks)`.
unfoldable pub timer_interrupt : Kernel → Kernel
unfolding wakeup
timer_interrupt k = wakeup ticks_addr (record k { ticks = uint (k.ticks + 1) })
