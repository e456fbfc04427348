-- ===== src/Sched/Calls/Sleep.antt =====
-- How long `sys_sleep` keeps a process asleep: `wakeup1` counts `sleeptime` down.
use mathlib.Core.Option
use cs537projects.Base.{
  ℕ, zero, suc, ◌+◌, ◌-◌, ◌^◌, ◌<◌, ◌≡◌, refl, ap, ◌∙◌, true, false, Option, some, List, [], ◌∷◌,
  arith, get_elem?, length, ltb, lt→ltb,
}
use cs537projects.Base.Int.{pos, ◌-ℤ◌}
use cs537projects.Sched.Table.{
  Proc, ProcState, sleeping, runnable, Kernel, Chan, ticks_addr, chan_eq, modify, wake_one, wakeup1,
  wakeup,
}
use cs537projects.Sched.Table.Slots.{get_elem?-modify_self, get_elem?-map}
use cs537projects.Sched.Life.{sleep, sleep_on}
use cs537projects.Sched.Calls.{sys_sleep, blocked, set_sleeptime, timer_interrupt, uint, uint_of}

-- The calls of `wakeup1` in a stretch of time, each with its channel, the first one first.
abbrev pub wakeups : List Chan → List Proc → List Proc
wakeups [] t = t
wakeups (c ∷ cs) t = wakeups cs (wakeup1 c t)

wake_one-counts :
    (c : Chan) (p : Proc) (m : ℕ)
    → p.state ≡ sleeping
    → p.sleeptime ≡ pos (suc m)
    → wake_one c p ≡ record p { sleeptime = pos m }
unfolding wake_one ◌-ℤ◌
wake_one-counts c p m s e = ground arith

wake_one-wakes :
    (c : Chan) (p : Proc)
    → p.state ≡ sleeping
    → p.sleeptime ≡ pos 0
    → chan_eq p.chan c ≡ true
    → wake_one c p ≡ record p { state = runnable }
unfolding wake_one
wake_one-wakes c p s e h = ground arith

-- A sleeper with `sleeptime` n + m, after n calls of `wakeup1` on whatever channels, sleeps on with
-- `sleeptime` m.
wakeups_count_down :
    (cs : List Chan) (i m : ℕ) (p : Proc) (t : List Proc)
    → get_elem? t i ≡ some p
    → p.state ≡ sleeping
    → p.sleeptime ≡ pos (length cs + m)
    → get_elem? (wakeups cs t) i ≡ some (record p { sleeptime = pos m })
wakeups_count_down [] i m p t e s h =
    e ∙ ap (λ z. some (record p { sleeptime = z })) (h ∙ ap pos (omega arith))
wakeups_count_down (c ∷ cs) i m p t e s h =
    wakeups_count_down cs i m (record p { sleeptime = pos (length cs + m) }) (wakeup1 c t)
      (get_elem?-map (wake_one c) t i
        ∙ ap (Option.map (wake_one c)) e
        ∙ ap some (wake_one-counts c p (length cs + m) s (h ∙ ap pos (omega arith))))
      s refl

wakeup1_wakes :
    (c : Chan) (i : ℕ) (p : Proc) (t : List Proc)
    → get_elem? t i ≡ some p
    → p.state ≡ sleeping
    → p.sleeptime ≡ pos 0
    → chan_eq p.chan c ≡ true
    → get_elem? (wakeup1 c t) i ≡ some (record p { state = runnable })
wakeup1_wakes c i p t e s z h =
    get_elem?-map (wake_one c) t i
    ∙ ap (Option.map (wake_one c)) e
    ∙ ap some (wake_one-wakes c p s z h)

abbrev pub timer_interrupts : ℕ → Kernel → Kernel
timer_interrupts zero k = k
timer_interrupts (suc n) k = timer_interrupts n (timer_interrupt k)

abbrev pub state_at : ℕ → Kernel → Option ProcState
state_at i k = Option.map (λ (p : Proc). p.state) (get_elem? k.table i)

abbrev tick_chans : ℕ → List Chan
tick_chans zero = []
tick_chans (suc n) = ticks_addr ∷ tick_chans n

length-tick_chans : (n : ℕ) → length (tick_chans n) ≡ n
length-tick_chans zero = refl
length-tick_chans (suc n) = ap suc (length-tick_chans n)

table-timer_interrupts :
    (n : ℕ) (k : Kernel) → (timer_interrupts n k).table ≡ wakeups (tick_chans n) k.table
unfolding timer_interrupt wakeup
table-timer_interrupts zero k = refl
table-timer_interrupts (suc n) k = table-timer_interrupts n (timer_interrupt k)

timer_interrupts-suc :
    (n : ℕ) (k : Kernel)
    → (timer_interrupts (suc n) k).table ≡ wakeup1 ticks_addr (timer_interrupts n k).table
unfolding timer_interrupt wakeup
timer_interrupts-suc zero k = refl
timer_interrupts-suc (suc n) k = timer_interrupts-suc n (timer_interrupt k)

not_over :
    (t n : ℕ)
    → 0 < n
    → n < 2 ^ 31
    → t < 2 ^ 32
    → ltb (uint (t + 2 ^ 32 - t)) (uint_of (pos n)) ≡ true
not_over t n lo hi small = lt→ltb _ _ (omega arith)

-- What `sys_sleep` leaves in the slot of its caller.
sys_sleep-blocks :
    (cur n : ℕ) (p : Proc) (k : Kernel)
    → 0 < n
    → n < 2 ^ 31
    → k.ticks < 2 ^ 32
    → get_elem? k.table cur ≡ some p
    → p.killed ≡ false
    → (k' : Kernel) × (sys_sleep cur p (pos n) k ≡ blocked k')
      × (get_elem? k'.table cur
          ≡ some (record p { sleeptime = pos n; chan = ticks_addr; state = sleeping }))
unfolding sys_sleep sleep
sys_sleep-blocks cur n p k lo hi small e alive =
    let slept : Proc → Proc = λ q. sleep_on ticks_addr q in
    let timed : Proc → Proc = λ q. set_sleeptime (pos n) q in
    (
      sleep cur ticks_addr (record k { table = modify cur timed k.table }),
      rw (not_over k.ticks n lo hi small) (rw alive refl),
      get_elem?-modify_self cur slept (modify cur timed k.table)
          ∙ ap (Option.map slept)
              (get_elem?-modify_self cur timed k.table ∙ ap (Option.map timed) e),
    )

state_at-some :
    (i : ℕ) (k : Kernel) (p : Proc) → get_elem? k.table i ≡ some p → state_at i k ≡ some p.state
state_at-some i k p e = ap (Option.map (λ (q : Proc). q.state)) e

-- For a process that is not killed, `sys_sleep` with 0 < n < 2^31 blocks, with `ticks` below 2^32; if
-- from then on only the timer interrupt calls `wakeup1`, the process is still asleep after n ticks,
-- and it is runnable after n + 1 ticks.
pub sys_sleep-ticks :
    (cur n : ℕ) (p : Proc) (k : Kernel)
    → 0 < n
    → n < 2 ^ 31
    → k.ticks < 2 ^ 32
    → get_elem? k.table cur ≡ some p
    → p.killed ≡ false
    → (k' : Kernel) × (sys_sleep cur p (pos n) k ≡ blocked k')
      × (state_at cur (timer_interrupts n k') ≡ some sleeping)
      × (state_at cur (timer_interrupts (suc n) k') ≡ some runnable)
sys_sleep-ticks cur n p k lo hi small e alive =
    let (k', call, slot) = sys_sleep-blocks cur n p k lo hi small e alive in
    let q : Proc = record p { sleeptime = pos n; chan = ticks_addr; state = sleeping } in
    let later : get_elem? (timer_interrupts n k').table cur
        ≡ some (record q { sleeptime = pos 0 }) =
      ap (λ t. get_elem? t cur) (table-timer_interrupts n k')
      ∙ wakeups_count_down (tick_chans n) cur 0 q k'.table slot refl
          (ap pos (omega (arith, length-tick_chans n))) in
    (
      k',
      call,
      state_at-some cur (timer_interrupts n k') (record q { sleeptime = pos 0 }) later,
      state_at-some cur (timer_interrupts (suc n) k')
          (record q { sleeptime = pos 0; state = runnable })
          (ap (λ t. get_elem? t cur) (timer_interrupts-suc n k')
            ∙ wakeup1_wakes ticks_addr cur (record q { sleeptime = pos 0 })
                (timer_interrupts n k').table later refl refl refl),
    )
