-- ===== src/Sched/Life/Exit.antt =====
-- What `exit` and `wait` promise each other.
use mathlib.Core.Option
use cs537projects.Base.{
  ℕ, zero, suc, ◌+◌, ◌<◌, ◌≡◌, refl, ◌≢◌, ap, sym, ◌∙◌, inl, inr, true, false, Option, none, some,
  List, [], ◌∷◌, if◌then◌else◌, get_elem?, arith, Bool-cases, Option-cases, ◌≤◌, ◌==◌, ℕ_discrete,
}
use cs537projects.Base.Int.{pos, ◌≤ℤ◌}
use cs537projects.Sched.Table.{
  Proc, ProcState, sleeping, runnable, zombie, Chan, proc, Kernel, is_zombie, modify, set_state,
  wake_one, wakeup1,
}
use cs537projects.Sched.Table.Slots.{get_elem?-modify_self, get_elem?-modify_ne, get_elem?-map}
use cs537projects.Sched.Life.{
  reparent, adopt_round, adopt_at, adopt, exit, closed, is_child, parent_chan,
}

abbrev pub parent_at : ℕ → List Proc → Option (Option ℕ)
parent_at j t = Option.map (λ (p : Proc). p.parent) (get_elem? t j)

abbrev pub state_at : ℕ → List Proc → Option ProcState
state_at j t = Option.map (λ (p : Proc). p.state) (get_elem? t j)

parent-wake_one : (c : Chan) (p : Proc) → (wake_one c p).parent ≡ p.parent
unfolding wake_one
parent-wake_one c p = ground arith

parent_at-wakeup1 : (c : Chan) (j : ℕ) (t : List Proc) → parent_at j (wakeup1 c t) ≡ parent_at j t
parent_at-wakeup1 c j [] = refl
parent_at-wakeup1 c zero (p ∷ t) = ap some (parent-wake_one c p)
parent_at-wakeup1 c (suc j) (p ∷ t) = parent_at-wakeup1 c j t

parent_at-modify_same :
    (i j : ℕ) (f : Proc → Proc) (t : List Proc)
    → ((p : Proc) → (f p).parent ≡ p.parent)
    → parent_at j (modify i f t) ≡ parent_at j t
parent_at-modify_same i j f [] h = refl
parent_at-modify_same zero zero f (p ∷ t) h = ap some (h p)
parent_at-modify_same zero (suc j) f (p ∷ t) h = refl
parent_at-modify_same (suc i) zero f (p ∷ t) h = refl
parent_at-modify_same (suc i) (suc j) f (p ∷ t) h = parent_at-modify_same i j f t h

parent_at-adopt_at :
    (i j init : ℕ) (t : List Proc) (p : Proc)
    → parent_at j (adopt_at i init t p) ≡ parent_at j (modify i (adopt init) t)
parent_at-adopt_at i j init t p = elim (Bool-cases (is_zombie p.state)) [
  | inl e ↦ rw e (parent_at-wakeup1 (proc init) j (modify i (adopt init) t))
  | inr e ↦ rw e
]

-- What `exit` does to a parent pointer.
abbrev pub adopted : ℕ → ℕ → Option ℕ → Option ℕ
adopted cur init none = none
adopted cur init (some q) = if q == cur then some init else some q

adopted-of_child :
    (cur init : ℕ) (o : Option ℕ)
    → elim o [ none ↦ false | some q ↦ q == cur ] ≡ true
    → adopted cur init o ≡ some init
adopted-of_child cur init none h = cc
adopted-of_child cur init (some q) h = rw h

adopted-of_other :
    (cur init : ℕ) (o : Option ℕ)
    → elim o [ none ↦ false | some q ↦ q == cur ] ≡ false
    → adopted cur init o ≡ o
adopted-of_other cur init none h = refl
adopted-of_other cur init (some q) h = rw h

adopt_round-some :
    (i cur init : ℕ) (t : List Proc) (p : Proc)
    → get_elem? t i ≡ some p
    → adopt_round i cur init t ≡ (if is_child cur p then adopt_at i init t p else t)
unfolding adopt_round
adopt_round-some i cur init t p e = rw (e, adopt_round)

adopt_round-none :
    (i cur init : ℕ) (t : List Proc) → get_elem? t i ≡ none → adopt_round i cur init t ≡ t
unfolding adopt_round
adopt_round-none i cur init t e = rw (e, adopt_round)

parent_at-some :
    (i : ℕ) (t : List Proc) (p : Proc) → get_elem? t i ≡ some p → parent_at i t ≡ some p.parent
parent_at-some i t p e = ap (Option.map (λ (q : Proc). q.parent)) e

-- The round at the slot `i` changes the parent of the slot `i` alone.
parent_at-round_self :
    (i cur init : ℕ) (t : List Proc)
    → parent_at i (adopt_round i cur init t) ≡ Option.map (adopted cur init) (parent_at i t)
parent_at-round_self i cur init t = elim (Option-cases (get_elem? t i)) [
  | inl e ↦ rw (adopt_round-none i cur init t e) (rw e)
  | inr (p, e) ↦
      rw (adopt_round-some i cur init t p e, parent_at-some i t p e)
        (elim (Bool-cases (is_child cur p)) [
          | inl c ↦ rw c (
              parent_at-adopt_at i i init t p
              ∙ ap (Option.map (λ (q : Proc). q.parent))
                  (get_elem?-modify_self i (adopt init) t ∙ ap (Option.map (adopt init)) e)
              ∙ ap some (sym (adopted-of_child cur init p.parent c)))
          | inr c ↦
              rw c (parent_at-some i t p e ∙ ap some (sym (adopted-of_other cur init p.parent c)))
        ])
]

parent_at-round_ne :
    (i j cur init : ℕ) (t : List Proc)
    → i ≢ j
    → parent_at j (adopt_round i cur init t) ≡ parent_at j t
parent_at-round_ne i j cur init t h = elim (Option-cases (get_elem? t i)) [
  | inl e ↦ rw (adopt_round-none i cur init t e)
  | inr (p, e) ↦ rw (adopt_round-some i cur init t p e) (elim (Bool-cases (is_child cur p)) [
    | inl c ↦ rw c (
        parent_at-adopt_at i j init t p
        ∙ ap (Option.map (λ (q : Proc). q.parent)) (get_elem?-modify_ne i j (adopt init) t h))
    | inr c ↦ rw c
  ])
]

parent_at-reparent_before :
    (n i j cur init : ℕ) (t : List Proc)
    → j < i
    → parent_at j (reparent n i cur init t) ≡ parent_at j t
unfolding reparent
parent_at-reparent_before zero i j cur init t h = refl
parent_at-reparent_before (suc n) i j cur init t h =
    parent_at-reparent_before n (i + 1) j cur init (adopt_round i cur init t) (omega arith)
    ∙ parent_at-round_ne i j cur init t (omega arith)

parent_at-reparent :
    (n i j cur init : ℕ) (t : List Proc)
    → i ≤ j
    → j < i + n
    → parent_at j (reparent n i cur init t) ≡ Option.map (adopted cur init) (parent_at j t)
unfolding reparent
parent_at-reparent zero i j cur init t lo hi = absurd (omega arith)
parent_at-reparent (suc n) i j cur init t lo hi = elim (ℕ_discrete i j) [
  | yes e ↦ rw (← e) (
      parent_at-reparent_before n (i + 1) i cur init (adopt_round i cur init t) (omega arith)
      ∙ parent_at-round_self i cur init t)
  | no ne ↦
      parent_at-reparent n (i + 1) j cur init (adopt_round i cur init t) (omega arith) (omega arith)
      ∙ ap (Option.map (adopted cur init)) (parent_at-round_ne i j cur init t ne)
]

-- The table that `exit` leaves.
abbrev exit_table : ℕ → ℕ → ℕ → Proc → List Proc → List Proc
exit_table nproc cur init p t =
    modify cur (set_state zombie)
      (reparent nproc 0 cur init (wakeup1 (parent_chan p.parent) (modify cur closed t)))

exit-some :
    (nproc cur : ℕ) (p : Proc) (k k' : Kernel)
    → exit nproc cur p k ≡ some k'
    → k'.table ≡ exit_table nproc cur k.init_proc p k.table
unfolding exit
exit-some nproc cur p k k' h = elim (Bool-cases (cur == k.init_proc)) [
  | inl e ↦ cc (rw e at h)
  | inr e ↦
      ap (λ (o : Option Kernel). elim o [ none ↦ k'.table | some x ↦ x.table ]) (sym (rw e at h))
]

-- `exit` hands the children of the exiting process, and no other process, over to `initproc`.
pub exit-parents :
    (nproc cur j : ℕ) (p : Proc) (k k' : Kernel)
    → exit nproc cur p k ≡ some k'
    → j < nproc
    → parent_at j k'.table ≡ Option.map (adopted cur k.init_proc) (parent_at j k.table)
exit-parents nproc cur j p k k' h lt =
    ap (parent_at j) (exit-some nproc cur p k k' h)
    ∙ parent_at-modify_same cur j (set_state zombie) _ (λ q. refl)
    ∙ parent_at-reparent nproc 0 j cur k.init_proc _ (omega arith) (omega arith)
    ∙ ap (Option.map (adopted cur k.init_proc)) (
        parent_at-wakeup1 (parent_chan p.parent) j (modify cur closed k.table)
        ∙ parent_at-modify_same cur j closed k.table (λ q. refl))

state_at-modify_same :
    (i j : ℕ) (f : Proc → Proc) (t : List Proc)
    → ((p : Proc) → (f p).state ≡ p.state)
    → state_at j (modify i f t) ≡ state_at j t
state_at-modify_same i j f [] h = refl
state_at-modify_same zero zero f (p ∷ t) h = ap some (h p)
state_at-modify_same zero (suc j) f (p ∷ t) h = refl
state_at-modify_same (suc i) zero f (p ∷ t) h = refl
state_at-modify_same (suc i) (suc j) f (p ∷ t) h = state_at-modify_same i j f t h

wake_one-runnable : (c : Chan) (p : Proc) → p.state ≡ runnable → (wake_one c p).state ≡ runnable
unfolding wake_one
wake_one-runnable c p h = ground arith

abbrev RunnableAt : ℕ → List Proc → Type 0
RunnableAt j t = state_at j t ≡ some runnable

wakeup1-RunnableAt :
    (c : Chan) (j : ℕ) (t : List Proc) → RunnableAt j t → RunnableAt j (wakeup1 c t)
wakeup1-RunnableAt c j [] h = h
wakeup1-RunnableAt c zero (p ∷ t) h = ap some (wake_one-runnable c p (cc))
wakeup1-RunnableAt c (suc j) (p ∷ t) h = wakeup1-RunnableAt c j t h

round-RunnableAt :
    (i j cur init : ℕ) (t : List Proc) → RunnableAt j t → RunnableAt j (adopt_round i cur init t)
round-RunnableAt i j cur init t h =
    let moved : RunnableAt j (modify i (adopt init) t) =
      state_at-modify_same i j (adopt init) t (λ q. refl) ∙ h in
    elim (Option-cases (get_elem? t i)) [
      | inl e ↦ rw (adopt_round-none i cur init t e) h
      | inr (p, e) ↦ rw (adopt_round-some i cur init t p e) (elim (Bool-cases (is_child cur p)) [
        | inl c ↦ rw c (elim (Bool-cases (is_zombie p.state)) [
          | inl z ↦ rw z (wakeup1-RunnableAt (proc init) j _ moved)
          | inr z ↦ rw z moved
        ])
        | inr c ↦ rw c h
      ])
    ]

reparent-RunnableAt :
    (n i j cur init : ℕ) (t : List Proc) → RunnableAt j t → RunnableAt j (reparent n i cur init t)
unfolding reparent
reparent-RunnableAt zero i j cur init t h = h
reparent-RunnableAt (suc n) i j cur init t h =
    reparent-RunnableAt n (i + 1) j cur init (adopt_round i cur init t)
      (round-RunnableAt i j cur init t h)

wake_one-waiter :
    (q : ℕ) (w : Proc)
    → w.state ≡ sleeping
    → w.chan ≡ proc q
    → w.sleeptime ≤ℤ pos 0
    → (wake_one (proc q) w).state ≡ runnable
unfolding wake_one
wake_one-waiter q w s c z = ground arith

-- If the parent of the exiting process is another process that sleeps in `wait`, and its `sleeptime`
-- is at most 0, `exit` leaves it RUNNABLE. (With a positive `sleeptime`, `wakeup1` counts it down and
-- lets the parent sleep on.)
pub exit-wakes_parent :
    (nproc cur q : ℕ) (p w : Proc) (k k' : Kernel)
    → exit nproc cur p k ≡ some k'
    → p.parent ≡ some q
    → cur ≢ q
    → get_elem? k.table q ≡ some w
    → w.state ≡ sleeping
    → w.chan ≡ proc q
    → w.sleeptime ≤ℤ pos 0
    → state_at q k'.table ≡ some runnable
exit-wakes_parent nproc cur q p w k k' h parent ne e s c z =
    ap (state_at q) (exit-some nproc cur p k k' h)
    ∙ ap (Option.map (λ (x : Proc). x.state)) (get_elem?-modify_ne cur q (set_state zombie) _ ne)
    ∙ reparent-RunnableAt nproc 0 q cur k.init_proc _ (
        rw parent (
          ap (Option.map (λ (x : Proc). x.state)) (
            get_elem?-map (wake_one (proc q)) (modify cur closed k.table) q
            ∙ ap (Option.map (wake_one (proc q))) (get_elem?-modify_ne cur q closed k.table ne ∙ e))
          ∙ ap some (wake_one-waiter q w s c z)))

same_parent : {o : Option (Option ℕ)} {a b : Option ℕ} → o ≡ some a → o ≡ some b → a ≡ b
same_parent p q = cc

-- What stands in the slot of the process that has exited.
pub exit-zombie :
    (nproc cur : ℕ) (p : Proc) (k k' : Kernel)
    → exit nproc cur p k ≡ some k'
    → get_elem? k.table cur ≡ some p
    → cur < nproc
    → (z : Proc) × (get_elem? k'.table cur ≡ some z)
      × (z.parent ≡ adopted cur k.init_proc p.parent)
      × (z.state ≡ zombie)
exit-zombie nproc cur p k k' h e lt =
    let inner : List Proc =
      reparent nproc 0 cur k.init_proc
        (wakeup1 (parent_chan p.parent) (modify cur closed k.table)) in
    let whole : get_elem? k'.table cur ≡ Option.map (set_state zombie) (get_elem? inner cur) =
      ap (λ t. get_elem? t cur) (exit-some nproc cur p k k' h)
      ∙ get_elem?-modify_self cur (set_state zombie) inner in
    let parent : parent_at cur k'.table ≡ some (adopted cur k.init_proc p.parent) =
      exit-parents nproc cur cur p k k' h lt
      ∙ ap (Option.map (adopted cur k.init_proc)) (parent_at-some cur k.table p e) in
    elim (Option-cases (get_elem? inner cur)) [
      | inl gone ↦ cc (whole ∙ ap (Option.map (set_state zombie)) gone, parent)
      | inr (r, found) ↦
          let slot : get_elem? k'.table cur ≡ some (set_state zombie r) =
            whole ∙ ap (Option.map (set_state zombie)) found in
          (
            set_state zombie r,
            slot,
            same_parent (parent_at-some cur k'.table (set_state zombie r) slot) parent,
            refl,
          )
    ]
