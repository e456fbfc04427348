-- ===== src/Mmap/Process/Reaped.antt =====
-- wait of p5/xv6-public/proc.c keeps each page frame in one place.
use cs537projects.Base.{
  ℕ, zero, suc, ◌≡◌, refl, sym, ap, ◌∙◌, Bool, true, false, ◌&&◌, none, some, [], ◌∷◌,
  if◌then◌else◌, Bool-cases, Option-cases, inl, inr,
}
use cs537projects.Sched.Table.{
  ProcState, is_unused, is_zombie, unused, embryo, sleeping, runnable, running, zombie, proc,
}
use cs537projects.Mmap.Pages.{free_pages}
use cs537projects.Mmap.Frames.{with_table}
use cs537projects.Mmap.Frames.Owned.{free_pages-SpaceOk}
use cs537projects.Mmap.Process.{Task, System, set_task, load, is_parent}
use cs537projects.Mmap.Process.Wait.{reap, find_zombie, Waited, reaped, asleep, no_children, wait}
use cs537projects.Mmap.Process.Owners.{
  stack_table, table_index, stack_index, owners, set_task-PagesOk, apart-PagesOk,
}
use cs537projects.Mmap.Process.Stacks.{stack_freed-PagesOk}
use cs537projects.Mmap.Process.Kept.{SystemOk, set_task-Stacked}

reap-SystemOk :
    (i : ℕ) (m : System) → is_unused (m.tasks i).state ≡ false → SystemOk m → SystemOk (reap i m)
unfolding reap
reap-SystemOk i m used ok =
    let x = m.tasks i in
    let m' : System = record m { free = x.kstack ∷ m.free } in
    let freed =
      stack_freed-PagesOk i x.kstack x.space.ptes (owners m.tasks) m.free (ok.stacked i used)
        (apart-PagesOk i m m.free ok.frames) in
    let pages =
      free_pages-SpaceOk (table_index i)
        (with_table (stack_index i) (stack_table 0) (owners m.tasks)) 0x80000 0 (load i m') freed in
    let s = free_pages 0x80000 0 (load i m') in
    let y : Task = record x {
      space = record s { killed = false };
      kstack = 0;
      pid = 0;
      parent = none;
      name = elim x.name [ [] ↦ [] | c ∷ n ↦ 0 ∷ n ];
      state = unused;
    } in
    record {
      frames = set_task-PagesOk i y m' s.freelist pages;
      stacked = set_task-Stacked i y m ok.stacked (λ h. absurd (cc h));
    }

and_snd : (a b : Bool) → (a && b) ≡ true → b ≡ true
and_snd true b h = h
and_snd false b h = absurd (cc h)

find_zombie-zombie :
    (rounds i cur k : ℕ) (tasks : ℕ → Task)
    → find_zombie rounds i cur tasks ≡ some k
    → is_zombie (tasks k).state ≡ true
unfolding find_zombie
find_zombie-zombie zero i cur k tasks h = absurd (cc h)
find_zombie-zombie (suc rounds) i cur k tasks h =
    elim (Bool-cases (is_parent cur (tasks i).parent && is_zombie (tasks i).state)) [
      | inl found ↦
          let same : some i ≡ some k = sym (rw found refl) ∙ h in
          ap (λ o. elim o [ none ↦ true | some j ↦ is_zombie (tasks j).state ]) (sym same)
          ∙ (and_snd (is_parent cur (tasks i).parent) (is_zombie (tasks i).state) found)
      | inr other ↦
          let later : find_zombie rounds (suc i) cur tasks ≡ some k = sym (rw other refl) ∙ h in
          find_zombie-zombie rounds (suc i) cur k tasks later
    ]

zombie_used : (st : ProcState) → is_zombie st ≡ true → is_unused st ≡ false
zombie_used unused h = absurd (cc h)
zombie_used embryo h = refl
zombie_used sleeping h = refl
zombie_used runnable h = refl
zombie_used running h = refl
zombie_used zombie h = refl

-- What wait leaves.
abbrev pub WaitOk : Waited → Type 0
WaitOk (reaped pid m) = SystemOk m
WaitOk (asleep m) = SystemOk m
WaitOk no_children = Unit {0}

if_WaitOk : (b : Bool) (m : System) → SystemOk m → WaitOk (if b then asleep m else no_children)
if_WaitOk true m ok = ok
if_WaitOk false m ok = tt

pub wait-WaitOk :
    (cur : ℕ) (m : System)
    → is_unused (m.tasks cur).state ≡ false
    → SystemOk m
    → WaitOk (wait cur m)
unfolding wait
wait-WaitOk cur m used ok = elim (Option-cases (find_zombie 64 0 cur m.tasks)) [
  | inr (i, at) ↦
      rw (at, wait)
        (reap-SystemOk i m
          (zombie_used (m.tasks i).state (find_zombie-zombie 64 0 cur i m.tasks at)) ok)
  | inl none_dead ↦
      let x : Task = record (m.tasks cur) { chan = proc cur; state = sleeping } in
      rw (none_dead, wait)
        (if_WaitOk _ (set_task cur x m) (record {
          frames = set_task-PagesOk cur x m m.free (apart-PagesOk cur m m.free ok.frames);
          stacked = set_task-Stacked cur x m ok.stacked (λ h. ok.stacked cur used);
        }))
]
