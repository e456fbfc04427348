-- ===== src/Mmap/Process/Ends.antt =====
-- exit and wait of p5/xv6-public/proc.c keep each page frame in one place.
use cs537projects.Base.{
  ℕ, zero, suc, ◌-◌, ◌≡◌, ◌≢◌, refl, sym, ap, ◌∙◌, subst, Bool, true, false, Option, none, some,
  List, ◌==◌, ==_iff, if◌then◌else◌, Bool-cases, inl, inr, map,
}
use cs537projects.Base.Int.{ℤ}
use cs537projects.Sched.Table.{
  ProcState, is_unused, is_zombie, is_sleeping, unused, embryo, sleeping, runnable, running, zombie,
  Chan, proc, chan_eq,
}
use cs537projects.Sched.Life.{close_files}
use cs537projects.Mmap.{Vma}
use cs537projects.Mmap.Unmap.{clear_maps}
use cs537projects.Mmap.Frames.{PagesOk}
use cs537projects.Mmap.Frames.Released.{clear_maps-SpaceOk}
use cs537projects.Mmap.Process.{
  Task, System, set_task, load, wakeup, wake_one, parent_chan, is_parent, reparent, exit,
}
use cs537projects.Mmap.Process.Owners.{
  others_of, table_index, owners, same-PagesOk, set_task-PagesOk, apart-PagesOk, task_here,
  task_away,
}
use cs537projects.Mmap.Process.Kept.{SystemOk, set_task-Stacked, load-SpaceOk}

-- Tasks that differ in nothing that matters for frames.
abbrev Alike : (ℕ → Task) → (ℕ → Task) → Type 0
Alike t u =
    (j : ℕ)
    → ((u j).space.ptes ≡ (t j).space.ptes)
      × ((u j).kstack ≡ (t j).kstack)
      × (is_unused (u j).state ≡ is_unused (t j).state)

Alike-trans : (t u v : ℕ → Task) → Alike t u → Alike u v → Alike t v
Alike-trans t u v h k j = ((k j).0 ∙ (h j).0, (k j).1 ∙ (h j).1, (k j).2 ∙ (h j).2)

Alike-SystemOk :
    (m m' : System) → Alike m.tasks m'.tasks → m'.free ≡ m.free → SystemOk m → SystemOk m'
Alike-SystemOk m m' alike same ok = record {
  frames =
      subst (λ l. PagesOk (owners m'.tasks) l) (sym same)
        (same-PagesOk m.tasks m'.tasks m.free (λ j. ((alike j).0, (alike j).1)) ok.frames);
  stacked = λ j used e. ok.stacked j (sym (alike j).2 ∙ used) (sym (alike j).1 ∙ e);
}

sleeping_used : (st : ProcState) → is_sleeping st ≡ true → is_unused st ≡ false
sleeping_used unused h = absurd (cc h)
sleeping_used embryo h = refl
sleeping_used sleeping h = refl
sleeping_used runnable h = refl
sleeping_used running h = refl
sleeping_used zombie h = refl

wake_one-Alike :
    (chan : Chan) (x : Task)
    → ((wake_one chan x).space.ptes ≡ x.space.ptes)
      × ((wake_one chan x).kstack ≡ x.kstack)
      × (is_unused (wake_one chan x).state ≡ is_unused x.state)
wake_one-Alike chan x = elim (Bool-cases (is_sleeping x.state)) [
  | inr awake ↦ rw awake (refl, refl, refl)
  | inl sleeps ↦ elim (Bool-cases (chan_eq x.chan chan)) [
    | inl woken ↦ rw (sleeps, woken) (refl, refl, sym (sleeping_used x.state sleeps))
    | inr not_for_it ↦ rw (sleeps, not_for_it) (refl, refl, refl)
  ]
]

wakeup-Alike : (chan : Chan) (m : System) → Alike m.tasks (wakeup chan m).tasks
wakeup-Alike chan m j = wake_one-Alike chan (m.tasks j)

set_parent-Alike :
    (i init : ℕ) (m : System)
    → Alike m.tasks (set_task i (record (m.tasks i) { parent = some init }) m).tasks
set_parent-Alike i init m j = elim (Bool-cases (j == i)) [
  | inl here ↦
      let at = task_here i j (record (m.tasks i) { parent = some init }) m here in
      let same = (==_iff j i).0 here in
      (
        ap (λ (x : Task). x.space.ptes) at ∙ ap (λ k. (m.tasks k).space.ptes) (sym same),
        ap (λ (x : Task). x.kstack) at ∙ ap (λ k. (m.tasks k).kstack) (sym same),
        ap (λ (x : Task). is_unused x.state) at ∙ ap (λ k. is_unused (m.tasks k).state) (sym same),
      )
  | inr away ↦
      let at = task_away i j (record (m.tasks i) { parent = some init }) m away in
      (
        ap (λ (x : Task). x.space.ptes) at,
        ap (λ (x : Task). x.kstack) at,
        ap (λ (x : Task). is_unused x.state) at,
      )
]

Alike-refl : (t : ℕ → Task) → Alike t t
Alike-refl t j = (refl, refl, refl)

if_Alike :
    (b : Bool) (t : ℕ → Task) (m m' : System)
    → Alike t m.tasks
    → Alike t m'.tasks
    → Alike t (if b then m else m').tasks
if_Alike true t m m' h k = h
if_Alike false t m m' h k = k

if_free :
    (b : Bool) (m m' : System) (l : List ℕ)
    → m.free ≡ l
    → m'.free ≡ l
    → (if b then m else m').free ≡ l
if_free true m m' l h k = h
if_free false m m' l h k = k

reparent-Alike :
    (rounds i cur : ℕ) (m : System)
    → Alike m.tasks (reparent rounds i cur m).tasks × ((reparent rounds i cur m).free ≡ m.free)
unfolding reparent
reparent-Alike zero i cur m = (Alike-refl m.tasks, refl)
reparent-Alike (suc rounds) i cur m =
    let x = m.tasks i in
    let moved = set_task i (record x { parent = some m.init_proc }) m in
    let moved_alike = set_parent-Alike i m.init_proc m in
    let woken = wakeup (proc m.init_proc) moved in
    let inner = if is_zombie x.state then woken else moved in
    let next = if is_parent cur x.parent then inner else m in
    let rest = reparent-Alike rounds (suc i) cur next in
    let alike : Alike m.tasks next.tasks =
      if_Alike (is_parent cur x.parent) m.tasks inner m
        (if_Alike (is_zombie x.state) m.tasks woken moved
          (Alike-trans m.tasks moved.tasks woken.tasks moved_alike
            (wakeup-Alike (proc m.init_proc) moved))
          moved_alike)
        (Alike-refl m.tasks) in
    let free : next.free ≡ m.free =
      if_free (is_parent cur x.parent) inner m m.free
        (if_free (is_zombie x.state) woken moved m.free refl refl) refl in
    (
      Alike-trans m.tasks next.tasks (reparent rounds (suc i) cur next).tasks alike rest.0,
      rest.1 ∙ free,
    )

-- What exit leaves.
abbrev pub ExitOk : Option System → Type 0
ExitOk none = Unit {0}
ExitOk (some m) = SystemOk m

if_ExitOk : (b : Bool) (m : System) → SystemOk m → ExitOk (if b then none else some m)
if_ExitOk true m ok = tt
if_ExitOk false m ok = ok

pub exit-ExitOk :
    (outside : ℤ → Vma) (write_ok : Bool) (cur : ℕ) (m : System)
    → is_unused (m.tasks cur).state ≡ false
    → SystemOk m
    → ExitOk (exit outside write_ok cur m)
unfolding exit
exit-ExitOk outside write_ok cur m used ok =
    let x = m.tasks cur in
    let s = clear_maps outside write_ok (load cur m) in
    let cleared =
      clear_maps-SpaceOk outside write_ok (table_index cur) (others_of cur m) (load cur m)
        (load-SpaceOk cur m ok.frames) in
    let y : Task = record x { space = s; ofile = map (λ f. none) x.ofile; cwd = 0 } in
    let closed : System = record (set_task cur y m) {
      free = s.freelist;
      file_ref = close_files x.ofile m.file_ref;
      inode_ref = λ i. if i == x.cwd then m.inode_ref i - 1 else m.inode_ref i;
    } in
    let closed_ok : SystemOk closed = record {
      frames = set_task-PagesOk cur y m s.freelist cleared;
      stacked = set_task-Stacked cur y m ok.stacked (ok.stacked cur);
    } in
    let woken = wakeup (parent_chan x.parent) closed in
    let (passed_alike, passed_free) = reparent-Alike 64 0 cur woken in
    let passed = reparent 64 0 cur woken in
    let alike =
      Alike-trans closed.tasks woken.tasks passed.tasks (wakeup-Alike (parent_chan x.parent) closed)
        passed_alike in
    let passed_ok = Alike-SystemOk closed passed alike passed_free closed_ok in
    let z : Task = record (passed.tasks cur) { state = zombie } in
    let at_cur = task_here cur cur y m ((==_iff cur cur).1 refl) in
    let has_stack : z.kstack ≢ 0 =
      λ e. ok.stacked cur used (sym (ap (λ (w : Task). w.kstack) at_cur) ∙ sym (alike cur).1 ∙ e) in
    if_ExitOk (cur == m.init_proc) (set_task cur z passed) (record {
      frames =
          set_task-PagesOk cur z passed passed.free
            (apart-PagesOk cur passed passed.free passed_ok.frames);
      stacked = set_task-Stacked cur z passed passed_ok.stacked (λ h. has_stack);
    })
