-- ===== src/Proxy/Queue/Order.antt =====
-- The order of the job queue: descending priority values, first come first served among equals.
use mathlib.Core.List.{Perm}
use mathlib.Core.List.Perm
use cs537projects.Base.{
  ◌+◌, ◌≡◌, refl, ap, List, [], ◌∷◌, ◌++◌, length, arith, Bool-cases, inl, inr, true, false,
}
use cs537projects.Base.Int.{ℤ, ◌≤ℤ◌, ltb_ℤ}
use cs537projects.Proxy.Queue.{Job, insert_job}

abbrev Tops : Job → List Job → Type 0
Tops j [] = Unit {0}
Tops j (k ∷ ks) = k.priority ≤ℤ j.priority

-- The priority values fall along the list.
abbrev pub IsSorted : List Job → Type 0
IsSorted [] = Unit {0}
IsSorted (j ∷ js) = Tops j js × IsSorted js

abbrev pub AllAtLeast : ℤ → List Job → Type 0
AllAtLeast p [] = Unit {0}
AllAtLeast p (j ∷ js) = (p ≤ℤ j.priority) × AllAtLeast p js

abbrev pub AllBelow : ℤ → List Job → Type 0
AllBelow p [] = Unit {0}
AllBelow p (j ∷ js) = (ltb_ℤ j.priority p ≡ true) × AllBelow p js

not_below : (p q : ℤ) → ltb_ℤ p q ≡ false → q ≤ℤ p
not_below p q e = ground arith

Tops-insert_job :
    (new j : Job) (js : List Job)
    → new.priority ≤ℤ j.priority
    → Tops j js
    → Tops j (insert_job new js)
unfolding insert_job
Tops-insert_job new j [] h t = h
Tops-insert_job new j (k ∷ ks) h t = elim (Bool-cases (ltb_ℤ k.priority new.priority)) [
  | inl e ↦ rw e h
  | inr e ↦ rw e t
]

-- Insertion keeps the priority values falling along the list.
pub insert_job-IsSorted : (new : Job) (js : List Job) → IsSorted js → IsSorted (insert_job new js)
unfolding insert_job
insert_job-IsSorted new [] s = (tt, tt)
insert_job-IsSorted new (j ∷ js) s = elim (Bool-cases (ltb_ℤ j.priority new.priority)) [
  | inl e ↦ rw e (ground arith, s)
  | inr e ↦ rw e (
    Tops-insert_job new j js (not_below j.priority new.priority e) s.0,
    insert_job-IsSorted new js s.1,
  )
]

pub length-insert_job : (new : Job) (js : List Job) → length (insert_job new js) ≡ length js + 1
unfolding insert_job
length-insert_job new [] = omega arith
length-insert_job new (j ∷ js) = ground (arith, length-insert_job new js)

-- Below the head of a sorted list, everything is below.
AllBelow-tail :
    (p : ℤ) (j : Job) (js : List Job)
    → ltb_ℤ j.priority p ≡ true
    → IsSorted (j ∷ js)
    → AllBelow p js
AllBelow-tail p j [] h s = tt
AllBelow-tail p j (k ∷ ks) h s =
    let below : ltb_ℤ k.priority p ≡ true = ground arith in (below, AllBelow-tail p k ks below s.1)

-- Where a new job goes: behind every job of at least its value, ahead of every job of a lower one.
abbrev pub Placed : Job → List Job → List Job → Type 0
Placed new js result =
    (before : List Job) × (after : List Job) × (js ≡ before ++ after)
    × (result ≡ before ++ (new ∷ after))
    × AllAtLeast new.priority before
    × AllBelow new.priority after

-- Whatever the jobs in a queue with falling priority values, `add_work`'s loop puts a new job behind
-- all jobs of an equal or higher value and ahead of all jobs of a lower value, and moves no job.
pub insert_job-Placed :
    (new : Job) (js : List Job) → IsSorted js → Placed new js (insert_job new js)
unfolding insert_job
insert_job-Placed new [] s = ([], [], refl, refl, tt, tt)
insert_job-Placed new (j ∷ js) s = elim (Bool-cases (ltb_ℤ j.priority new.priority)) [
  | inl e ↦ rw e ([], j ∷ js, refl, refl, tt, (e, AllBelow-tail new.priority j js e s))
  | inr e ↦
      let rest = insert_job-Placed new js s.1 in
      rw e (
        j ∷ rest.0,
        rest.1,
        ap (◌∷◌ j) rest.2,
        ap (◌∷◌ j) rest.3,
        (not_below j.priority new.priority e, rest.4),
        rest.5,
      )
]

-- No job is lost or made up.
pub insert_job-perm : (new : Job) (js : List Job) → Perm (insert_job new js) (new ∷ js)
unfolding insert_job
insert_job-perm new [] = Perm.refl (new ∷ [])
insert_job-perm new (j ∷ js) = elim (Bool-cases (ltb_ℤ j.priority new.priority)) [
  | inl e ↦ rw e (Perm.refl (new ∷ j ∷ js))
  | inr e ↦ rw e (Perm.trans (Perm.cons j (insert_job-perm new js)) (Perm.swap new j js))
]
