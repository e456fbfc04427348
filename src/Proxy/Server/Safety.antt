-- ===== src/Proxy/Server/Safety.antt =====
-- What holds of the queue in every reachable state of the proxy.
use mathlib.Core.List.{Perm, perm_middle}
use mathlib.Core.List.Perm
use cs537projects.Base.{
  ℕ, ◌≤◌, ◌≡◌, refl, Bool, false, List, [], ◌∷◌, ◌++◌, length, arith, Bool-cases, inl, inr, ◌==◌,
}
use cs537projects.Proxy.Queue.{Job, new_job, add_work, get_work, get_work_nonblocking}
use cs537projects.Proxy.Queue.Order.{
  IsSorted, insert_job-IsSorted, length-insert_job, insert_job-perm,
}
use cs537projects.Proxy.Server.{
  Event, queued, queue_full, queue_empty, handed, served, Server, Step, request, get_job, pop, work,
  wake, undefined, System, Reach, here, next, enqueue, check_get_job, pop_job, take_job, begin_work,
  drop_head,
}

-- The jobs that the log says were accepted, and those that left the queue.
abbrev accepted : List Event → List Job
accepted [] = []
accepted (queued j ∷ es) = j ∷ accepted es
accepted (queue_full _ ∷ es) = accepted es
accepted (queue_empty _ ∷ es) = accepted es
accepted (handed _ _ ∷ es) = accepted es
accepted (served _ ∷ es) = accepted es

abbrev departed : List Event → List Job
departed [] = []
departed (queued _ ∷ es) = departed es
departed (queue_full _ ∷ es) = departed es
departed (queue_empty _ ∷ es) = departed es
departed (handed _ j ∷ es) = j ∷ departed es
departed (served j ∷ es) = j ∷ departed es

pub record Inv (max_queue_size : ℕ) (s : Server) : Type 0 where
  pub counted : s.queue_size ≡ length s.jobs
  pub bounded : s.queue_size ≤ max_queue_size
  pub sorted : IsSorted s.jobs
  pub conserved : Perm (accepted s.log) (s.jobs ++ departed s.log)

module _ (max : ℕ) where
  enqueue-Inv :
      (buffer : List ℕ) (fd n : ℕ) (s : Server) → Inv max s → Inv max (enqueue max buffer fd n s)
  unfolding enqueue add_work
  enqueue-Inv buffer fd n s v = elim (Bool-cases (s.queue_size == max)) [
    | inl full ↦ rw full (record {
      counted = v.counted;
      bounded = v.bounded;
      sorted = v.sorted;
      conserved = v.conserved;
    })
    | inr room ↦
        let j = new_job buffer fd n in
        rw room (record {
          counted = omega (arith, v.counted, length-insert_job j s.jobs);
          bounded = ground (arith, v.bounded);
          sorted = insert_job-IsSorted j s.jobs v.sorted;
          conserved =
              Perm.trans (Perm.cons j v.conserved)
                (Perm.append_right (departed s.log) (Perm.symm (insert_job-perm j s.jobs)));
        })
  ]

  check_get_job-Inv : (fd : ℕ) (s : Server) → Inv max s → Inv max (check_get_job fd s).0
  unfolding check_get_job
  check_get_job-Inv fd s v = elim (Bool-cases (s.queue_size == 0)) [
    | inl none_left ↦ rw none_left (record {
      counted = v.counted;
      bounded = v.bounded;
      sorted = v.sorted;
      conserved = v.conserved;
    })
    | inr some_left ↦ rw some_left v
  ]

  -- A server with the first job gone to `departed`.
  module _ (size : ℕ) (log : List Event) (crashed stray : Bool) where
    abbrev at_jobs : List Job → Server
    at_jobs js = record {
      queue_size = size;
      jobs = js;
      log = log;
      crashed = crashed;
      stray_unlock = stray;
    }

    pop_jobs-Inv :
        (fd : ℕ) (js : List Job) → Inv max (at_jobs js) → Inv max (pop_job fd (at_jobs js))
    unfolding pop_job get_work_nonblocking
    pop_jobs-Inv fd [] v = record {
      counted = v.counted;
      bounded = v.bounded;
      sorted = v.sorted;
      conserved = v.conserved;
    }
    pop_jobs-Inv fd (j ∷ js) v = record {
      counted = omega (arith, v.counted);
      bounded = omega (arith, v.bounded);
      sorted = v.sorted.1;
      conserved = Perm.trans v.conserved (Perm.symm (perm_middle js (departed log)));
    }

    take_jobs-Inv : (js : List Job) → Inv max (at_jobs js) → Inv max (take_job (at_jobs js))
    unfolding take_job get_work drop_head
    take_jobs-Inv [] v = record {
      counted = v.counted;
      bounded = v.bounded;
      sorted = v.sorted;
      conserved = v.conserved;
    }
    take_jobs-Inv (j ∷ js) v = record {
      counted = omega (arith, v.counted);
      bounded = omega (arith, v.bounded);
      sorted = v.sorted.1;
      conserved = Perm.trans v.conserved (Perm.symm (perm_middle js (departed log)));
    }

  pop_job-Inv : (fd : ℕ) (s : Server) → Inv max s → Inv max (pop_job fd s)
  pop_job-Inv fd s v = pop_jobs-Inv s.queue_size s.log s.crashed s.stray_unlock fd s.jobs v

  take_job-Inv : (s : Server) → Inv max s → Inv max (take_job s)
  take_job-Inv s v = take_jobs-Inv s.queue_size s.log s.crashed s.stray_unlock s.jobs v

  begin_work-Inv : (s : Server) → Inv max s → Inv max (begin_work s).0
  unfolding begin_work
  begin_work-Inv s v = elim (Bool-cases (s.queue_size == 0)) [
    | inl none_left ↦ rw none_left v
    | inr some_left ↦ rw some_left (take_job-Inv s v)
  ]

  -- A step that ends without a stray unlock started without one, and keeps the invariant.
  Step-Inv :
      {s t : System}
      → Step max s t
      → t.stray_unlock ≡ false
      → (s.stray_unlock ≡ false → Inv max s.server)
      → Inv max t.server
  Step-Inv {s} (request i buffer fd n up held l g) h v = enqueue-Inv buffer fd n s.server (v held)
  Step-Inv {s} (get_job i buffer fd up held l g) h v = check_get_job-Inv fd s.server (v held)
  Step-Inv {s} (pop i fd up held l) h v = pop_job-Inv fd s.server (v held)
  Step-Inv {s} (work i up held w) h v = begin_work-Inv s.server (v held)
  Step-Inv {s} (wake i up held w) h v = take_job-Inv s.server (v held)
  Step-Inv (undefined t was is) h v = absurd (cc (is, h))

  -- In every reachable state, as long as no "/GetJob" has met an empty queue (which unlocks the mutex
  -- from outside), `queue_size` counts the queue, is at most `max_queue_size`, the priority values
  -- fall along the queue, and the jobs accepted so far are, up to order, the jobs queued and the jobs
  -- that a worker or a "/GetJob" took: none is lost, and none is taken twice.
  pub Reach-Inv : {s : System} → Reach max s → s.stray_unlock ≡ false → Inv max s.server
  Reach-Inv here h = record {
    counted = refl;
    bounded = omega arith;
    sorted = tt;
    conserved = Perm.refl [];
  }
  Reach-Inv (next r st) h = Step-Inv st h (Reach-Inv r)
