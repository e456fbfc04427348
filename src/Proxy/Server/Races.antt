-- ===== src/Proxy/Server/Races.antt =====
-- When a thread of the proxy follows a null pointer. The tests of `queue_size` are not repeated
-- under the mutex: neither by "/GetJob" nor by a worker that returns from `pthread_cond_wait`.
use cs537projects.Base.{ℕ, ◌≡◌, ◌⊎◌, true, [], ◌∷◌, arith}
use cs537projects.Proxy.Queue.{Job, get_work, get_work_nonblocking}
use cs537projects.Proxy.Server.{popping, waiting, Server, System, pop_job, take_job, drop_head}

-- Some thread has tested `queue_size` before it holds the mutex, or sleeps in `pthread_cond_wait`.
abbrev pub AtRisk : System → Type 0
AtRisk s = ((i : ℕ) × (fd : ℕ) × (s.listener i ≡ popping fd)) ⊎ ((i : ℕ) × (s.worker i ≡ waiting))

-- With one job queued and two threads behind their tests, the second one to run crashes the server,
-- whichever of the two is a "/GetJob" and whichever a worker.
second_taker_crashes :
    (s : Server) (j : Job) (fd fd' : ℕ)
    → s.jobs ≡ j ∷ []
    → ((pop_job fd' (pop_job fd s)).crashed ≡ true)
      × ((take_job (pop_job fd s)).crashed ≡ true)
      × ((pop_job fd (take_job s)).crashed ≡ true)
      × ((take_job (take_job s)).crashed ≡ true)
unfolding pop_job take_job get_work get_work_nonblocking drop_head
second_taker_crashes s j fd fd' e = ground arith
