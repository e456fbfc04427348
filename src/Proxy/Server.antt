-- ===== src/Proxy/Server.antt =====
-- The listener and worker threads of p6/starter-code/proxyserver.c over the shared queue. A step is
-- what a thread does between taking and releasing the mutex `lock`, or one unlocked read; the
-- threads interleave in any order, and `pthread_cond_wait` may return at any time. A "/GetJob" that
-- meets an empty queue unlocks a mutex that its thread does not hold, which POSIX leaves undefined
-- and which can release another thread's lock: from then on a step may lead to any state.
pub mod Safety
pub mod Races
use cs537projects.Base.{
  ℕ, ◌+◌, ◌-◌, ◌≡◌, Bool, true, false, Option, none, some, List, [], ◌∷◌, ◌==◌, if◌then◌else◌,
}
use cs537projects.CString.{c_string, strstr}
use cs537projects.Proxy.Queue.{Job, add_work, get_work, get_work_nonblocking, new_job, create_queue}

-- GETJOBCMD, "/GetJob"
abbrev get_job_cmd : List ℕ
get_job_cmd = b'/' ∷ b'G' ∷ b'e' ∷ b't' ∷ b'J' ∷ b'o' ∷ b'b' ∷ []

unfoldable pub is_get_job : List ℕ → Bool
is_get_job buffer = elim (strstr (c_string buffer) get_job_cmd) [ none ↦ false | some s ↦ true ]

-- What has happened to a request, as the other ends of the connections see it.
pub data Event : Type 0 where
  queued : Job → Event
  queue_full : ℕ → Event
  queue_empty : ℕ → Event
  handed : ℕ → Job → Event
  served : Job → Event

-- A listener that has read `queue_size != 0` for a "/GetJob" is on its way to the mutex.
pub data Listener : Type 0 where
  listening : Listener
  popping : ℕ → Listener

-- A worker before its test of `queue_size`, or inside `pthread_cond_wait`.
pub data Worker : Type 0 where
  fresh : Worker
  waiting : Worker

-- The globals, the log of events (newest first), whether a null pointer was followed, and whether
-- some thread has unlocked the mutex without holding it.
pub record Server : Type 0 where
  pub queue_size : ℕ
  pub jobs : List Job
  pub log : List Event
  pub crashed : Bool
  pub stray_unlock : Bool

abbrev pub start : Server
start = record {
  queue_size = 0;
  jobs = create_queue;
  log = [];
  crashed = false;
  stray_unlock = false;
}

-- `serve_forever` on an ordinary request, under the mutex.
unfoldable pub enqueue : ℕ → List ℕ → ℕ → ℕ → Server → Server
enqueue max_queue_size buffer client_fd bytes_read s =
    let (ok, jobs') = add_work s.queue_size s.jobs buffer max_queue_size client_fd bytes_read in
    if ok
    then record s {
      jobs = jobs';
      queue_size = s.queue_size + 1;
      log = queued (new_job buffer client_fd bytes_read) ∷ s.log;
    }
    else record s { log = queue_full client_fd ∷ s.log }

-- `serve_forever` on "/GetJob": the test of `queue_size`, outside the mutex. If there is none,
-- `pthread_mutex_unlock(&lock)` by a thread that does not hold it, and the response.
unfoldable pub check_get_job : ℕ → Server → Server × Listener
check_get_job client_fd s =
    if s.queue_size == 0
    then (record s { stray_unlock = true; log = queue_empty client_fd ∷ s.log }, listening)
    else (s, popping client_fd)

-- The rest of it, under the mutex.
unfoldable pub pop_job : ℕ → Server → Server
pop_job client_fd s = elim (get_work_nonblocking s.queue_size s.jobs) [
  | none ↦ record s { crashed = true }
  | some (j, size, jobs') ↦ record s {
    jobs = jobs';
    queue_size = size;
    log = handed client_fd j ∷ s.log;
  }
]

unfoldable pub drop_head : List Job → List Job
drop_head [] = []
drop_head (j ∷ js) = js

-- `worker` from `get_work` on, under the mutex: `worker_job->next` faults on the null pointer.
unfoldable pub take_job : Server → Server
unfolding drop_head
take_job s = elim (get_work s.jobs) [
  | none ↦ record s { crashed = true }
  | some j ↦ record s {
    jobs = drop_head s.jobs;
    queue_size = s.queue_size - 1;
    log = served j ∷ s.log;
  }
]

-- `worker` from the head of its loop: `if (queue_size == 0) pthread_cond_wait(...)`.
unfoldable pub begin_work : Server → Server × Worker
begin_work s = if s.queue_size == 0 then (s, waiting) else (take_job s, fresh)

pub record System : Type 0 where
  pub server : Server
  pub open server use *
  pub listener : ℕ → Listener
  pub worker : ℕ → Worker

abbrev pub update {ℓ} : {A : Type ℓ} → (ℕ → A) → ℕ → A → ℕ → A
update f i a j = if i == j then a else f j

-- `main`: every thread at the head of its loop.
abbrev pub init : System
init = record { server = start; listener = λ _. listening; worker = λ _. fresh }

-- One step of listener `i` or of worker `i`, or, after a stray unlock, anything.
pub data Step (max_queue_size : ℕ) (s : System) : System → Type 0 where
  request :
      (i : ℕ) (buffer : List ℕ) (fd n : ℕ)
      → s.crashed ≡ false
      → s.stray_unlock ≡ false
      → s.listener i ≡ listening
      → is_get_job buffer ≡ false
      → Step max_queue_size s (record s { server = enqueue max_queue_size buffer fd n s.server })
  get_job :
      (i : ℕ) (buffer : List ℕ) (fd : ℕ)
      → s.crashed ≡ false
      → s.stray_unlock ≡ false
      → s.listener i ≡ listening
      → is_get_job buffer ≡ true
      → Step max_queue_size s (record s {
        server = (check_get_job fd s.server).0;
        listener = update s.listener i (check_get_job fd s.server).1;
      })
  pop :
      (i fd : ℕ)
      → s.crashed ≡ false
      → s.stray_unlock ≡ false
      → s.listener i ≡ popping fd
      → Step max_queue_size s
          (record s { server = pop_job fd s.server; listener = update s.listener i listening })
  work :
      (i : ℕ)
      → s.crashed ≡ false
      → s.stray_unlock ≡ false
      → s.worker i ≡ fresh
      → Step max_queue_size s (record s {
        server = (begin_work s.server).0;
        worker = update s.worker i (begin_work s.server).1;
      })
  wake :
      (i : ℕ)
      → s.crashed ≡ false
      → s.stray_unlock ≡ false
      → s.worker i ≡ waiting
      → Step max_queue_size s
          (record s { server = take_job s.server; worker = update s.worker i fresh })
  undefined : (t : System) → s.stray_unlock ≡ true → t.stray_unlock ≡ true → Step max_queue_size s t

pub data Reach (max_queue_size : ℕ) : System → Type 0 where
  here : Reach max_queue_size init
  next : {s t : System} → Reach max_queue_size s → Step max_queue_size s t → Reach max_queue_size t
