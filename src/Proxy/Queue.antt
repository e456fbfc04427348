-- ===== src/Proxy/Queue.antt =====
-- p6/starter-code/safequeue.c: the linked list of jobs behind its dummy head, as a list.
pub mod Order
use cs537projects.Base.{
  ℕ, ◌-◌, Bool, true, false, Option, none, some, List, [], ◌∷◌, ◌==◌, if◌then◌else◌, get_or,
}
use cs537projects.Base.Int.{ℤ, pos, ◌-ℤ◌, ltb_ℤ}
use cs537projects.CString.{c_string, char_value}

-- `Job` without its link: the order of the list is the chain of `next`.
pub record Job : Type 0 where
  pub buffer : List ℕ
  pub priority : ℤ
  pub client_fd : ℕ
  pub bytes_read : ℕ

-- `create_queue`: a dummy head with no job behind it.
abbrev pub create_queue : List Job
create_queue = []

-- The `while` of `add_work`: before the first job of a lower value, or at the end.
unfoldable pub insert_job : Job → List Job → List Job
insert_job new [] = new ∷ []
insert_job new (j ∷ js) =
    if ltb_ℤ j.priority new.priority then new ∷ j ∷ js else j ∷ insert_job new js

-- `buffer[5] - '0'`; a listener's buffer has 10000 bytes, so index 5 is inside it.
unfoldable pub new_job : List ℕ → ℕ → ℕ → Job
unfolding ◌-ℤ◌
new_job buffer client_fd bytes_read = record {
  buffer = c_string buffer;
  priority = char_value (get_or buffer 5 0) -ℤ pos b'0';
  client_fd = client_fd;
  bytes_read = bytes_read;
}

-- `add_work`, with the global `queue_size`, which its caller increments.
unfoldable pub add_work : ℕ → List Job → List ℕ → ℕ → ℕ → ℕ → Bool × List Job
add_work queue_size jobs buffer max_size client_fd bytes_read =
    if queue_size == max_size
    then (false, jobs)
    else (true, insert_job (new_job buffer client_fd bytes_read) jobs)

-- `none` is the null pointer that the caller gets.
unfoldable pub get_work : List Job → Option Job
get_work [] = none
get_work (j ∷ js) = some j

-- `ret->next` faults on an empty queue (`none`); `queue_size--` is the ℕ of the result.
unfoldable pub get_work_nonblocking : ℕ → List Job → Option (Job × ℕ × List Job)
get_work_nonblocking queue_size [] = none
get_work_nonblocking queue_size (j ∷ js) = some (j, queue_size - 1, js)
