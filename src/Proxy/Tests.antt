-- ===== src/Proxy/Tests.antt =====
-- The theorems about the proxy at concrete requests, queues and schedules.
use cs537projects.Base.{ℕ, ◌≡◌, refl, true, some, List, [], ◌∷◌, ◌++◌, arith}
use cs537projects.Base.Int.{pos}
use cs537projects.CString.{c_string, strstr, starts_with, is_digit}
use cs537projects.CString.{atoi}
use cs537projects.Proxy.Options.{
  Given, workers, listeners, Counted, parse_args, all_written, an_option, default_settings, parsed,
  all_applied, parse_args-all_written,
}
use cs537projects.Proxy.Queue.{Job, insert_job}
use cs537projects.Proxy.Queue.Order.{Placed, insert_job-Placed}
use cs537projects.Proxy.Delay.{delay_header, newline, extract_delay_time, extract_delay_time-digits}
use cs537projects.Proxy.Server.{
  System, request, Reach, here, next, init, start, is_get_job, enqueue, begin_work, take_job,
  update, Worker,
}
use cs537projects.Proxy.Server.Safety.{Inv, Reach-Inv}

abbrev job : ℕ → ℕ → Job
job p fd = record { buffer = b'G' ∷ []; priority = pos p; client_fd = fd; bytes_read = 1 }

abbrev two_jobs : List Job
two_jobs = job 7 1 ∷ job 3 2 ∷ []

insert_job_test : insert_job (job 7 4) two_jobs ≡ job 7 1 ∷ job 7 4 ∷ job 3 2 ∷ []
unfolding insert_job
insert_job_test = refl

insert_job-Placed_example : Placed (job 5 4) two_jobs (insert_job (job 5 4) two_jobs)
insert_job-Placed_example = insert_job-Placed (job 5 4) two_jobs (omega arith, (tt, tt))

-- "Delay: 12" in the second line of a request
abbrev get_line : List ℕ
get_line = b'G' ∷ b'E' ∷ b'T' ∷ 13 ∷ 10 ∷ []

extract_delay_time-digits_example :
    extract_delay_time true (get_line ++ (delay_header ++ ((b'1' ∷ b'2' ∷ []) ++ (newline ++ []))))
    ≡ some (pos 12)
unfolding is_digit
extract_delay_time-digits_example =
    extract_delay_time-digits get_line (b'1' ∷ b'2' ∷ []) []
      (omega arith, (omega arith, (omega arith, (omega arith, (omega arith, tt)))))
      (refl, (refl, tt)) (omega arith)

-- "GET /4/a.html", queued by listener 0
abbrev request_line : List ℕ
request_line = b'G' ∷ b'E' ∷ b'T' ∷ 32 ∷ b'/' ∷ b'4' ∷ b'/' ∷ b'a' ∷ []

abbrev one_queued : System
one_queued = record init { server = enqueue 10 request_line 5 8 start }

Reach-one_queued : Reach 10 one_queued
unfolding is_get_job c_string strstr starts_with
Reach-one_queued = next here (request 0 request_line 5 8 refl refl refl refl)

Reach-Inv_example : Inv 10 (enqueue 10 request_line 5 8 start)
unfolding enqueue cs537projects.Proxy.Queue.add_work
Reach-Inv_example = Reach-Inv 10 Reach-one_queued refl

-- A worker that finds the queue empty and wakes up with nothing queued.
abbrev asleep : System
asleep = record init {
  server = (begin_work start).0;
  worker = update init.worker 0 (begin_work start).1;
}

abbrev woken : System
woken = record asleep {
  server = take_job asleep.server;
  worker = update asleep.worker 0 Worker.fresh;
}

-- "-w 4 -l 2 80 81"
abbrev command_line : List Given
command_line =
    workers (b'4' ∷ []) ∷ listeners (b'2' ∷ []) ((b'8' ∷ b'0' ∷ []) ∷ (b'8' ∷ b'1' ∷ []) ∷ []) ∷ []

command_line-Counted : Counted command_line
unfolding atoi cs537projects.CString.is_space cs537projects.CString.is_digit
command_line-Counted = (refl, tt)

parse_args-all_written_example :
    parse_args (all_written command_line) an_option default_settings
    ≡ parsed (all_applied command_line default_settings)
parse_args-all_written_example =
    parse_args-all_written command_line default_settings command_line-Counted
