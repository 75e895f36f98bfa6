-- ===== src/Proc/BaseJob/StartOnce/Results.antt =====
-- What startOnce returns when the process ends, for every interleaving of requests.
use mittnite.Prelude.{
  ℕ, ◌≡◌, ◌∙◌, Bool, true, false, ◌||◌, ◌&&◌, Option, none, some, List, [], ◌∷◌, arith, ok,
  if◌then◌else◌, Bool-cases, inl, inr,
}
use mittnite.Proc.WaitStatus.{WaitError, terminated_by_signal}
use mittnite.Proc.BaseJob.{
  BaseJob, Effect, close_pipe_writers, Request, marks_restart, restarts, stops, expects_stop,
  apply_request, apply_requests, put_phase,
}
use mittnite.Proc.BaseJob.StdFiles.{Opens, Opening, create_and_open_std_file, is_decorated}
use mittnite.Proc.BaseJob.StartOnce.{
  RunError, will_be_restarted, will_be_stopped, stopped_intentionally, exits, exited, Attempt,
  Receiver, passive, marks_started, receive, settle, finish, launch, with_pipes, start_opened,
  start_unless, drained, start_once,
}

abbrev asks_restart : Request → Bool
asks_restart marks_restart = true
asks_restart restarts = true
asks_restart _ = false

abbrev asks_stop : Request → Bool
asks_stop stops = true
asks_stop _ = false

abbrev asks_expect : Request → Bool
asks_expect expects_stop = true
asks_expect _ = false

abbrev pub any_request : (Request → Bool) → List Request → Bool
any_request p [] = false
any_request p (r ∷ rs) = p r || any_request p rs

-- Whether a request in the list asks for a restart, for a stop, or announces one.
abbrev pub restart_asked : List Request → Bool
restart_asked = any_request asks_restart

abbrev pub stop_asked : List Request → Bool
stop_asked = any_request asks_stop

abbrev pub stop_announced : List Request → Bool
stop_announced = any_request asks_expect

pub restart-apply_requests :
    (rs : List Request) (job : BaseJob)
    → (apply_requests rs job).restart ≡ (job.restart || restart_asked rs)
unfolding apply_requests apply_request
restart-apply_requests [] job = ground arith
restart-apply_requests (r ∷ rs) job =
    ground (arith, restart-apply_requests rs (apply_request r job))

pub stop-apply_requests :
    (rs : List Request) (job : BaseJob) → (apply_requests rs job).stop ≡ (job.stop || stop_asked rs)
unfolding apply_requests apply_request
stop-apply_requests [] job = ground arith
stop-apply_requests (r ∷ rs) job = ground (arith, stop-apply_requests rs (apply_request r job))

pub stop_expected-apply_requests :
    (rs : List Request) (job : BaseJob)
    → (apply_requests rs job).stop_expected ≡ (job.stop_expected || stop_announced rs)
unfolding apply_requests apply_request
stop_expected-apply_requests [] job = ground arith
stop_expected-apply_requests (r ∷ rs) job =
    ground (arith, stop_expected-apply_requests rs (apply_request r job))

abbrev pub plain_result : Bool → Option WaitError → Option RunError
plain_result announced none = none
plain_result announced (some e) =
    if announced && terminated_by_signal e 15 then some stopped_intentionally else some (exits e)

abbrev result_of : Bool → Bool → Bool → Option WaitError → Option RunError
result_of restart stop announced e =
    if restart
    then some will_be_restarted
    else (if stop then some will_be_stopped else plain_result announced e)

settle-result :
    (job : BaseJob) (e : Option WaitError)
    → (settle job e).1 ≡ result_of job.restart job.stop job.stop_expected e
unfolding settle
settle-result job none = ground arith
settle-result job (some e) = ground arith

-- The flags that decide a result.
record Flags (j k : BaseJob) : Type 0 where
  restart : j.restart ≡ k.restart
  stop : j.stop ≡ k.stop
  announced : j.stop_expected ≡ k.stop_expected

receive-Flags : (r : Receiver) (job : BaseJob) → Flags (receive r job) job
unfolding receive put_phase
receive-Flags passive job = ground arith
receive-Flags (marks_started now) job = ground arith

create_and_open_std_file-Flags :
    (job : BaseJob) (o : Opens) → Flags (create_and_open_std_file job o).job job
unfolding create_and_open_std_file
create_and_open_std_file-Flags job o = ground arith

launch-exited :
    (receiver : Receiver) (job : BaseJob) (a : Attempt) (e : Option WaitError) (pid : ℕ)
    (done writers : List Effect)
    → a.ending ≡ exited e
    → (launch receiver job a (ok pid) done writers).error
      ≡ result_of
          (job.restart || restart_asked a.meanwhile)
          (job.stop || stop_asked a.meanwhile)
          (job.stop_expected || stop_announced a.meanwhile)
          e
unfolding launch finish
launch-exited receiver job a e pid done writers ended =
    rw (ended, finish)
      (settle-result (apply_requests a.meanwhile j) e
        ∙ cc (
          restart-apply_requests a.meanwhile j,
          stop-apply_requests a.meanwhile j,
          stop_expected-apply_requests a.meanwhile j,
          flags.restart,
          flags.stop,
          flags.announced,
        ))
  where
    j : BaseJob
    j = receive receiver (record job { cmd = some pid })

    flags : Flags j (record job { cmd = some pid })
    flags = receive-Flags receiver (record job { cmd = some pid })

start_opened-exited :
    (receiver : Receiver) (job : BaseJob) (a : Attempt) (e : Option WaitError) (pid : ℕ)
    (done : List Effect)
    → a.stdout_pipe ≡ none
    → a.stderr_pipe ≡ none
    → a.start ≡ ok pid
    → a.ending ≡ exited e
    → (start_opened receiver job a done).error
      ≡ result_of
          (job.restart || restart_asked a.meanwhile)
          (job.stop || stop_asked a.meanwhile)
          (job.stop_expected || stop_announced a.meanwhile)
          e
unfolding start_opened with_pipes drained
start_opened-exited receiver job a e pid done p q started ended =
    elim (Bool-cases (is_decorated job.config)) [
      | inl yes_decorated ↦
          simp (yes_decorated, p, q, started)
            (launch-exited receiver job a e pid _ (close_pipe_writers ∷ []) ended)
      | inr plain ↦ simp (plain, started) (launch-exited receiver job a e pid done [] ended)
    ]

-- When the log files and pipes are there, the process starts, and it ends before mittnite is told
-- to: the result is a restart if one was asked for, else a stop if one was asked for, else the
-- exit of the process. A death by SIGTERM counts as intended only if it was announced during this
-- very run; an announcement left from before does not count.
pub start_once-exited :
    (receiver : Receiver) (job : BaseJob) (a : Attempt) (e : Option WaitError) (pid : ℕ)
    → (create_and_open_std_file (record job { stop_expected = false }) a.opens).error ≡ none
    → a.stdout_pipe ≡ none
    → a.stderr_pipe ≡ none
    → a.start ≡ ok pid
    → a.ending ≡ exited e
    → (start_once receiver job a).error ≡ (
        if job.restart || restart_asked a.meanwhile
        then some will_be_restarted
        else (if job.stop || stop_asked a.meanwhile
            then some will_be_stopped
            else plain_result (stop_announced a.meanwhile) e))
unfolding start_once
start_once-exited receiver job a e pid opened p q started ended =
    rw (opened, start_unless)
      (start_opened-exited receiver o.job a e pid o.effects p q started ended
        ∙ cc (flags.restart, flags.stop, flags.announced))
  where
    o : Opening
    o = create_and_open_std_file (record job { stop_expected = false }) a.opens

    flags : Flags o.job (record job { stop_expected = false })
    flags = create_and_open_std_file-Flags (record job { stop_expected = false }) a.opens
