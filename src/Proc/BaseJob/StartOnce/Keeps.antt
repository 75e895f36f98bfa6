-- ===== src/Proc/BaseJob/StartOnce/Keeps.antt =====
-- What startOnce leaves of the flags that say whether a job is to be stopped or restarted.
use mittnite.Prelude.{
  ℕ, ◌≡◌, ap, refl, ◌∙◌, false, ◌||◌, Option, none, some, List, [], ◌∷◌, arith, ok, Bool-cases, inl,
  inr,
}
use mittnite.Proc.WaitStatus.{WaitError}
use mittnite.Proc.BaseJob.{BaseJob, Effect, close_pipe_writers, apply_requests, put_phase}
use mittnite.Proc.BaseJob.StdFiles.{Opening, create_and_open_std_file, is_decorated}
use mittnite.Proc.BaseJob.StartOnce.{
  exited, Attempt, Receiver, passive, marks_started, receive, settle_exit, settle, finish, launch,
  with_pipes, start_opened, start_unless, drained, closing, start_once,
}
use mittnite.Proc.BaseJob.StartOnce.Results.{stop_asked, stop-apply_requests}

stop-settle : (job : BaseJob) (e : Option WaitError) → (settle job e).0.stop ≡ job.stop
unfolding settle settle_exit
stop-settle job none = ground arith
stop-settle job (some e) = ground arith

restart-settle : (job : BaseJob) (e : Option WaitError) → (settle job e).0.restart ≡ false
unfolding settle settle_exit
restart-settle job none = ground arith
restart-settle job (some e) = ground arith

stop-receive : (r : Receiver) (job : BaseJob) → (receive r job).stop ≡ job.stop
unfolding receive put_phase
stop-receive passive job = refl
stop-receive (marks_started now) job = refl

stop-opened :
    (job : BaseJob) (a : Attempt)
    → (create_and_open_std_file (record job { stop_expected = false }) a.opens).job.stop ≡ job.stop
unfolding create_and_open_std_file
stop-opened job a = ground arith

-- The log files and pipes are there, the process starts, and it ends by itself or by a signal
-- before mittnite gives up waiting.
pub record Finished (job : BaseJob) (a : Attempt) (pid : ℕ) (e : Option WaitError) : Type 0 where
  pub opened :
      (create_and_open_std_file (record job { stop_expected = false }) a.opens).error ≡ none
  pub stdout_pipe : a.stdout_pipe ≡ none
  pub stderr_pipe : a.stderr_pipe ≡ none
  pub start : a.start ≡ ok pid
  pub ending : a.ending ≡ exited e

module _ (receiver : Receiver) (a : Attempt) (pid : ℕ) (e : Option WaitError) where
  -- The job with its new process, when the process has ended.
  settled : BaseJob → BaseJob
  settled job =
      (settle (apply_requests a.meanwhile (receive receiver (record job { cmd = some pid }))) e).0

  job-launch :
      (job : BaseJob) (done writers : List Effect)
      → a.ending ≡ exited e
      → (launch receiver job a (ok pid) done writers).job ≡ settled job
  unfolding launch finish settled
  job-launch job done writers ended = rw (ended, finish) refl

  job-start_opened :
      (job : BaseJob) (done : List Effect)
      → a.stdout_pipe ≡ none
      → a.stderr_pipe ≡ none
      → a.start ≡ ok pid
      → a.ending ≡ exited e
      → (start_opened receiver job a done).job ≡ settled job
  unfolding start_opened with_pipes drained
  job-start_opened job done p q started ended = elim (Bool-cases (is_decorated job.config)) [
    | inl yes_decorated ↦
        simp (yes_decorated, p, q, started) (job-launch job _ (close_pipe_writers ∷ []) ended)
    | inr plain ↦ simp (plain, started) (job-launch job done [] ended)
  ]

  module _ (job : BaseJob) (f : Finished job a pid e) where
    o : Opening
    o = create_and_open_std_file (record job { stop_expected = false }) a.opens

    job-start_once : (start_once receiver job a).job ≡ settled o.job
    unfolding start_once closing o
    job-start_once =
        rw (f.opened, start_unless)
          (job-start_opened o.job o.effects f.stdout_pipe f.stderr_pipe f.start f.ending)

    -- After the run, the job is to be stopped if it was before or if a stop was asked for.
    pub stop-start_once :
        (start_once receiver job a).job.stop ≡ (job.stop || stop_asked a.meanwhile)
    unfolding settled o
    stop-start_once =
        let j : BaseJob = receive receiver (record o.job { cmd = some pid }) in
        ap (λ (k : BaseJob). k.stop) job-start_once
        ∙ stop-settle (apply_requests a.meanwhile j) e
        ∙ cc (
          stop-apply_requests a.meanwhile j,
          stop-receive receiver (record o.job { cmd = some pid }),
          stop-opened job a,
        )

    -- After the run, no restart is asked for any more.
    pub restart-start_once : (start_once receiver job a).job.restart ≡ false
    unfolding settled
    restart-start_once =
        ap (λ (k : BaseJob). k.restart) job-start_once
        ∙ restart-settle
            (apply_requests a.meanwhile (receive receiver (record o.job { cmd = some pid }))) e
