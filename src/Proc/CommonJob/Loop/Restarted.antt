-- ===== src/Proc/CommonJob/Loop/Restarted.antt =====
-- CommonJob.Run after Restart: the process is started again, and no attempt is used up.
use mittnite.Prelude.{
  ℕ, ◌≡◌, refl, ◌∙◌, ap, true, false, ◌||◌, Option, some, List, ◌∷◌, ◌++◌, arith,
}
use mittnite.Proc.WaitStatus.{WaitError}
use mittnite.Proc.BaseJob.{BaseJob}
use mittnite.Proc.BaseJob.StartOnce.{Run, will_be_restarted, marks_started, start_once}
use mittnite.Proc.BaseJob.StartOnce.Results.{stop_asked, restart_asked, start_once-exited}
use mittnite.Proc.BaseJob.StartOnce.Keeps.{Finished, stop-start_once, restart-start_once}
use mittnite.Proc.CommonJob.Loop.{
  Round, LoopState, running, handle_result, after_run, run_round, is_stopping, run_loop,
}
use mittnite.Proc.CommonJob.Loop.Stopped.{run_loop-next}

-- The base job with which a round starts.
abbrev pub launched : LoopState → BaseJob
launched s = record s.job.base { interrupt = some false }

-- A restart, and no stop, is asked for while the process runs; mittnite goes on.
pub record RestartRound (s : LoopState) (r : Round) : Type 0 where
  pub pid : ℕ
  pub exit : Option WaitError
  pub finished : Finished (launched s) r.attempt pid exit
  pub asked : restart_asked r.attempt.meanwhile ≡ true
  pub no_stop : stop_asked r.attempt.meanwhile ≡ false
  pub open_run : r.shutdown ≡ false

-- The state between two rounds, as a restart leaves it.
pub record Restarted (s t : LoopState) : Type 0 where
  pub attempts : t.attempts ≡ s.attempts
  pub back_off : t.back_off ≡ s.back_off
  pub restart : t.job.restart ≡ false
  pub goes_on : is_stopping t ≡ false

after_run-restarts :
    (s : LoopState) (r : Round) (run : Run)
    → r.shutdown ≡ false
    → run.error ≡ some will_be_restarted
    → after_run s r run
      ≡ running
          (record s { job = record s.job { base = run.job }; effects = s.effects ++ run.effects })
unfolding after_run handle_result
after_run-restarts s r run up result = rw (up, result) refl

-- In a loop that was not to stop yet, if a restart and no stop is asked for while the process of a
-- job runs, the process then ends, and mittnite is not shut down, the loop goes on with the next
-- round, which starts the process again: without a wait, with the counter of attempts and the wait
-- as they were, and with the request for a restart forgotten.
pub restart_is_free :
    (s : LoopState) (r : Round)
    → is_stopping s ≡ false
    → RestartRound s r
    → (t : LoopState) × Restarted s t
      × ((rs : List Round) → run_loop (r ∷ rs) s ≡ run_loop rs t)
      × (t.effects
          ≡ s.effects ++ (start_once (marks_started r.launched_at) (launched s) r.attempt).effects)
unfolding run_round is_stopping
restart_is_free s r going q = (
  t,
  record {
    attempts = refl;
    back_off = refl;
    restart =
        restart-start_once (marks_started r.launched_at) r.attempt q.pid q.exit (launched s) f;
    goes_on = ap (λ b. b || s.cancelled) same_stop ∙ going;
  },
  (λ rs. run_loop-next rs r s going ∙ rw (after_run-restarts s r run q.open_run result) refl),
  refl,
)
  where
    f : Finished (launched s) r.attempt q.pid q.exit
    f = q.finished

    run : Run
    run = start_once (marks_started r.launched_at) (launched s) r.attempt

    t : LoopState
    t = record s { job = record s.job { base = run.job }; effects = s.effects ++ run.effects }

    same_stop : run.job.stop ≡ s.job.stop
    same_stop =
        stop-start_once (marks_started r.launched_at) r.attempt q.pid q.exit (launched s) f
        ∙ ground (arith, q.no_stop)

    result : run.error ≡ some will_be_restarted
    result =
        start_once-exited (marks_started r.launched_at) (launched s) r.attempt q.exit q.pid f.opened
          f.stdout_pipe f.stderr_pipe f.start f.ending
        ∙ ground (arith, q.asked)
