-- ===== src/Proc/CommonJob/Loop/Stopped.antt =====
-- CommonJob.Run after Stop: the process is not started again.
use mittnite.Prelude.{
  ℕ, ◌≡◌, refl, ◌∙◌, Bool, true, false, ◌||◌, Option, none, some, List, [], ◌∷◌, ◌++◌, arith,
  if◌then◌else◌, Bool-cases, inl, inr,
}
use mittnite.Proc.WaitStatus.{WaitError}
use mittnite.Proc.BaseJob.{BaseJob, Effect, put_phase}
use mittnite.Proc.BaseJob.StartOnce.{
  will_be_restarted, will_be_stopped, Run, marks_started, start_once,
}
use mittnite.Proc.BaseJob.StartOnce.Results.{stop_asked, restart_asked, start_once-exited}
use mittnite.Proc.BaseJob.StartOnce.Keeps.{Finished, stop-start_once}
use mittnite.Proc.CommonJob.Loop.{
  Round, LoopState, Progress, running, returned, handle_result, after_run, run_round, is_stopping,
  run_loop,
}

run_loop-stopping :
    (rs : List Round) (s : LoopState) → is_stopping s ≡ true → run_loop rs s ≡ returned s none
unfolding run_loop
run_loop-stopping [] s e = rw (e, run_loop) refl
run_loop-stopping (r ∷ rs) s e = rw (e, run_loop) refl

-- The rest of a loop whose round has made some progress.
abbrev loop_on : List Round → Progress → Progress
loop_on rs p = elim p [ returned t e ↦ returned t e | running t ↦ run_loop rs t ]

pub run_loop-next :
    (rs : List Round) (r : Round) (s : LoopState)
    → is_stopping s ≡ false
    → run_loop (r ∷ rs) s ≡ loop_on rs (run_round s r)
unfolding run_loop
run_loop-next rs r s e = rw (e, run_loop) refl

-- The loop returns without an error, with the job to be stopped and these effects.
record Stops (p : Progress) (effects : List Effect) : Type 0 where
  state : LoopState
  returns : (rs : List Round) → loop_on rs p ≡ returned state none
  stop : state.job.stop ≡ true
  same : state.effects ≡ effects

handle_result-Stops :
    (s : LoopState) (r : Round) (restart : Bool)
    → s.job.stop ≡ true
    → Stops
        (handle_result s r (if restart then some will_be_restarted else some will_be_stopped))
        s.effects
unfolding handle_result put_phase is_stopping
handle_result-Stops s r true e = record {
  state = s;
  returns = λ rs. run_loop-stopping rs s (rw e refl);
  stop = e;
  same = refl;
}
handle_result-Stops s r false e = record { state = _; returns = λ rs. refl; stop = e; same = refl }

after_run-Stops :
    (s : LoopState) (r : Round) (run : Run) (restart : Bool)
    → run.job.stop ≡ true
    → run.error ≡ (if restart then some will_be_restarted else some will_be_stopped)
    → Stops (after_run s r run) (s.effects ++ run.effects)
unfolding after_run put_phase
after_run-Stops s r run restart e result = elim (Bool-cases r.shutdown) [
  | inl down ↦ rw down (record { state = _; returns = λ rs. refl; stop = e; same = refl })
  | inr up ↦ rw (up, result) (handle_result-Stops _ r restart e)
]

-- In a loop that was not to stop yet, if a stop is asked for while the process of a job runs, and
-- the process then ends, Run returns without an error, whatever rounds might follow, and even if a
-- restart is asked for as well: the only effects are those of this one run of the process, and the
-- job is still marked to be stopped.
pub stop_is_final :
    (s : LoopState) (r : Round) (pid : ℕ) (e : Option WaitError)
    → Finished (record s.job.base { interrupt = some false }) r.attempt pid e
    → is_stopping s ≡ false
    → stop_asked r.attempt.meanwhile ≡ true
    → (t : LoopState) × ((rs : List Round) → run_loop (r ∷ rs) s ≡ returned t none)
      × (t.job.stop ≡ true)
      × (t.effects
          ≡ s.effects
            ++ (start_once
                (marks_started r.launched_at)
                (record s.job.base { interrupt = some false })
                r.attempt).effects)
unfolding run_round
stop_is_final s r pid e f going asked =
    let stops = after_run-Stops s r run restart stop result in
    (stops.state, (λ rs. run_loop-next rs r s going ∙ stops.returns rs), stops.stop, stops.same)
  where
    job : BaseJob
    job = record s.job.base { interrupt = some false }

    run : Run
    run = start_once (marks_started r.launched_at) job r.attempt

    restart : Bool
    restart = job.restart || restart_asked r.attempt.meanwhile

    stop : run.job.stop ≡ true
    stop =
        stop-start_once (marks_started r.launched_at) r.attempt pid e job f ∙ ground (arith, asked)

    result : run.error ≡ (if restart then some will_be_restarted else some will_be_stopped)
    result =
        start_once-exited (marks_started r.launched_at) job r.attempt e pid f.opened f.stdout_pipe
          f.stderr_pipe f.start f.ending
        ∙ ground (arith, asked)
