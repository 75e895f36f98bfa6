-- ===== src/Examples/Loops.antt =====
-- A job that fails at once, twice in a row.
use mittnite.Prelude.{
  ◌≡◌, ◌≢◌, refl, true, false, Option, none, some, List, [], ◌∷◌, ok, pos, negsuc, if◌then◌else◌,
  arith, ◌*◌, ◌^◌, inr,
}
use Prim.Native.Nat.{min}
use mittnite.Config.{get_max_attempts}
use mittnite.Proc.Phase.{failed}
use mittnite.Proc.WaitStatus.{exit_error}
use mittnite.Proc.BackOff.{second}
use mittnite.Proc.BaseJob.{init, stops, restarts}
use mittnite.Proc.BaseJob.StdFiles.{create_and_open_std_file}
use mittnite.Proc.BaseJob.StartOnce.{RunError, exited, marks_started, start_once}
use mittnite.Proc.BaseJob.StartOnce.Keeps.{Finished}
use mittnite.Proc.CommonJob.Loop.{
  Round, run, run_loop, initial, is_stopping, LoopState, running, returned, max_retries,
}
use mittnite.Proc.CommonJob.Loop.QuickFailure.{QuickFailure}
use mittnite.Proc.CommonJob.Loop.CrashLoop.{crash_loop_continues, crash_loop_gives_up, Allows}
use mittnite.Proc.CommonJob.Loop.Returns.{run_error}
use mittnite.Proc.CommonJob.Loop.Bounds.{Bounded, run-Bounded}
use mittnite.Proc.CommonJob.Loop.Restarted.{RestartRound, Restarted, restart_is_free, launched}
use mittnite.Proc.CommonJob.Loop.Stopped.{stop_is_final}
use mittnite.Examples.{web}

abbrev fast_exit : Round
fast_exit = record {
  started_at = 10;
  launched_at = 11;
  ended_at = 20;
  attempt = record {
    opens = record { for_stdout = ok 3; for_stderr = ok 4 };
    stdout_pipe = none;
    stderr_pipe = none;
    start = ok 99;
    meanwhile = [];
    ending = exited (some (exit_error 256));
  };
  shutdown = false;
  sleeping = [];
  shutdown_asleep = false;
}

fast_exit-QuickFailure : QuickFailure fast_exit
fast_exit-QuickFailure = record {
  error = exit_error 256;
  ended = refl;
  alone = refl;
  quick = omega arith;
  open_run = refl;
  undisturbed_sleep = refl;
  open_sleep = refl;
}

limit_two : get_max_attempts web.config ≡ pos 2
unfolding get_max_attempts
limit_two = refl

two_allowed : Allows web.config 1
two_allowed = inr (2, limit_two, omega arith)

crash_loop_gives_up_example :
    (t : LoopState) × (e : Option RunError) × (run web false (fast_exit ∷ fast_exit ∷ [])
      ≡ returned t (if web.config.can_fail then none else some (max_retries web.config.name e)))
    × (t.job.phase.reason ≡ failed)
unfolding init
crash_loop_gives_up_example =
    crash_loop_gives_up web refl refl (fast_exit ∷ fast_exit ∷ [])
      (fast_exit-QuickFailure, (fast_exit-QuickFailure, tt)) (omega arith) limit_two

gave_up :
    (t : LoopState) × (e : Option RunError) × (run web false (fast_exit ∷ fast_exit ∷ [])
      ≡ returned t (if web.config.can_fail then none else some (max_retries web.config.name e)))
    × (t.job.phase.reason ≡ failed)
unfolding init
gave_up =
    crash_loop_gives_up web refl refl (fast_exit ∷ fast_exit ∷ [])
      (fast_exit-QuickFailure, (fast_exit-QuickFailure, tt)) (omega arith) limit_two

run_error_example :
    (web.config.can_fail ≡ false)
    × (get_max_attempts web.config ≢ negsuc 0)
    × (gave_up.0.job.phase.reason ≡ failed)
run_error_example =
    run_error web false (fast_exit ∷ fast_exit ∷ []) gave_up.0 (max_retries "web" gave_up.1)
      gave_up.2

-- The job is stopped, and asked to restart, while its process runs.
abbrev stopped_while_running : Round
stopped_while_running = record fast_exit {
  attempt = record fast_exit.attempt {
    meanwhile = stops ∷ restarts ∷ [];
    ending = exited (some (exit_error 15));
  };
}

stopped_while_running-Finished :
    Finished
      (record web.base { interrupt = some false })
      stopped_while_running.attempt
      99
      (some (exit_error 15))
unfolding create_and_open_std_file init
stopped_while_running-Finished = record {
  opened = refl;
  stdout_pipe = refl;
  stderr_pipe = refl;
  start = refl;
  ending = refl;
}

web_goes_on : is_stopping (initial web false) ≡ false
unfolding is_stopping init
web_goes_on = refl

stop_is_final_example :
    (t : LoopState) × ((rs : List Round)
      → run_loop (stopped_while_running ∷ rs) (initial web false) ≡ returned t none)
    × (t.job.stop ≡ true)
    × (t.effects
        ≡ (start_once
            (marks_started 11)
            (record web.base { interrupt = some false })
            stopped_while_running.attempt).effects)
stop_is_final_example =
    stop_is_final (initial web false) stopped_while_running 99 (some (exit_error 15))
      stopped_while_running-Finished web_goes_on refl

tried_again :
    (t : LoopState) × (run web false (fast_exit ∷ []) ≡ running t)
    × (t.attempts ≡ 1)
    × (t.back_off ≡ min (2 ^ 1) 300 * second)
unfolding init
tried_again =
    crash_loop_continues web refl refl (fast_exit ∷ []) (fast_exit-QuickFailure, tt) two_allowed

run-Bounded_example : Bounded web.config tried_again.0
run-Bounded_example = run-Bounded web false (fast_exit ∷ []) tried_again.0 tried_again.1

-- A restart is asked for while the process runs.
abbrev restarted_while_running : Round
restarted_while_running = record fast_exit {
  attempt = record fast_exit.attempt {
    meanwhile = restarts ∷ [];
    ending = exited (some (exit_error 15));
  };
}

restarted_while_running-RestartRound : RestartRound (initial web false) restarted_while_running
unfolding create_and_open_std_file init
restarted_while_running-RestartRound = record {
  pid = 99;
  exit = some (exit_error 15);
  finished = record {
    opened = refl;
    stdout_pipe = refl;
    stderr_pipe = refl;
    start = refl;
    ending = refl;
  };
  asked = refl;
  no_stop = refl;
  open_run = refl;
}

restart_is_free_example :
    (t : LoopState) × Restarted (initial web false) t
    × ((rs : List Round)
        → run_loop (restarted_while_running ∷ rs) (initial web false) ≡ run_loop rs t)
    × (t.effects
        ≡ (start_once
            (marks_started 11)
            (launched (initial web false))
            restarted_while_running.attempt).effects)
restart_is_free_example =
    restart_is_free (initial web false) restarted_while_running web_goes_on
      restarted_while_running-RestartRound
