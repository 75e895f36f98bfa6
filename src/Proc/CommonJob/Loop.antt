-- ===== src/Proc/CommonJob/Loop.antt =====
-- pkg/proc/job_common.go, CommonJob.Run: the loop that restarts a job. What happens around it
-- comes as one `Round` for each turn of the loop.
pub mod Bounds
pub mod Invariant
pub mod QuickFailure
pub mod CrashLoop
pub mod Returns
pub mod Restarted
pub mod Stopped
use mittnite.Prelude.{
  ℕ, suc, ◌+◌, ◌-◌, String, Bool, true, false, ◌||◌, Option, none, some, List, [], ◌∷◌, ◌++◌, ltb,
  ltb_ℤ, beq_ℤ, pos, negsuc, if◌then◌else◌,
}
use mittnite.Config.{get_max_attempts}
use mittnite.Proc.Phase.{JobPhaseReason, stopped, completed, failed, crash_looping}
use mittnite.Proc.BackOff.{second, max_back_off, calculate_next_back_off}
use mittnite.Proc.BaseJob.{BaseJob, Effect, sleep_up_to, Request, apply_requests, put_phase}
use mittnite.Proc.BaseJob.StartOnce.{
  RunError, will_be_restarted, will_be_stopped, stopped_intentionally, exits, fails, Attempt, Run,
  marks_started, start_once,
}
use mittnite.Proc.CommonJob.{CommonJob}

-- The times are read from the monotonic clock. `shutdown` says that the context was cancelled
-- during the run, `shutdown_asleep` that it was during the sleep after it.
pub record Round : Type 0 where
  pub started_at : ℕ
  pub launched_at : ℕ
  pub ended_at : ℕ
  pub attempt : Attempt
  pub shutdown : Bool
  pub sleeping : List Request
  pub shutdown_asleep : Bool

pub record LoopState : Type 0 where
  pub job : CommonJob
  pub back_off : ℕ
  pub attempts : ℕ
  pub cancelled : Bool
  pub effects : List Effect

-- "reached max retries for job %s; last error: %w"
pub data JobError : Type 0 where
  max_retries : String → Option RunError → JobError

pub data Progress : Type 0 where
  running : LoopState → Progress
  returned : LoopState → Option JobError → Progress

abbrev in_phase : ℕ → JobPhaseReason → LoopState → LoopState
in_phase now reason s = record s { job = record s.job { base = put_phase now reason s.job.base } }

-- The job is out of attempts.
give_up : LoopState → Round → Option RunError → Progress
give_up s r e =
    let s' = in_phase r.ended_at failed s in
    if s.job.config.can_fail
    then returned s' none
    else returned s' (some (max_retries s.job.config.name e))

-- One more attempt after the crash-loop sleep, whose longest time is the effect.
try_again : LoopState → Round → LoopState
try_again s r =
    let s' = in_phase r.ended_at crash_looping s in
    record s' {
      back_off = calculate_next_back_off s.back_off max_back_off;
      job = record s'.job { base = apply_requests r.sleeping s'.job.base };
      cancelled = s.cancelled || r.shutdown_asleep;
      effects = s.effects ++ sleep_up_to s.back_off ∷ [];
    }

count_attempt : LoopState → Round → LoopState
count_attempt s r =
    if ltb s.back_off (r.ended_at - r.started_at)
    then record s { back_off = second; attempts = 1 }
    else record s { attempts = s.attempts + 1 }

pub has_attempts : LoopState → Bool
has_attempts s =
    let maximum = get_max_attempts s.job.config in
    beq_ℤ maximum (negsuc 0) || ltb_ℤ (pos s.attempts) maximum

retry : LoopState → Round → Option RunError → Progress
unfolding give_up try_again count_attempt has_attempts
retry s r e =
    let t = count_attempt s r in if has_attempts t then running (try_again t r) else give_up t r e

-- The switch on the error of startOnce.
handle_result : LoopState → Round → Option RunError → Progress
unfolding retry
handle_result s r none =
    if s.job.config.one_time
    then returned (in_phase r.ended_at completed s) none
    else retry s r none
handle_result s r (some will_be_restarted) = running s
handle_result s r (some will_be_stopped) = returned (in_phase r.ended_at stopped s) none
handle_result s r (some stopped_intentionally) = returned (in_phase r.ended_at stopped s) none
handle_result s r (some (exits e)) = retry s r (some (exits e))
handle_result s r (some (fails e)) = retry s r (some (fails e))

after_run : LoopState → Round → Run → Progress
unfolding handle_result
after_run s r run =
    let s' = record s {
      job = record s.job { base = run.job };
      effects = s.effects ++ run.effects;
    } in
    if r.shutdown
    then returned (in_phase r.ended_at stopped (record s' { cancelled = true })) none
    else handle_result s' r run.error

pub run_round : LoopState → Round → Progress
unfolding after_run
run_round s r = after_run s r (
    start_once (marks_started r.launched_at) (record s.job.base { interrupt = some false })
      r.attempt)

unfoldable pub is_stopping : LoopState → Bool
is_stopping s = s.job.stop || s.cancelled

-- The loop, for as many rounds as there are.
pub run_loop : List Round → LoopState → Progress
run_loop [] s = if is_stopping s then returned s none else running s
run_loop (r ∷ rs) s = elim (is_stopping s) [
  | true ↦ returned s none
  | false ↦ elim (run_round s r) [ returned t e ↦ returned t e | running t ↦ run_loop rs t ]
]

abbrev pub initial : CommonJob → Bool → LoopState
initial job cancelled = record {
  job = job;
  back_off = second;
  attempts = 0;
  cancelled = cancelled;
  effects = [];
}

-- CommonJob.Run, with the state of the context when it is called.
pub run : CommonJob → Bool → List Round → Progress
run job cancelled rounds =
    if job.stop
    then returned (initial job cancelled) none
    else run_loop rounds (initial job cancelled)
