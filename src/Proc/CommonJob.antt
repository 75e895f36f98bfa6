-- ===== src/Proc/CommonJob.antt =====
-- pkg/proc/job_common.go: a job that is started at once and restarted when it fails.
pub mod Loop
pub mod Watching
use mittnite.Prelude.{
  ℕ, String, Bool, true, false, Option, none, some, List, [], ◌∷◌, ◌++◌, ltb, if◌then◌else◌, Result,
  ok, err,
}
use mittnite.Config.{JobConfig}
use mittnite.Proc.BaseJob.{
  BaseJob, Effect, init, signal_all, sigterm, Request, restarts, stops, apply_request,
}
use mittnite.Proc.BaseJob.StdFiles.{validate_std_files}
use mittnite.Proc.Phase.{JobPhase}

-- `watching_files` is a Go map; the nil map before `Init` is empty here, and `Watch` runs only on
-- jobs that `startJob` has initialised.
pub record CommonJob : Type 0 where
  pub base : BaseJob
  pub open base use {interrupt, cmd, restart, stop, stop_expected, stdout, stderr, phase}
  pub config : JobConfig
  pub watching_files : List (String × ℕ)

unfoldable pub checked_job : CommonJob → List Effect × Option String → Result String CommonJob
checked_job job (effects, none) = ok job
checked_job job (effects, some e) = err e

-- NewCommonJob (pkg/proc/types.go) at the time `now`, with what `prepareStdFile` answers.
unfoldable pub new_common_job : ℕ → (String → Result String ℕ) → JobConfig → Result String CommonJob
unfolding checked_job
new_common_job now prepare c =
    checked_job (record { base = init now c.base; config = c; watching_files = [] })
      (validate_std_files prepare c.base)

-- `alive` is the answer of kill(pid, 0).
alive_process : (ℕ → Bool) → Option ℕ → Bool
alive_process alive none = false
alive_process alive (some pid) = if ltb 0 pid then alive pid else true

unfoldable pub is_running : (ℕ → Bool) → CommonJob → Bool
unfolding alive_process
is_running alive job = alive_process alive job.cmd

-- `job.interrupt()` is a call of a nil function, a panic, before the first round of `Run`.
pub record Control : Type 0 where
  pub job : CommonJob
  pub effects : List Effect
  pub panics : Bool

abbrev pub is_nil_func : Option Bool → Bool
is_nil_func none = true
is_nil_func (some _) = false

control : Request → CommonJob → Control
control request job = record {
  job = record job { base = apply_request request job.base };
  effects = signal_all job.base sigterm;
  panics = is_nil_func job.interrupt;
}

-- CommonJob.Restart
unfoldable pub restart_job : CommonJob → Control
unfolding control
restart_job job = control restarts job

-- CommonJob.Stop
unfoldable pub stop_job : CommonJob → Control
unfolding control
stop_job job = control stops job

pub record CommonJobStatus : Type 0 where
  pub pid : ℕ
  pub running : Bool
  pub phase : JobPhase
  pub config : JobConfig

abbrev pid_of : Option ℕ → ℕ
pid_of none = 0
pid_of (some pid) = pid

unfoldable pub status : (ℕ → Bool) → CommonJob → CommonJobStatus
unfolding is_running
status alive job = record {
  pid = if is_running alive job then pid_of job.cmd else 0;
  running = is_running alive job;
  phase = job.phase;
  config = job.config;
}
