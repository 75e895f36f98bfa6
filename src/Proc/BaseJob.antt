-- ===== src/Proc/BaseJob.antt =====
-- pkg/proc/types.go and pkg/proc/basejob.go: the state that every kind of job shares. What a
-- method does to the outside comes back as a list of effects, oldest first.
pub mod StdFiles
pub mod StartOnce
pub mod Tail
pub mod Streams
pub mod Output
pub mod Commands
use mittnite.Prelude.{
  ℕ, String, Bool, true, false, Option, none, some, List, [], ◌∷◌, ℤ, pos, Result, if◌then◌else◌,
}
use mittnite.Config.{BaseJobConfig}
use mittnite.Proc.Phase.{JobPhase, JobPhaseReason, set_phase, reset, awaiting_readiness}

-- Where a job's output goes: mittnite's own streams, or an open log file.
pub data Target : Type 0 where
  os_stdout os_stderr : Target
  log_file : ℕ → Target

pub data Effect : Type 0 where
  opened : ℕ → Effect
  closed : Target → Effect
  exec_command : String → List String → List String → String → Effect
  start_process : ℕ → Effect
  sleep_up_to : ℕ → Effect
  register_pid : ℕ → String → Effect
  unregister_pid : ℕ → Effect
  kill_group : ℕ → ℤ → Effect
  kill_process : ℕ → ℤ → Effect
  close_pipe_writers : Effect
  forward_output : Target → String → String → Effect
  drain_forwarders : Effect
  run_command : String → List String → List String → Effect

abbrev pub sigterm : ℤ
sigterm = pos 15

abbrev pub sigkill : ℤ
sigkill = pos 9

-- `cmd` is the pid of the last started process. `interrupt` is `none` while job.interrupt is nil,
-- and says whether job.ctx is cancelled from the first round of `Run` on.
pub record BaseJob : Type 0 where
  pub config : BaseJobConfig
  pub interrupt : Option Bool
  pub cmd : Option ℕ
  pub restart : Bool
  pub stop : Bool
  pub stop_expected : Bool
  pub stdout : Target
  pub stderr : Target
  pub phase : JobPhase

-- baseJob.init at the time `now`, on the zero value.
unfoldable pub init : ℕ → BaseJobConfig → BaseJob
init now config = record {
  config = config;
  interrupt = none;
  cmd = none;
  restart = false;
  stop = false;
  stop_expected = false;
  stdout = os_stdout;
  stderr = os_stderr;
  phase = set_phase now awaiting_readiness reset;
}

signal_process : (ℕ → ℤ → Effect) → Option ℕ → ℤ → List Effect
signal_process kill none sig = []
signal_process kill (some pid) sig = kill pid sig ∷ []

unfoldable pub signal_all : BaseJob → ℤ → List Effect
unfolding signal_process
signal_all job sig = signal_process kill_group job.cmd sig

unfoldable pub signal : BaseJob → ℤ → List Effect
unfolding signal_process
signal job sig = signal_process kill_process job.cmd sig

unfoldable pub mark_for_restart : BaseJob → BaseJob
mark_for_restart job = record job { restart = true }

unfoldable pub put_phase : ℕ → JobPhaseReason → BaseJob → BaseJob
put_phase now reason job = record job { phase = set_phase now reason job.phase }

unfoldable pub reset_phase : BaseJob → BaseJob
reset_phase job = record job { phase = reset }

unfoldable pub is_controllable : BaseJob → Bool
is_controllable job = job.config.controllable

unfoldable pub get_name : BaseJob → String
get_name job = job.config.name

-- What other goroutines do to a job while it runs: a watch that asks for a restart, `Restart`,
-- `Stop` and the cool-down watcher of a lazy job. The first sends the signal itself (`Watch`).
pub data Request : Type 0 where
  marks_restart restarts stops expects_stop : Request

cancel_ctx : Option Bool → Option Bool
cancel_ctx none = none
cancel_ctx (some _) = some true

unfoldable pub apply_request : Request → BaseJob → BaseJob
unfolding cancel_ctx
apply_request marks_restart job = record job { restart = true }
apply_request restarts job = record job { restart = true; interrupt = cancel_ctx job.interrupt }
apply_request stops job = record job { stop = true; interrupt = cancel_ctx job.interrupt }
apply_request expects_stop job = record job { stop_expected = true }

unfoldable pub apply_requests : List Request → BaseJob → BaseJob
apply_requests [] job = job
apply_requests (r ∷ rs) job = apply_requests rs (apply_request r job)
