-- ===== src/Proc/BaseJob/StartOnce.antt =====
-- pkg/proc/basejob.go, startOnce: one run of a job's process, from opening the log files to the
-- end of the process or of mittnite.
pub mod Results
pub mod Files
pub mod Failures
pub mod Keeps
use mittnite.Prelude.{
  ℕ, String, ◌<>◌, Bool, true, false, ◌&&◌, Option, none, some, List, [], ◌∷◌, ◌++◌, Result, ok,
  err, if◌then◌else◌,
}
use mittnite.Proc.WaitStatus.{WaitError, terminated_by_signal}
use mittnite.Proc.BaseJob.{
  BaseJob, Effect, exec_command, start_process, register_pid, unregister_pid, kill_group,
  close_pipe_writers, forward_output, drain_forwarders, sigterm, sigkill, Request, apply_requests,
  put_phase,
}
use mittnite.Proc.Phase.{started}
use mittnite.Proc.BaseJob.StdFiles.{
  Opens, create_and_open_std_file, close_std_files, is_decorated, forwarder_layout,
  forwarder_prefix,
}

-- ProcessWillBeRestartedError, ProcessWillBeStoppedError, ProcessStoppedIntentionallyError, the
-- error of the process itself, and the errors of starting it.
pub data RunError : Type 0 where
  will_be_restarted will_be_stopped stopped_intentionally : RunError
  exits : WaitError → RunError
  fails : String → RunError

-- What the select at the end sees first, and what cmd.Wait returns.
pub data Ending : Type 0 where
  exited : Option WaitError → Ending
  cancelled_exited : Option WaitError → Ending
  cancelled_hung : Ending

-- The environment's answers in one run. `meanwhile` is what other goroutines do to the job between
-- the start of the process and its end.
pub record Attempt : Type 0 where
  pub opens : Opens
  pub stdout_pipe : Option String
  pub stderr_pipe : Option String
  pub start : Result String ℕ
  pub meanwhile : List Request
  pub ending : Ending

pub record Run : Type 0 where
  pub job : BaseJob
  pub error : Option RunError
  pub effects : List Effect

abbrev exit_result : Option WaitError → Option RunError
exit_result none = none
exit_result (some e) = some (exits e)

settle_exit : BaseJob → Option WaitError → BaseJob × Option RunError
settle_exit job none = (job, none)
settle_exit job (some e) =
    if job.stop_expected && terminated_by_signal e 15
    then (record job { stop_expected = false }, some stopped_intentionally)
    else (job, some (exits e))

-- A restart that was asked for goes before a stop, and both before the exit itself.
pub settle : BaseJob → Option WaitError → BaseJob × Option RunError
unfolding settle_exit
settle job e =
    if job.restart
    then (record job { restart = false }, some will_be_restarted)
    else (if job.stop then (job, some will_be_stopped) else settle_exit job e)

finish : ℕ → BaseJob → Ending → List Effect → Run
unfolding settle
finish pid job (exited e) done =
    let (job', error) = settle job e in
    record {
      job = job';
      error = error;
      effects = done ++ unregister_pid pid ∷ kill_group pid sigterm ∷ [];
    }
finish pid job (cancelled_exited e) done = record {
  job = job;
  error = exit_result e;
  effects = done ++ kill_group pid sigterm ∷ unregister_pid pid ∷ [];
}
finish pid job cancelled_hung done = record {
  job = job;
  error = none;
  effects = done ++ kill_group pid sigterm ∷ kill_group pid sigkill ∷ [];
}

-- The receiver of the started process: the goroutine of CommonJob.Run, which marks the job as
-- started at the given time, or one that leaves the base job alone.
pub data Receiver : Type 0 where
  passive : Receiver
  marks_started : ℕ → Receiver

receive : Receiver → BaseJob → BaseJob
receive passive job = job
receive (marks_started now) job = put_phase now started job

-- The command with its arguments, what it has beside mittnite's own environment, and its directory;
-- it is started in a process group of its own.
abbrev pub command_of : BaseJob → Effect
command_of job =
    exec_command job.config.command job.config.args job.config.env job.config.working_directory

-- From `cmd.Start` on; `writers` closes mittnite's ends of the pipes.
launch : Receiver → BaseJob → Attempt → Result String ℕ → List Effect → List Effect → Run
unfolding finish receive put_phase
launch receiver job a (err e) done writers = record {
  job = job;
  error = some (fails ("failed to start job " <> job.config.name <> ": " <> e));
  effects = done ++ writers;
}
launch receiver job a (ok pid) done writers =
    finish pid (apply_requests a.meanwhile (receive receiver (record job { cmd = some pid })))
      a.ending
      (done
        ++ command_of job ∷ start_process pid ∷ (writers ++ register_pid pid job.config.name ∷ []))

-- The deferred wait for the forwarders.
drained : Run → Run
drained r = record r { effects = r.effects ++ drain_forwarders ∷ [] }

pipe_error : Option String → Option String → Option String
pipe_error (some e) _ = some ("failed to create stdout pipe for process: " <> e)
pipe_error none (some e) = some ("failed to create stderr pipe for process: " <> e)
pipe_error none none = none

-- The two line forwarders, with the targets of the moment.
abbrev forwarders : BaseJob → List Effect
forwarders job =
    forward_output job.stdout (forwarder_layout job.config) (forwarder_prefix job.config)
    ∷ forward_output job.stderr (forwarder_layout job.config) (forwarder_prefix job.config)
    ∷ []

with_pipes : Receiver → BaseJob → Attempt → Option String → List Effect → Run
unfolding launch drained
with_pipes receiver job a (some e) done = record {
  job = job;
  error = some (fails e);
  effects = done;
}
with_pipes receiver job a none done =
    drained (launch receiver job a a.start (done ++ forwarders job) (close_pipe_writers ∷ []))

start_opened : Receiver → BaseJob → Attempt → List Effect → Run
unfolding with_pipes launch pipe_error
start_opened receiver job a done =
    if is_decorated job.config
    then with_pipes receiver job a (pipe_error a.stdout_pipe a.stderr_pipe) done
    else launch receiver job a a.start done []

start_unless : Receiver → BaseJob → Attempt → Option String → List Effect → Run
unfolding start_opened
start_unless receiver job a (some e) done = record {
  job = job;
  error = some (fails e);
  effects = done;
}
start_unless receiver job a none done = start_opened receiver job a done

-- The deferred `closeStdFiles`.
closing : Run → Run
closing r = record r { effects = r.effects ++ close_std_files r.job }

pub start_once : Receiver → BaseJob → Attempt → Run
unfolding start_unless closing
start_once receiver job a =
    let o = create_and_open_std_file (record job { stop_expected = false }) a.opens in
    closing (start_unless receiver o.job a o.error o.effects)
