-- ===== src/Proc/BaseJob/Commands.antt =====
-- pkg/proc/basejob.go, runCommandWithJobDecoration: a watch command with decorated output.
pub mod SameResult
use mittnite.Prelude.{
  ℕ, String, ◌≡◌, refl, Bool, true, false, Option, none, some, List, [], ◌∷◌, ◌++◌, Result, ok, err,
  if◌then◌else◌, Bool-cases, inl, inr,
}
use mittnite.Proc.BaseJob.{
  BaseJob, Effect, Target, start_process, close_pipe_writers, forward_output, drain_forwarders,
}
use mittnite.Proc.BaseJob.StdFiles.{is_decorated, forwarder_layout, forwarder_prefix}

-- The answers of os.Pipe for the two streams, of cmd.Start, and of cmd.Wait.
pub record Command : Type 0 where
  pub stdout_pipe : Option String
  pub stderr_pipe : Option String
  pub start : Result String ℕ
  pub wait : Option String

waited : Result String ℕ → Option String → Option String
waited (err e) wait = some e
waited (ok pid) wait = wait

started : Result String ℕ → List Effect
started (err e) = []
started (ok pid) = start_process pid ∷ []

-- cmd.Run with the targets attached
run_direct : Command → Option String × List Effect
unfolding waited started
run_direct c = (waited c.start c.wait, started c.start)

run_forwarded : BaseJob → Target → Target → Command → Option String × List Effect
unfolding waited started
run_forwarded job to_out to_err c = (
  waited c.start c.wait,
  forward_output to_out (forwarder_layout job.config) (forwarder_prefix job.config)
      ∷ forward_output to_err (forwarder_layout job.config) (forwarder_prefix job.config)
      ∷ (started c.start ++ close_pipe_writers ∷ drain_forwarders ∷ []),
)

run_with_pipes :
    BaseJob
    → Target
    → Target
    → Command
    → Option String
    → Option String
    → Option String × List Effect
unfolding run_direct run_forwarded
run_with_pipes job to_out to_err c (some e) _ = run_direct c
run_with_pipes job to_out to_err c none (some e) = run_direct c
run_with_pipes job to_out to_err c none none = run_forwarded job to_out to_err c

pub run_command_with_job_decoration :
    BaseJob → Target → Target → Command → Option String × List Effect
unfolding run_direct run_with_pipes
run_command_with_job_decoration job to_out to_err c =
    if is_decorated job.config
    then run_with_pipes job to_out to_err c c.stdout_pipe c.stderr_pipe
    else run_direct c
