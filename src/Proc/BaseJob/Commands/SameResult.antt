-- ===== src/Proc/BaseJob/Commands/SameResult.antt =====
-- Decoration does not change what comes of a command.
use mittnite.Prelude.{
  ℕ, String, ◌≡◌, refl, Option, none, some, List, [], ◌∷◌, ◌++◌, Result, ok, err, Bool-cases, inl,
  inr,
}
use mittnite.Proc.BaseJob.{
  BaseJob, Effect, Target, start_process, close_pipe_writers, drain_forwarders,
}
use mittnite.Proc.BaseJob.StdFiles.{is_decorated}
use mittnite.Proc.BaseJob.Commands.{
  Command, run_direct, run_forwarded, run_with_pipes, run_command_with_job_decoration, waited,
  started,
}

-- The processes that some effects start.
abbrev pub starts : List Effect → List ℕ
starts [] = []
starts (start_process pid ∷ es) = pid ∷ starts es
starts (_ ∷ es) = starts es

abbrev pub error_of : Result String ℕ → Option String → Option String
error_of (err e) wait = some e
error_of (ok pid) wait = wait

abbrev pub pid_of_start : Result String ℕ → List ℕ
pid_of_start (err e) = []
pid_of_start (ok pid) = pid ∷ []

record Same (c : Command) (r : Option String × List Effect) : Type 0 where
  error : r.0 ≡ error_of c.start c.wait
  process : starts r.1 ≡ pid_of_start c.start

direct-Same :
    (c : Command) (x : Result String ℕ)
    → (waited x c.wait ≡ error_of x c.wait) × (starts (started x) ≡ pid_of_start x)
unfolding waited started
direct-Same c (err e) = (refl, refl)
direct-Same c (ok pid) = (refl, refl)

forwarded :
    (x : Result String ℕ)
    → starts (started x ++ close_pipe_writers ∷ drain_forwarders ∷ []) ≡ pid_of_start x
unfolding started
forwarded (err e) = refl
forwarded (ok pid) = refl

run_with_pipes-Same :
    (job : BaseJob) (to_out to_err : Target) (c : Command) (o p : Option String)
    → Same c (run_with_pipes job to_out to_err c o p)
unfolding run_with_pipes run_direct run_forwarded
run_with_pipes-Same job to_out to_err c (some e) p = record {
  error = (direct-Same c c.start).0;
  process = (direct-Same c c.start).1;
}
run_with_pipes-Same job to_out to_err c none (some e) = record {
  error = (direct-Same c c.start).0;
  process = (direct-Same c c.start).1;
}
run_with_pipes-Same job to_out to_err c none none = record {
  error = (direct-Same c c.start).0;
  process = forwarded c.start;
}

-- Decorated or not, and also where the pipes cannot be made: the command is started once at most,
-- and its error is that of the start, or else that of the wait.
pub run_command-Same :
    (job : BaseJob) (to_out to_err : Target) (c : Command)
    → ((run_command_with_job_decoration job to_out to_err c).0 ≡ error_of c.start c.wait)
      × (starts (run_command_with_job_decoration job to_out to_err c).1 ≡ pid_of_start c.start)
unfolding run_command_with_job_decoration run_direct
run_command-Same job to_out to_err c = elim (Bool-cases (is_decorated job.config)) [
  | inl decorated ↦
      let s = run_with_pipes-Same job to_out to_err c c.stdout_pipe c.stderr_pipe in
      rw decorated (s.error, s.process)
  | inr plain ↦ rw plain (direct-Same c c.start)
]
