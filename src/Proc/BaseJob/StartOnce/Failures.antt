-- ===== src/Proc/BaseJob/StartOnce/Failures.antt =====
-- A run that nobody interferes with and that does not end well.
use mittnite.Prelude.{
  ℕ, String, ◌≡◌, refl, Bool, true, false, Option, none, some, List, [], ◌∷◌, ◌++◌, arith, ok, err,
  Result, Bool-cases, inl, inr,
}
use mittnite.Proc.WaitStatus.{WaitError}
use mittnite.Proc.BaseJob.{BaseJob, Effect, close_pipe_writers, apply_requests, put_phase}
use mittnite.Proc.BaseJob.StdFiles.{Opens, create_and_open_std_file, is_decorated}
use mittnite.Proc.BaseJob.StartOnce.{
  RunError, exits, fails, Run, exited, Attempt, Receiver, passive, marks_started, receive, settle,
  finish, launch, forwarders, with_pipes, drained, start_opened, start_unless, closing, start_once,
  pipe_error,
}

-- An error of the process or of its start, and none of the three that ask for something.
abbrev pub is_failure : Option RunError → Bool
is_failure (some (exits e)) = true
is_failure (some (fails e)) = true
is_failure _ = false

pub record Undisturbed (job : BaseJob) : Type 0 where
  pub restart : job.restart ≡ false
  pub stop : job.stop ≡ false
  pub announced : job.stop_expected ≡ false

pub record Failed (r : Run) : Type 0 where
  pub failure : is_failure r.error ≡ true
  pub job : Undisturbed r.job

finish-Failed :
    (pid : ℕ) (job : BaseJob) (e : WaitError) (done : List Effect)
    → Undisturbed job
    → Failed (finish pid job (exited (some e)) done)
unfolding finish settle
finish-Failed pid job e done u = ground arith

received-Undisturbed :
    (r : Receiver) (job : BaseJob) → Undisturbed job → Undisturbed (receive r job)
unfolding receive put_phase
received-Undisturbed passive job u = u
received-Undisturbed (marks_started now) job u = ground arith

module _ (receiver : Receiver) (a : Attempt) (e : WaitError) (ended : a.ending ≡ exited (some e))
    (alone : a.meanwhile ≡ []) where
  launch-Failed :
      (job : BaseJob) (s : Result String ℕ) (done writers : List Effect)
      → Undisturbed job
      → Failed (launch receiver job a s done writers)
  unfolding launch apply_requests
  launch-Failed job (err x) done writers u = record { failure = refl; job = u }
  launch-Failed job (ok pid) done writers u =
      simp (ended, alone)
        (finish-Failed pid _ e _ (
          received-Undisturbed receiver _
            (record { restart = u.restart; stop = u.stop; announced = u.announced })))

  with_pipes-Failed :
      (job : BaseJob) (x : Option String) (done : List Effect)
      → Undisturbed job
      → Failed (with_pipes receiver job a x done)
  unfolding with_pipes drained
  with_pipes-Failed job (some x) done u = record { failure = refl; job = u }
  with_pipes-Failed job none done u =
      let f = launch-Failed job a.start (done ++ forwarders job) (close_pipe_writers ∷ []) u in
      record { failure = f.failure; job = f.job }

  start_unless-Failed :
      (job : BaseJob) (x : Option String) (done : List Effect)
      → Undisturbed job
      → Failed (start_unless receiver job a x done)
  unfolding start_unless start_opened
  start_unless-Failed job (some x) done u = record { failure = refl; job = u }
  start_unless-Failed job none done u = elim (Bool-cases (is_decorated job.config)) [
    | inl decorated ↦
        rw decorated (with_pipes-Failed job (pipe_error a.stdout_pipe a.stderr_pipe) done u)
    | inr plain ↦ rw plain (launch-Failed job a.start done [] u)
  ]

  opened-Undisturbed :
      (job : BaseJob) (o : Opens)
      → Undisturbed job
      → Undisturbed (create_and_open_std_file job o).job
  unfolding create_and_open_std_file
  opened-Undisturbed job o u = ground arith

  -- With nothing asked for before or meanwhile, a run whose process ends badly fails, whatever
  -- its files and pipes do, and leaves nothing asked for.
  pub start_once-Failed :
      (job : BaseJob) → job.restart ≡ false → job.stop ≡ false → Failed (start_once receiver job a)
  unfolding start_once closing
  start_once-Failed job r s =
      let o = create_and_open_std_file (record job { stop_expected = false }) a.opens in
      let f = start_unless-Failed o.job o.error o.effects (
        opened-Undisturbed (record job { stop_expected = false }) a.opens
          (record { restart = r; stop = s; announced = refl })) in
      record { failure = f.failure; job = f.job }
