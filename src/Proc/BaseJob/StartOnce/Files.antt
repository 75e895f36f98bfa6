-- ===== src/Proc/BaseJob/StartOnce/Files.antt =====
-- The log files of a run: what is opened is closed.
use mittnite.Prelude.{
  ℕ, String, ◌≡◌, refl, ◌∙◌, ap, false, Option, none, some, List, [], ◌∷◌, ◌++◌, arith, ok, err,
  Result, if◌then◌else◌, Bool-cases, inl, inr, ◌==◌, nat_eq, string_eq,
}
use mittnite.Proc.WaitStatus.{WaitError}
use mittnite.Proc.BaseJob.{
  BaseJob, os_stdout, os_stderr, log_file, Effect, opened, closed, start_process, register_pid,
  close_pipe_writers, drain_forwarders, Request, apply_request, apply_requests, put_phase,
  marks_restart, restarts, stops, expects_stop,
}
use mittnite.Proc.BaseJob.StdFiles.{
  Opens, Opening, create_and_open_std_file, close_std_files, is_decorated,
}
use mittnite.Proc.BaseJob.StartOnce.{
  Run, Ending, exited, cancelled_exited, cancelled_hung, Attempt, Receiver, passive, marks_started,
  receive, settle, command_of, finish, launch, forwarders, with_pipes, drained, start_opened,
  start_unless, closing, start_once, pipe_error,
}

abbrev remove : ℕ → List ℕ → List ℕ
remove h [] = []
remove h (x ∷ xs) = let rest = remove h xs in if x == h then rest else x ∷ rest

-- The log files that are open after some effects, when `hs` were open before.
abbrev pub still_open : List Effect → List ℕ → List ℕ
still_open [] hs = hs
still_open (opened h ∷ es) hs = still_open es (h ∷ hs)
still_open (closed (log_file h) ∷ es) hs = still_open es (remove h hs)
still_open (_ ∷ es) hs = still_open es hs

still_open-append :
    (xs ys : List Effect) (hs : List ℕ)
    → still_open (xs ++ ys) hs ≡ still_open ys (still_open xs hs)
still_open-append [] ys hs = refl
still_open-append (opened h ∷ xs) ys hs = still_open-append xs ys (h ∷ hs)
still_open-append (closed (log_file h) ∷ xs) ys hs = still_open-append xs ys (remove h hs)
still_open-append (closed os_stdout ∷ xs) ys hs = still_open-append xs ys hs
still_open-append (closed os_stderr ∷ xs) ys hs = still_open-append xs ys hs
still_open-append (_ ∷ xs) ys hs = still_open-append xs ys hs

record SameFiles (j k : BaseJob) : Type 0 where
  config : j.config ≡ k.config
  stdout : j.stdout ≡ k.stdout
  stderr : j.stderr ≡ k.stderr

apply_requests-SameFiles :
    (rs : List Request) (job : BaseJob) → SameFiles (apply_requests rs job) job
unfolding apply_requests apply_request
apply_requests-SameFiles [] job = record { config = refl; stdout = refl; stderr = refl }
apply_requests-SameFiles (marks_restart ∷ rs) job =
    let s = apply_requests-SameFiles rs (apply_request marks_restart job) in
    record { config = s.config; stdout = s.stdout; stderr = s.stderr }
apply_requests-SameFiles (restarts ∷ rs) job =
    let s = apply_requests-SameFiles rs (apply_request restarts job) in
    record { config = s.config; stdout = s.stdout; stderr = s.stderr }
apply_requests-SameFiles (stops ∷ rs) job =
    let s = apply_requests-SameFiles rs (apply_request stops job) in
    record { config = s.config; stdout = s.stdout; stderr = s.stderr }
apply_requests-SameFiles (expects_stop ∷ rs) job =
    let s = apply_requests-SameFiles rs (apply_request expects_stop job) in
    record { config = s.config; stdout = s.stdout; stderr = s.stderr }

receive-SameFiles : (r : Receiver) (job : BaseJob) → SameFiles (receive r job) job
unfolding receive put_phase
receive-SameFiles passive job = record { config = refl; stdout = refl; stderr = refl }
receive-SameFiles (marks_started now) job = record { config = refl; stdout = refl; stderr = refl }

settle-SameFiles : (job : BaseJob) (e : Option WaitError) → SameFiles (settle job e).0 job
unfolding settle
settle-SameFiles job none = ground arith
settle-SameFiles job (some e) = ground arith

-- A later stage of a run neither opens nor closes a log file.
record Quiet (r : Run) (job : BaseJob) (done : List Effect) : Type 0 where
  files : SameFiles r.job job
  same : still_open r.effects [] ≡ still_open done []

finish-Quiet :
    (pid : ℕ) (job : BaseJob) (e : Ending) (done : List Effect)
    → Quiet (finish pid job e done) job done
unfolding finish
finish-Quiet pid job (exited e) done = record {
  files = settle-SameFiles job e;
  same = still_open-append done _ [];
}
finish-Quiet pid job (cancelled_exited e) done = record {
  files = record { config = refl; stdout = refl; stderr = refl };
  same = still_open-append done _ [];
}
finish-Quiet pid job cancelled_hung done = record {
  files = record { config = refl; stdout = refl; stderr = refl };
  same = still_open-append done _ [];
}

SameFiles-trans : {i j k : BaseJob} → SameFiles i j → SameFiles j k → SameFiles i k
SameFiles-trans a b = record {
  config = a.config ∙ b.config;
  stdout = a.stdout ∙ b.stdout;
  stderr = a.stderr ∙ b.stderr;
}

IsQuiet : List Effect → Type 0
IsQuiet es = (hs : List ℕ) → still_open es hs ≡ hs

launch-Quiet :
    (receiver : Receiver) (job : BaseJob) (a : Attempt) (s : Result String ℕ)
    (done writers : List Effect)
    → ((hs : List ℕ) → still_open writers hs ≡ hs)
    → Quiet (launch receiver job a s done writers) job done
unfolding launch
launch-Quiet receiver job a (err e) done writers quiet = record {
  files = record { config = refl; stdout = refl; stderr = refl };
  same = still_open-append done writers [] ∙ quiet (still_open done []);
}
launch-Quiet receiver job a (ok pid) done writers quiet = record {
  files = SameFiles-trans finished.files (
      SameFiles-trans (apply_requests-SameFiles a.meanwhile received) (
        let s = receive-SameFiles receiver (record job { cmd = some pid }) in
        record { config = s.config; stdout = s.stdout; stderr = s.stderr }));
  same =
      finished.same
      ∙ still_open-append done _ []
      ∙ still_open-append writers (register_pid pid job.config.name ∷ []) (still_open done [])
      ∙ quiet (still_open done []);
}
  where
    received : BaseJob
    received = receive receiver (record job { cmd = some pid })

    finished :
        Quiet
          (finish pid (apply_requests a.meanwhile received) a.ending (
            done
            ++ command_of job
              ∷ start_process pid
              ∷ (writers ++ register_pid pid job.config.name ∷ [])))
          (apply_requests a.meanwhile received)
          (done
            ++ command_of job
              ∷ start_process pid
              ∷ (writers ++ register_pid pid job.config.name ∷ []))
    finished = finish-Quiet pid (apply_requests a.meanwhile received) a.ending _

with_pipes-Quiet :
    (receiver : Receiver) (job : BaseJob) (a : Attempt) (e : Option String) (done : List Effect)
    → Quiet (with_pipes receiver job a e done) job done
unfolding with_pipes drained
with_pipes-Quiet receiver job a (some e) done = record {
  files = record { config = refl; stdout = refl; stderr = refl };
  same = refl;
}
with_pipes-Quiet receiver job a none done = record {
  files = launched.files;
  same =
      still_open-append
        (launch receiver job a a.start (done ++ forwarders job) (close_pipe_writers ∷ [])).effects
        (drain_forwarders ∷ []) []
      ∙ launched.same
      ∙ still_open-append done (forwarders job) [];
}
  where
    launched :
        Quiet
          (launch receiver job a a.start (done ++ forwarders job) (close_pipe_writers ∷ []))
          job
          (done ++ forwarders job)
    launched = launch-Quiet receiver job a a.start _ (close_pipe_writers ∷ []) (λ hs. refl)

start_unless-Quiet :
    (receiver : Receiver) (job : BaseJob) (a : Attempt) (e : Option String) (done : List Effect)
    → Quiet (start_unless receiver job a e done) job done
unfolding start_unless start_opened
start_unless-Quiet receiver job a (some e) done = record {
  files = record { config = refl; stdout = refl; stderr = refl };
  same = refl;
}
start_unless-Quiet receiver job a none done = elim (Bool-cases (is_decorated job.config)) [
  | inl decorated ↦
      rw decorated (with_pipes-Quiet receiver job a (pipe_error a.stdout_pipe a.stderr_pipe) done)
  | inr plain ↦ rw plain (launch-Quiet receiver job a a.start done [] (λ hs. refl))
]

close_std_files-SameFiles : {j k : BaseJob} → SameFiles j k → close_std_files j ≡ close_std_files k
unfolding close_std_files
close_std_files-SameFiles s = simp (s.config, s.stdout, s.stderr)

-- What is opened at the start is closed by the rule of `closeStdFiles`.
open_close :
    (job : BaseJob) (o : Opens)
    → still_open
        (close_std_files (create_and_open_std_file job o).job)
        (still_open (create_and_open_std_file job o).effects [])
      ≡ []
unfolding create_and_open_std_file close_std_files
open_close job o = ground arith

-- Whatever the files, pipes, process and other goroutines do, no log file that a run opens is
-- open when it returns.
pub start_once_closes_files :
    (receiver : Receiver) (job : BaseJob) (a : Attempt)
    → still_open (start_once receiver job a).effects [] ≡ []
unfolding start_once closing
start_once_closes_files receiver job a =
    still_open-append r.effects (close_std_files r.job) []
    ∙ ap (still_open (close_std_files r.job)) quiet.same
    ∙ ap (λ es. still_open es (still_open o.effects [])) (close_std_files-SameFiles quiet.files)
    ∙ open_close (record job { stop_expected = false }) a.opens
  where
    o : Opening
    o = create_and_open_std_file (record job { stop_expected = false }) a.opens

    r : Run
    r = start_unless receiver o.job a o.error o.effects

    quiet : Quiet r o.job o.effects
    quiet = start_unless-Quiet receiver o.job a o.error o.effects
