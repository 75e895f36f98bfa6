-- ===== src/Examples/Runs.antt =====
-- Runs of one process, and the state around a run.
use mittnite.Prelude.{◌≡◌, refl, true, false, none, some, List, [], ◌∷◌, ok, arith}
use mittnite.Proc.WaitStatus.{
  exit_error, decode_wait_status, exit_code, exit_signal, terminated_by_signal,
}
use mittnite.Proc.WaitStatus.Laws.{decode_wait_status-encode}
use mittnite.Proc.BaseJob.{init, Request, restarts, expects_stop}
use mittnite.Proc.BaseJob.StdFiles.{create_and_open_std_file}
use mittnite.Proc.BaseJob.StartOnce.{
  stopped_intentionally, exited, Attempt, marks_started, start_once,
}
use mittnite.Proc.BaseJob.StartOnce.Results.{start_once-exited}
use mittnite.Proc.BaseJob.StartOnce.Files.{start_once_closes_files, still_open}
use mittnite.Proc.Phase.{started, set_phase}
use mittnite.Proc.Phase.Laws.{set_phase_twice}
use mittnite.Examples.{web}

-- The process dies by SIGTERM after some requests.
abbrev attempt : List Request → Attempt
attempt requests = record {
  opens = record { for_stdout = ok 3; for_stderr = ok 4 };
  stdout_pipe = none;
  stderr_pipe = none;
  start = ok 99;
  meanwhile = requests;
  ending = exited (some (exit_error 15));
}

opens_example :
    (create_and_open_std_file (record web.base { stop_expected = false }) (attempt []).opens).error
    ≡ none
unfolding create_and_open_std_file init
opens_example = refl

start_once-exited_example :
    (start_once (marks_started 8) web.base (attempt (expects_stop ∷ []))).error
    ≡ some stopped_intentionally
unfolding terminated_by_signal init
start_once-exited_example =
    start_once-exited (marks_started 8) web.base (attempt (expects_stop ∷ []))
      (some (exit_error 15)) 99 opens_example refl refl refl refl

start_once_closes_files_example :
    still_open (start_once (marks_started 8) web.base (attempt (restarts ∷ []))).effects [] ≡ []
start_once_closes_files_example =
    start_once_closes_files (marks_started 8) web.base (attempt (restarts ∷ []))

decode_wait_status-encode_example :
    (decode_wait_status 768 ≡ exit_code 3)
    × (decode_wait_status 139 ≡ exit_signal 11 true)
    × (terminated_by_signal (exit_error 139) 11 ≡ true)
    × (terminated_by_signal (exit_error 768) 11 ≡ false)
decode_wait_status-encode_example =
    decode_wait_status-encode 3 11 true (omega arith) (omega arith) (omega arith)

set_phase_twice_example :
    set_phase 9 started (set_phase 8 started web.base.phase) ≡ set_phase 8 started web.base.phase
set_phase_twice_example = set_phase_twice 8 9 started web.base.phase
