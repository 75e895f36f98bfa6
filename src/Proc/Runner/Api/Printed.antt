-- ===== src/Proc/Runner/Api/Printed.antt =====
-- The frames of a log stream that does not follow the files.
use mittnite.Prelude.{
  ℕ, String, ◌≡◌, ◌≢◌, refl, ap, ◌∙◌, Bool, true, false, none, some, List, [], ◌∷◌, ◌++◌, map, ◌==◌,
  string_eq, eq_iff, arith,
}
use mathlib.Core.List.{append_assoc}
use mittnite.Proc.BaseJob.Streams.{
  Item, line, stdout_error, stderr_error, StdFile, Pass, Turn, reads,
}
use mittnite.Proc.BaseJob.Streams.Once.{lines_once, sent-once}
use mittnite.Proc.CommonJob.{CommonJob, is_running}
use mittnite.Proc.Runner.Api.Logs.{
  Frame, text, closes_normally, Connection, write_message, write_close, handle_err, logs_loop, Form,
  follows, number_or_all, upgraded, streamed, api_v1_job_logs,
}

abbrev open_with : List Frame → Connection
open_with fs = record { frames = fs; close_sent = false }

abbrev closed_with : List Frame → Connection
closed_with fs = record { frames = fs; close_sent = true }

-- Nothing is written behind the close frame.
logs_loop-closed :
    (is : List Item) (fs : List Frame) → logs_loop false is (closed_with fs) ≡ closed_with fs
unfolding logs_loop write_message handle_err write_close
logs_loop-closed [] fs = refl
logs_loop-closed (line l ∷ is) fs = logs_loop-closed is fs
logs_loop-closed (stdout_error none ∷ is) fs = logs_loop-closed is fs
logs_loop-closed (stdout_error (some e) ∷ is) fs = logs_loop-closed is fs
logs_loop-closed (stderr_error none ∷ is) fs = logs_loop-closed is fs
logs_loop-closed (stderr_error (some e) ∷ is) fs = logs_loop-closed is fs

logs_loop-lines :
    (ls : List String) (is : List Item) (fs : List Frame)
    → logs_loop false (map line ls ++ stdout_error none ∷ is) (open_with fs)
      ≡ closed_with (fs ++ (map text ls ++ closes_normally "EOF" ∷ []))
unfolding logs_loop write_message handle_err write_close
logs_loop-lines [] is fs = logs_loop-closed is (fs ++ closes_normally "EOF" ∷ [])
logs_loop-lines (l ∷ ls) is fs =
    logs_loop-lines ls is (fs ++ text l ∷ [])
    ∙ ap closed_with (append_assoc fs (text l ∷ []) (map text ls ++ closes_normally "EOF" ∷ []))

-- A request that does not ask to follow, for a running job with a stdout file that opens and is
-- read without an error: the client gets the tail of stdout and its lines up to the first that
-- nobody waits for, then the close frame, and nothing else. No line of stderr comes through.
pub api_v1_job_logs-once :
    (alive : ℕ → Bool) (form : Form) (job : CommonJob) (out_file err_file : StdFile) (p : Pass)
    (later : List Turn)
    → is_running alive job ≡ true
    → follows form ≡ false
    → job.base.config.stdout ≢ ""
    → out_file.open_fails ≡ none
    → out_file.turns ≡ reads p ∷ later
    → p.failure ≡ none
    → api_v1_job_logs alive form job out_file err_file
      ≡ map text (lines_once (number_or_all (form.atoi form.tail_len)) out_file p)
        ++ closes_normally "EOF" ∷ []
unfolding api_v1_job_logs streamed upgraded
api_v1_job_logs-once alive form job out_file err_file p later runs once named opens turns fine =
    let given : (job.base.config.stdout == "") ≡ false =
      ground (arith, eq_iff job.base.config.stdout "") in
    let tail_len = number_or_all (form.atoi form.tail_len) in
    let (is, sent) =
      sent-once job.base.config tail_len out_file p later err_file named opens turns fine in
    rw (given, runs, once, sent)
      (ap (λ c. c.frames) (logs_loop-lines (lines_once tail_len out_file p) is []))
