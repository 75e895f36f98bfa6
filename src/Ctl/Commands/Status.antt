-- ===== src/Ctl/Commands/Status.antt =====
-- job_status.go: the command status.
pub mod ExitCode
use mittnite.Prelude.{
  ℕ, String, Bool, true, false, not, ◌&&◌, Option, none, some, List, [], ◌∷◌, ◌++◌, Result, ok, err,
  ℤ, negsuc, ltb_ℤ, if◌then◌else◌,
}
use mittnite.Config.{JobConfig, get_max_attempts}
use mittnite.Proc.CommonJob.{CommonJobStatus}
use mittnite.Cli.Responses.{
  ApiError, not_sent, CommonApiResponse, print_response, TypedApiResponse, print_typed,
}
use mittnite.Cli.Client.{Net, HttpRequest, call_action, job_list, job_status, job_logs}
use mittnite.Cli.Streaming.{Received, Streamed, waits, returns, print_stream}
use mittnite.Ctl.{
  CtlError, no_status, api_error, not_printed, bad_flags, stream_error, Message, says, line,
  details, json, list_heading, list_help, status_help, job_status_line, wrap_not_set,
  determine_job_name,
}
use mittnite.Ctl.Wait.{Condition, test_running, test_stopped, wait_for_condition}
use mittnite.Ctl.Commands.{End, ends, exits, Outcome, Terminal}

status_end : Bool → CommonJobStatus → End
status_end exit_with_status s = if not s.running && exit_with_status then exits 1 else ends none

module _ {W : Type 0} (net : Net W) (api_address : String) (t : Terminal W) where
  -- What the status command prints, or the error of printing.
  status_messages :
      Bool → String → TypedApiResponse CommonJobStatus → Result CtlError (List Message)
  status_messages true job r = elim (print_typed t.encode_status t.describe t.pretty r) [
    | ok out ↦ ok (json out ∷ [])
    | err e ↦ err (not_printed e)
  ]
  status_messages false job r =
      let c = r.body.config in
      ok (
        line (job_status_line job r.body)
        ∷ details c.command c.args (wrap_not_set c.working_directory) c.can_fail
            (get_max_attempts c) (wrap_not_set c.stdout) (wrap_not_set c.stderr)
        ∷ [])

  status_shown : Bool → String → CommonJobStatus → W → Result CtlError (List Message) → Outcome W
  unfolding status_end
  status_shown exit_with_status job s w (err e) = record {
    state = w;
    messages = [];
    end = ends (some e);
  }
  status_shown exit_with_status job s w (ok said) = record {
    state = w;
    messages = said ++ status_help job ∷ [];
    end = status_end exit_with_status s;
  }

  status_answered :
      Bool → Bool → String → W → TypedApiResponse CommonJobStatus → Option ApiError → Outcome W
  unfolding status_shown status_messages
  status_answered print_json exit_with_status job w r (some e) = record {
    state = w;
    messages = [];
    end = ends (some (no_status job e));
  }
  status_answered print_json exit_with_status job w r none =
      status_shown exit_with_status job r.body w (status_messages print_json job r)

  status_of : Bool → Bool → W × Result CtlError String → Outcome W
  unfolding status_answered
  status_of print_json exit_with_status (w, err e) = record {
    state = w;
    messages = [];
    end = ends (some e);
  }
  status_of print_json exit_with_status (w, ok job) =
      let (w', r) = job_status net api_address job w in
      status_answered print_json exit_with_status job w' r r.error

  -- jobStatusCmd
  pub run_status : Bool → Bool → List String → W → Outcome W
  unfolding status_of
  run_status print_json exit_with_status args w =
      status_of print_json exit_with_status (determine_job_name net api_address args w)
