-- ===== src/Ctl/Commands/Listing.antt =====
-- job_list.go: the command list.
pub mod Served
use mittnite.Prelude.{
  ℕ, String, Bool, true, false, not, ◌&&◌, Option, none, some, List, [], ◌∷◌, ◌++◌, Result, ok, err,
  ℤ, negsuc, ltb_ℤ, if◌then◌else◌,
}
use mittnite.Config.{JobConfig, get_max_attempts}
use mittnite.Proc.CommonJob.{CommonJobStatus}
use mittnite.Cli.Responses.{
  ApiError, not_sent, CommonApiResponse, print_response, TypedApiResponse, print_typed,
}
use mittnite.Cli.Client.{Net, HttpRequest, call_action, job_list, job_status, job_logs}
use mittnite.Cli.Streaming.{Received, Streamed, waits, returns, print_stream}
use mittnite.Ctl.{
  CtlError, no_status, api_error, not_printed, bad_flags, stream_error, Message, says, line,
  details, json, list_heading, list_help, status_help, job_status_line, wrap_not_set,
  determine_job_name,
}
use mittnite.Ctl.Wait.{Condition, test_running, test_stopped, wait_for_condition}
use mittnite.Ctl.Commands.{End, ends, exits, Outcome, Terminal}

module _ {W : Type 0} (net : Net W) (api_address : String) (t : Terminal W) where
  next_line : String → (W → Outcome W) → W → CommonJobStatus → Option ApiError → Outcome W
  next_line job rest w s (some e) = record {
    state = w;
    messages = [];
    end = ends (some (no_status job e));
  }
  next_line job rest w s none =
      let after = rest w in
      record after { messages = line (job_status_line job s) ∷ after.messages }

  list_line : String → (W → Outcome W) → W × TypedApiResponse CommonJobStatus → Outcome W
  unfolding next_line
  list_line job rest (w, r) = next_line job rest w r.body r.error

  -- The loop of the list command.
  list_loop : List String → W → Outcome W
  unfolding list_line
  list_loop [] w = record { state = w; messages = list_help ∷ []; end = ends none }
  list_loop (job ∷ jobs) w = list_line job (list_loop jobs) (job_status net api_address job w)

  json_lines : Result ApiError (List String) → List Message
  json_lines (ok out) = json out ∷ []
  json_lines (err e) = []

  listed : Bool → W → TypedApiResponse (List String) → Option ApiError → Outcome W
  unfolding list_loop json_lines
  listed json_output w names (some e) = record {
    state = w;
    messages = [];
    end = ends (some (api_error e));
  }
  listed true w names none = record {
    state = w;
    messages = json_lines (print_typed t.encode_names t.describe t.pretty names);
    end = ends none;
  }
  listed false w names none =
      let rest = list_loop names.body w in record rest { messages = list_heading ∷ rest.messages }

  list_answered : Bool → W × TypedApiResponse (List String) → Outcome W
  unfolding listed
  list_answered json_output (w, names) = listed json_output w names names.error

  -- jobListCommand
  pub run_list : Bool → W → Outcome W
  unfolding list_answered
  run_list json_output w = list_answered json_output (job_list net api_address w)
