-- ===== src/Ctl/Commands.antt =====
-- What the commands of mittnitectl have in common, and Execute of root.go.
pub mod Actions
pub mod Listing
pub mod Status
pub mod Logs
use mittnite.Prelude.{
  ℕ, String, Bool, true, false, not, ◌&&◌, Option, none, some, List, [], ◌∷◌, ◌++◌, Result, ok, err,
  ℤ, negsuc, ltb_ℤ, if◌then◌else◌,
}
use mittnite.Config.{JobConfig, get_max_attempts}
use mittnite.Proc.CommonJob.{CommonJobStatus}
use mittnite.Cli.Responses.{
  ApiError, not_sent, CommonApiResponse, print_response, TypedApiResponse, print_typed,
}
use mittnite.Cli.Client.{Net, HttpRequest, call_action, job_list, job_status, job_logs}
use mittnite.Cli.Streaming.{Received, Streamed, waits, returns, print_stream}
use mittnite.Ctl.{
  CtlError, no_status, api_error, not_printed, bad_flags, stream_error, Message, says, line,
  details, json, list_heading, list_help, status_help, job_status_line, wrap_not_set,
  determine_job_name,
}
use mittnite.Ctl.Wait.{Condition, test_running, test_stopped, wait_for_condition}

-- How a command ends: RunE returns, or os.Exit is called.
pub data End : Type 0 where
  ends : Option CtlError → End
  exits : ℕ → End

pub record Outcome (W : Type 0) : Type 0 where
  pub state : W
  pub messages : List Message
  pub end : End

-- The exit code that Execute makes of it.
unfoldable pub exit_code : End → ℕ
exit_code (ends none) = 0
exit_code (ends (some e)) = 1
exit_code (exits n) = n

-- The printers of JSON and of errors, and the calls of the system.
pub record Terminal (W : Type 0) : Type 0 where
  pub pretty : String → Result String String
  pub encode_status : CommonJobStatus → Result String String
  pub encode_names : List String → Result String String
  pub describe : ApiError → String
  pub itoa : ℤ → String
  pub sleep : W → W
  pub now : W → ℕ
  pub dial : HttpRequest → W → W × Option String × List Received
