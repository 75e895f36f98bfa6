-- ===== src/Ctl/Commands/Logs.antt =====
-- job_logs.go: the command logs.
pub mod Served
use mittnite.Prelude.{
  String, Bool, Option, none, some, List, [], ◌∷◌, Result, ok, err, ℤ, negsuc, ltb_ℤ, if◌then◌else◌,
}
use mittnite.Cli.Responses.{not_sent}
use mittnite.Cli.Client.{Net, HttpRequest, job_logs}
use mittnite.Cli.Streaming.{Streamed, waits, returns, print_stream}
use mittnite.Ctl.{CtlError, not_printed, stream_error, json, determine_job_name}
use mittnite.Ctl.Commands.{ends, Outcome, Terminal}

-- A length below -1 asks for the whole file, as -1 does.
unfoldable pub at_least_all : ℤ → ℤ
at_least_all tail_len = if ltb_ℤ tail_len (negsuc 0) then negsuc 0 else tail_len

module _ {W : Type 0} (net : Net W) (api_address : String) (t : Terminal W) where
  printed_stream : W → List String × Streamed → Option (Outcome W)
  printed_stream w (lines, waits) = none
  printed_stream w (lines, returns none) =
      some (record { state = w; messages = json lines ∷ []; end = ends none })
  printed_stream w (lines, returns (some e)) =
      some (record { state = w; messages = json lines ∷ []; end = ends (some (stream_error e)) })

  logs_from : W → Result String HttpRequest → Option (Outcome W)
  unfolding printed_stream
  logs_from w (err e) =
      some (record { state = w; messages = []; end = ends (some (not_printed (not_sent e))) })
  logs_from w (ok request) =
      let (w', failure, received) = t.dial request w in
      printed_stream w' (print_stream failure received)

  logs_of : Bool → ℤ → W × Result CtlError String → Option (Outcome W)
  unfolding logs_from at_least_all
  logs_of follow tail_len (w, err e) =
      some (record { state = w; messages = []; end = ends (some e) })
  logs_of follow tail_len (w, ok job) =
      logs_from w (job_logs net api_address t.itoa job follow (at_least_all tail_len))

  -- jobLogsCommand; `none` while it prints.
  pub run_logs : Bool → ℤ → List String → W → Option (Outcome W)
  unfolding logs_of
  run_logs follow tail_len args w =
      logs_of follow tail_len (determine_job_name net api_address args w)
