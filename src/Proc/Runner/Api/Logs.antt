-- ===== src/Proc/Runner/Api/Logs.antt =====
-- apiV1JobLogs of pkg/proc/runner_api_v1.go: the log files of a job over a websocket.
use mittnite.Prelude.{
  ok, ℕ, String, ◌<>◌, Bool, true, false, ◌&&◌, Option, none, some, List, [], ◌∷◌, ◌++◌, ℤ, negsuc,
  ◌==◌, string_eq, if◌then◌else◌, lookup,
}
use mittnite.Proc.BaseJob.{get_name}
use mittnite.Proc.BaseJob.Streams.{
  Item, line, stdout_error, stderr_error, StdFile, stream_std_out_and_std_err,
}
use mittnite.Proc.CommonJob.{CommonJob, is_running}
use mittnite.Proc.Runner.{Runner, quoted}
use mittnite.Proc.Runner.Api
use mittnite.Proc.Runner.Api.{Reply, Answer}

-- What goes over the connection to the client.
pub data Frame : Type 0 where
  text : String → Frame
  closes_normally : String → Frame

-- After a close frame was sent, the library answers each write with an error.
pub record Connection : Type 0 where
  pub frames : List Frame
  pub close_sent : Bool

-- conn.WriteMessage; its error only leaves the select.
unfoldable pub write_message : String → Connection → Connection
write_message m c = if c.close_sent then c else record c { frames = c.frames ++ text m ∷ [] }

-- conn.WriteControl with a close message
unfoldable pub write_close : String → Connection → Connection
write_close reason c =
    if c.close_sent
    then c
    else record { frames = c.frames ++ closes_normally reason ∷ []; close_sent = true }

-- handleErr: `none` is io.EOF; any other error is logged.
unfoldable pub handle_err : Bool → Option String → Connection → Connection
unfolding write_close
handle_err true none c = c
handle_err false none c = write_close "EOF" c
handle_err follow (some e) c = c

-- The select loop, until the client is gone.
unfoldable pub logs_loop : Bool → List Item → Connection → Connection
unfolding write_message handle_err
logs_loop follow [] c = c
logs_loop follow (line l ∷ is) c = logs_loop follow is (write_message l c)
logs_loop follow (stdout_error e ∷ is) c = logs_loop follow is (handle_err follow e c)
logs_loop follow (stderr_error e ∷ is) c = logs_loop follow is (handle_err follow e c)

-- The form values of the request. `lower` is strings.ToLower and `atoi` is strconv.Atoi.
pub record Form : Type 0 where
  pub lower : String → String
  pub atoi : String → Option ℤ
  pub follow : String
  pub tail_len : String

unfoldable pub follows : Form → Bool
follows form = form.lower form.follow == "true"

unfoldable pub number_or_all : Option ℤ → ℤ
number_or_all none = negsuc 0
number_or_all (some n) = n

unfoldable pub upgraded : Connection
upgraded = record { frames = []; close_sent = false }

refusals : CommonJob → List Frame
refusals job =
    text ("Failed to get logs for job " <> quoted (get_name job.base) <> ": job is not running")
    ∷ text (
        "You can try to view the files directly:\n\tstdout: "
        <> quoted job.base.config.stdout
        <> "\n\tstderr: "
        <> quoted job.base.config.stderr)
    ∷ []

unfoldable pub streamed : Form → CommonJob → StdFile → StdFile → Connection
unfolding logs_loop follows number_or_all upgraded
streamed form job out_file err_file =
    logs_loop (follows form)
      (stream_std_out_and_std_err job.base.config (follows form)
        (number_or_all (form.atoi form.tail_len)) out_file err_file).sent
      upgraded

-- apiV1JobLogs once the connection is upgraded: the frames that the client gets.
unfoldable pub api_v1_job_logs : (ℕ → Bool) → Form → CommonJob → StdFile → StdFile → List Frame
unfolding streamed refusals
api_v1_job_logs alive form job out_file err_file =
    if job.base.config.stdout == "" && job.base.config.stderr == ""
    then text "neither stdout, nor stderr is defined for this job" ∷ []
    else (if is_running alive job
        then (streamed form job out_file err_file).frames
        else refusals job)

-- apiV1JobLogs behind the middleware: the answer to a request that is no websocket handshake, and
-- to one that is, after which the connection carries the frames above.
unfoldable pub serve_logs : Bool → Runner → ℕ → Answer
serve_logs false r ref =
    ok (r, record { code = 500; body = Api.text "failed to upgrade connection" })
serve_logs true r ref = ok (r, record { code = 101; body = Api.log_stream ref })

-- req.FormValue
unfoldable pub form_value : String → List (String × String) → String
form_value key query = elim (lookup key query) [ none ↦ "" | some given ↦ given ]

-- The files that the log paths of a job lead to, and the two functions of the standard library.
pub record LogSource : Type 0 where
  pub lower : String → String
  pub atoi : String → Option ℤ
  pub files : Runner → ℕ → StdFile × StdFile

unfoldable pub form_of : LogSource → List (String × String) → Form
unfolding form_value
form_of src query = record {
  lower = src.lower;
  atoi = src.atoi;
  follow = form_value "follow" query;
  tail_len = form_value "taillen" query;
}
