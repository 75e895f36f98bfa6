-- ===== src/Ctl/Commands/Status/ExitCode.antt =====
-- The exit code of the command status, and the job that a command is about.
use mittnite.Prelude.{
  ℕ, String, ◌≡◌, refl, Bool, true, false, none, some, List, [], ◌∷◌, ok, if◌then◌else◌,
}
use mittnite.Proc.BaseJob.{is_controllable}
use mittnite.Proc.CommonJob.{CommonJobStatus, status, is_running}
use mittnite.Proc.Runner.{Runner, common_of, find_common_job_by_name}
use mittnite.Proc.Runner.Api.{api_v1_job_list}
use mittnite.Proc.Runner.Api.Http.{Server, Dispatches, routes, lists}
use mittnite.Cli.Client.{Url}
use mittnite.Cli.Served.{Decoders, connect}
use mittnite.Cli.Served.Calls.{job_list-served, job_status-served}
use mittnite.Ctl.{determine_job_name}
use mittnite.Ctl.Commands.{exit_code, Terminal}
use mittnite.Ctl.Commands.Status.{
  run_status, status_of, status_answered, status_shown, status_end, status_messages,
}

module _ (s : Server) (d : Decoders) (api_address : String) (u : Url)
    (parses : d.parse_url api_address ≡ ok u) (r : Runner) where
  -- Where the runner's list has one name, a command without an argument is about the job of that
  -- name, as if the name were given.
  pub determine_job_name-only :
      (n : String)
      → api_v1_job_list r ≡ n ∷ []
      → s.dispatch routes "GET" "/v1/jobs" ≡ some (lists, none)
      → d.decode_names (s.codec.encode_names (api_v1_job_list r)) ≡ ok (api_v1_job_list r)
      → determine_job_name (connect s d) api_address [] r
        ≡ determine_job_name (connect s d) api_address (n ∷ []) r
  unfolding determine_job_name
  determine_job_name-only n only route reads =
      rw (job_list-served s d api_address u parses r route reads, only) refl

  exit_code-running :
      (running : Bool) (x : CommonJobStatus)
      → x.running ≡ running
      → exit_code (status_end true x) ≡ (if running then 0 else 1)
  unfolding status_end exit_code
  exit_code-running true x e = rw e refl
  exit_code-running false x e = rw e refl

  -- `mittnitectl job status --exit-with-status` on a job that the runner finds and that may be
  -- controlled exits with 0 if the process of the job runs and with 1 if not; where it prints no
  -- JSON, the router dispatches the name, and JSON is read back as written.
  pub exit_code-run_status :
      (t : Terminal Runner) (n : String) (args : List String) (ref : ℕ)
      → Dispatches s.dispatch n
      → find_common_job_by_name r n ≡ some ref
      → is_controllable (common_of (r.heap ref)).base ≡ true
      → d.decode_status (s.codec.encode_status (status s.system.alive (common_of (r.heap ref))))
        ≡ ok (status s.system.alive (common_of (r.heap ref)))
      → exit_code (run_status (connect s d) api_address t false true (n ∷ args) r).end
        ≡ (if is_running s.system.alive (common_of (r.heap ref)) then 0 else 1)
  unfolding run_status status_of status_answered status_shown status_messages determine_job_name
      status
  exit_code-run_status t n args ref routed found controllable reads =
      rw (job_status-served s d api_address u parses n r ref routed found controllable reads) (
        exit_code-running (is_running s.system.alive (common_of (r.heap ref)))
          (status s.system.alive (common_of (r.heap ref))) refl)
