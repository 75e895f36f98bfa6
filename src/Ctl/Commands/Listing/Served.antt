-- ===== src/Ctl/Commands/Listing/Served.antt =====
-- The list command before the server.
use mittnite.Prelude.{
  ℕ, String, ◌≡◌, refl, ap, ◌∙◌, false, Option, none, some, List, [], ◌∷◌, ◌++◌, map, ok, All,
}
use mittnite.Proc.CommonJob.{CommonJobStatus, status}
use mittnite.Proc.Runner.{Runner, common_of, find_common_job_by_name}
use mittnite.Proc.Runner.Names.{IsValid}
use mittnite.Proc.Runner.Api.{api_v1_job_list}
use mittnite.Proc.Runner.Api.Listing.{IsServed, job_list-IsServed}
use mittnite.Proc.Runner.Api.Http.{Server, Dispatches, routes, lists}
use mittnite.Cli.Client.{Url}
use mittnite.Cli.Served.{Decoders, connect}
use mittnite.Cli.Served.Calls.{job_list-served, job_status-served}
use mittnite.Ctl.{Message, line, list_heading, list_help, job_status_line}
use mittnite.Ctl.Commands.{ends, Terminal}
use mittnite.Ctl.Commands.Listing.{run_list, list_answered, listed, list_loop, list_line, next_line}

-- The status of the job that the runner finds under a name.
abbrev status_found : (ℕ → CommonJobStatus) → CommonJobStatus → Option ℕ → CommonJobStatus
status_found at blank none = blank
status_found at blank (some ref) = at ref

module _ (s : Server) (d : Decoders) (api_address : String) (u : Url)
    (parses : d.parse_url api_address ≡ ok u) (t : Terminal Runner) (r : Runner) where
  -- The line that the list shall have for a name.
  abbrev pub line_for : String → Message
  line_for n = line (
      job_status_line n (
        status_found (λ ref. status s.system.alive (common_of (r.heap ref))) d.blank_status
          (find_common_job_by_name r n)))

  module _
      (reads : (ref : ℕ)
        → d.decode_status (s.codec.encode_status (status s.system.alive (common_of (r.heap ref))))
          ≡ ok (status s.system.alive (common_of (r.heap ref)))) where
    list_loop-served :
        (ns : List String)
        → All (Dispatches s.dispatch) ns
        → All (IsServed r) ns
        → list_loop (connect s d) api_address t ns r
          ≡ record { state = r; messages = map line_for ns ++ list_help ∷ []; end = ends none }
    unfolding list_loop list_line next_line
    list_loop-served [] routed served = refl
    list_loop-served (n ∷ ns) routed ((ref, found, controllable), served) =
        ap (list_line (connect s d) api_address t n (list_loop (connect s d) api_address t ns)) (
          job_status-served s d api_address u parses n r ref routed.0 found controllable
            (reads ref))
        ∙ rw (list_loop-served ns routed.1 served, found) refl

    -- On a valid runner `mittnitectl job list` has no error: it prints a line for each name of the
    -- runner's list, with the status of the job that the runner has under that name, and leaves the
    -- runner as it is; if the router dispatches the names and JSON is read back as written.
    pub run_list-served :
        IsValid r
        → s.dispatch routes "GET" "/v1/jobs" ≡ some (lists, none)
        → All (Dispatches s.dispatch) (api_v1_job_list r)
        → d.decode_names (s.codec.encode_names (api_v1_job_list r)) ≡ ok (api_v1_job_list r)
        → run_list (connect s d) api_address t false r ≡ record {
          state = r;
          messages = list_heading ∷ map line_for (api_v1_job_list r) ++ list_help ∷ [];
          end = ends none;
        }
    unfolding run_list list_answered listed
    run_list-served valid route routed reads_names =
        ap (list_answered (connect s d) api_address t false)
          (job_list-served s d api_address u parses r route reads_names)
        ∙ rw (list_loop-served (api_v1_job_list r) routed (job_list-IsServed r valid)) refl
