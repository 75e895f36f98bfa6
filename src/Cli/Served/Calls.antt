-- ===== src/Cli/Served/Calls.antt =====
-- What each call of the client comes to at the server.
use mittnite.Prelude.{ℕ, String, ◌<>◌, none, some, [], ok, ◌≡◌, ap, ◌∙◌, true, string_eq}
use mittnite.Proc.CommonJob.{status}
use mittnite.Proc.Runner.{Runner, common_of, find_common_job_by_name}
use mittnite.Proc.BaseJob.{is_controllable}
use mittnite.Proc.Runner.Api.{
  api_v1_start_job, api_v1_restart_job, api_v1_stop_job, api_v1_job_list, api_v1_job_middleware,
}
use mittnite.Proc.Runner.Api.Http.{
  written, write, Server, Dispatches, handle, routes, lists, starts, restarts, stops, shows_status,
}
use mittnite.Proc.Runner.Api.Found.{status-found}
use mittnite.Cli.Client.{
  Url, Dialer, Net, HttpRequest, http_client, request, build_http_client_and_url, post, get,
  job_start, job_restart, job_stop, call_action, job_list,
}
use mittnite.Cli.Client
use mittnite.Cli.Served.{
  Decoders, connect, Reaches, built, post-seen, get_from, seen-Reaches, json-typed,
}

module _ (s : Server) (d : Decoders) (api_address : String) (u : Url)
    (parses : d.parse_url api_address ≡ ok u) where
  -- The client's actions start, restart and stop on a job do what the handlers of these names do
  -- behind the middleware, for a name that the router dispatches: the runner is left as the handler
  -- leaves it, and the client has an error exactly if the handler panics or answers with a status
  -- code of 400 or above.
  pub call_action-Reaches :
      (n : String) (r : Runner)
      → Dispatches s.dispatch n
      → Reaches
          (call_action (connect s d) api_address n "start" r)
          (api_v1_job_middleware s.system (api_v1_start_job s.system) r (some n))
        × Reaches
            (call_action (connect s d) api_address n "restart" r)
            (api_v1_job_middleware s.system (api_v1_restart_job s.system) r (some n))
        × Reaches
            (call_action (connect s d) api_address n "stop" r)
            (api_v1_job_middleware s.system (api_v1_stop_job s.system) r (some n))
  unfolding call_action job_start job_restart job_stop handle
  call_action-Reaches n r routed = (
    rw (post-seen s d api_address u parses ("/v1/job/" <> n <> "/start") starts (some n) r routed.0)
        (seen-Reaches s d api_address u parses (handle s starts (some n) r)),
    rw
        (post-seen s d api_address u parses ("/v1/job/" <> n <> "/restart") restarts (some n) r
          routed.1.0)
        (seen-Reaches s d api_address u parses (handle s restarts (some n) r)),
    rw
        (post-seen s d api_address u parses ("/v1/job/" <> n <> "/stop") stops (some n) r
          routed.1.1.0)
        (seen-Reaches s d api_address u parses (handle s stops (some n) r)),
  )

  -- JobList answers with the runner's list and leaves the runner as it is, if its JSON is read back
  -- as it was written.
  pub job_list-served :
      (r : Runner)
      → s.dispatch routes "GET" "/v1/jobs" ≡ some (lists, none)
      → d.decode_names (s.codec.encode_names (api_v1_job_list r)) ≡ ok (api_v1_job_list r)
      → job_list (connect s d) api_address r ≡ (
        r,
        record {
          status_code = 200;
          body = api_v1_job_list r;
          error = none;
          content_type = "application/json";
        },
      )
  unfolding job_list handle write written connect http_client
  job_list-served r routed reads = rw (built s d api_address u parses) (
      get_from s d api_address u parses d.decode_names [] "/v1/jobs" lists none r (http_client u)
        routed
      ∙ ap (λ x. (r, x))
          (json-typed d.decode_names [] 200 (s.codec.encode_names (api_v1_job_list r))
            (api_v1_job_list r) reads))

  -- JobStatus of a job that the runner finds under its name and that may be controlled answers with
  -- its status and leaves the runner as it is, if the JSON is read back as it was written.
  pub job_status-served :
      (n : String) (r : Runner) (ref : ℕ)
      → Dispatches s.dispatch n
      → find_common_job_by_name r n ≡ some ref
      → is_controllable (common_of (r.heap ref)).base ≡ true
      → d.decode_status (s.codec.encode_status (status s.system.alive (common_of (r.heap ref))))
        ≡ ok (status s.system.alive (common_of (r.heap ref)))
      → Client.job_status (connect s d) api_address n r ≡ (
        r,
        record {
          status_code = 200;
          body = status s.system.alive (common_of (r.heap ref));
          error = none;
          content_type = "application/json";
        },
      )
  unfolding Client.job_status handle write written connect http_client
  job_status-served n r ref routed found controllable reads = rw (built s d api_address u parses) (
      get_from s d api_address u parses d.decode_status d.blank_status
        ("/v1/job/" <> n <> "/status") shows_status (some n) r (http_client u) routed.1.1.1.0
      ∙ rw (status-found s.system r n ref found controllable) (
          ap (λ x. (r, x))
            (json-typed d.decode_status d.blank_status 200
              (s.codec.encode_status (status s.system.alive (common_of (r.heap ref))))
              (status s.system.alive (common_of (r.heap ref))) reads)))
