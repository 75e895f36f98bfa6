-- ===== src/Ctl/Commands/Actions/Stops.antt =====
-- From the command line to the signal.
use mittnite.Prelude.{
  ℕ, String, ◌<>◌, ◌≡◌, refl, ap, ◌∙◌, Bool, true, false, none, some, List, [], ◌∷◌, ok,
}
use mittnite.Proc.BaseJob.{is_controllable}
use mittnite.Proc.Runner.{Runner, common_of, find_common_job_by_name}
use mittnite.Proc.Runner.Api.{empty, api_v1_job_middleware, api_v1_stop_job}
use mittnite.Proc.Runner.Api.Found.{IsStopped, stop-found}
use mittnite.Proc.Runner.Api.Http.{Server, Dispatches, stops, handle, write, written}
use mittnite.Cli.Client.{Url, call_action, job_stop}
use mittnite.Cli.Responses.{
  new_api_response, with_body, status_error, print_response, printed_unless,
}
use mittnite.Cli.Served.{Decoders, connect, received, seen, post-seen}
use mittnite.Ctl.{determine_job_name, says, json}
use mittnite.Ctl.Commands.{ends, Terminal}
use mittnite.Ctl.Commands.Actions.{stop_command, with_wait, after_action, act, run_action}

module _ (s : Server) (d : Decoders) (api_address : String) (u : Url)
    (parses : d.parse_url api_address ≡ ok u) (t : Terminal Runner) where
  seen-ok :
      (r : Runner)
      → seen s d api_address u parses (ok (r, record { code = 200; body = empty }))
        ≡ (r, record { status_code = 200; body = ""; error = none; content_type = "" })
  unfolding seen write written received new_api_response with_body status_error
  seen-ok r = refl

  act-stopped :
      (n : String) (r s' : Runner) (rounds wait_for : ℕ)
      → call_action (connect s d) api_address n "stop" r
        ≡ (s', record { status_code = 200; body = ""; error = none; content_type = "" })
      → act
          (connect s d)
          api_address
          t
          rounds
          (stop_command (connect s d) api_address)
          (ok (false, wait_for))
          (r, ok n)
        ≡ some (record {
          state = s';
          messages = says "stopping job %s" n ∷ json [] ∷ [];
          end = ends none;
        })
  unfolding act stop_command after_action with_wait print_response printed_unless
  act-stopped n r s' rounds wait_for e = rw e refl

  module _ (n : String) (r : Runner) (ref pid : ℕ) (cancelled : Bool)
      (routed : Dispatches s.dispatch n) (found : find_common_job_by_name r n ≡ some ref)
      (controllable : is_controllable (common_of (r.heap ref)).base ≡ true)
      (started : (common_of (r.heap ref)).interrupt ≡ some cancelled)
      (runs : (common_of (r.heap ref)).cmd ≡ some pid) where
    call_action-stopped :
        (s' : Runner)
        → api_v1_job_middleware s.system (api_v1_stop_job s.system) r (some n)
          ≡ ok (s', record { code = 200; body = empty })
        → call_action (connect s d) api_address n "stop" r
          ≡ (s', record { status_code = 200; body = ""; error = none; content_type = "" })
    unfolding call_action job_stop handle
    call_action-stopped s' e =
        post-seen s d api_address u parses ("/v1/job/" <> n <> "/stop") stops (some n) r
          routed.1.1.0
        ∙ ap (seen s d api_address u parses) e
        ∙ seen-ok s'

    -- `mittnitectl job stop` without waiting, for a job that the runner finds, that may be
    -- controlled, was started and has a process, and whose name the router dispatches: the command
    -- prints its message and the empty answer and ends without an error, and in the runner the job
    -- is marked to be stopped, its context is cancelled, and the one signal sent is SIGTERM to the
    -- group of the process; whether it is to be restarted, and the list of jobs, are as before.
    pub run_action-stops :
        (args : List String) (rounds wait_for : ℕ)
        → (s' : Runner) × (run_action
              (connect s d)
              api_address
              t
              rounds
              (stop_command (connect s d) api_address)
              (ok (false, wait_for))
              (n ∷ args)
              r
            ≡ some (record {
              state = s';
              messages = says "stopping job %s" n ∷ json [] ∷ [];
              end = ends none;
            }))
          × IsStopped r ref pid s'
    unfolding run_action determine_job_name
    run_action-stops args rounds wait_for =
        let (s', answered, stopped) =
          stop-found r ref pid cancelled started runs s.system n found controllable in
        (s', act-stopped n r s' rounds wait_for (call_action-stopped s' answered), stopped)
