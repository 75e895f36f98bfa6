-- ===== src/Examples/Ctl.antt =====
-- The command line before a server with one job.
use mittnite.Prelude.{
  negsuc, lookup, ℕ, ◌+◌, ◌*◌, ◌≡◌, refl, String, true, false, Option, none, some, List, [], ◌∷◌,
  ok, ◌==◌, string_eq, nat_eq, if◌then◌else◌, arith, map, ◌++◌,
}
use mittnite.Proc.BaseJob.{init, is_controllable, get_name}
use mittnite.Proc.CommonJob.{CommonJobStatus, status, is_running}
use mittnite.Proc.Runner.{Runner, common, find_common_job_by_name}
use mittnite.Proc.Runner.Api.{
  api_v1_job_list, list_jobs, listed, api_v1_job_middleware, api_v1_start_job, api_v1_restart_job,
  api_v1_stop_job,
}
use mittnite.Proc.Runner.Api.Http.{
  serve_request, serve_handshake, Server, Endpoint, starts, restarts, stops, shows_status,
  shows_logs, lists, Dispatches,
}
use mittnite.Proc.Runner.Names.Refines.{
  Change, adds, removes, apply, replay, names_of, IsDistinct, apply-replay,
}
use mittnite.Proc.BaseJob.Streams.Once.{lines_once}
use mittnite.Proc.Runner.Names.{IsValid}
use mittnite.Proc.Runner.Api.Logs.{LogSource}
use mittnite.Proc.Runner.Api.Routed.{serve_request-IsValid}
use mittnite.Cli.Served.Logs.{HasLogs}
use mittnite.Ctl.Commands.Logs.{run_logs, at_least_all}
use mittnite.Ctl.Commands.Logs.Served.{run_logs-once, dialling}
use mittnite.Examples.Streams.{out_file, err_file, first_pass, out_given}
use mittnite.Cli.Client.{Url, call_action}
use mittnite.Cli.Served.{Decoders, connect, Reaches}
use mittnite.Cli.Served.Calls.{call_action-Reaches}
use mittnite.Proc.Runner.Api.Found.{IsStopped}
use mittnite.Ctl.{CtlError, list_heading, list_help, says, json}
use mittnite.Ctl.Commands.{Terminal, ends, exit_code}
use mittnite.Ctl.Commands.Actions.{stop_command, run_action}
use mittnite.Ctl.Commands.Actions.Stops.{run_action-stops}
use mittnite.Ctl.Commands.Listing.{run_list}
use mittnite.Ctl.Commands.Listing.Served.{line_for, run_list-served}
use mittnite.Ctl.Commands.Status.{run_status}
use mittnite.Ctl.Commands.Status.ExitCode.{exit_code-run_status}
use mittnite.Ctl.Wait.{Condition, wait_for_condition}
use mittnite.Ctl.Wait.Ends.{Ended, wait-Ended, pause}
use mittnite.Examples.{web}
use mittnite.Examples.Api.{system}
use mittnite.Examples.Runner.{one_job, one_job-IsValid}

-- A router that knows the paths of the job `web`.
abbrev dispatch_to : String → Option (Endpoint × Option String)
dispatch_to path =
    if path == "/v1/job/web/start"
    then some (starts, some "web")
    else (if path == "/v1/job/web/restart"
        then some (restarts, some "web")
        else (if path == "/v1/job/web/stop"
            then some (stops, some "web")
            else (if path == "/v1/job/web/status"
                then some (shows_status, some "web")
                else (if path == "/v1/job/web/logs"
                    then some (shows_logs, some "web")
                    else (if path == "/v1/jobs" then some (lists, none) else none)))))

abbrev web_status : CommonJobStatus
web_status = status system.alive web

abbrev server : Server
server = record {
  system = system;
  codec = record { encode_status = λ s. "{}"; encode_names = λ ns. "[]" };
  dispatch = λ table method path. dispatch_to path;
  unrouted = record { status_code = 404; content_type = "text/plain"; text = "404 page not found" };
}

abbrev socket : Url
socket = record { scheme = "unix"; host = ""; path = "/run/mittnite.sock"; query = [] }

abbrev decoders : Decoders
decoders = record {
  parse_url = λ text. ok socket;
  decode_status = λ text. ok web_status;
  blank_status = web_status;
  decode_names = λ text. ok ("web" ∷ []);
}

routed : Dispatches server.dispatch "web"
routed = (refl, (refl, (refl, (refl, (refl, (refl, tt))))))

call_action-Reaches_example :
    Reaches
      (call_action (connect server decoders) "unix:///run/mittnite.sock" "web" "start" one_job)
      (api_v1_job_middleware system (api_v1_start_job system) one_job (some "web"))
    × Reaches
        (call_action (connect server decoders) "unix:///run/mittnite.sock" "web" "restart" one_job)
        (api_v1_job_middleware system (api_v1_restart_job system) one_job (some "web"))
    × Reaches
        (call_action (connect server decoders) "unix:///run/mittnite.sock" "web" "stop" one_job)
        (api_v1_job_middleware system (api_v1_stop_job system) one_job (some "web"))
call_action-Reaches_example =
    call_action-Reaches server decoders "unix:///run/mittnite.sock" socket refl "web" one_job routed

only_web : api_v1_job_list one_job ≡ "web" ∷ []
unfolding api_v1_job_list list_jobs listed get_name is_controllable init
only_web = refl

web_found : find_common_job_by_name one_job "web" ≡ some 0
unfolding find_common_job_by_name get_name init
web_found = refl

web_controllable : is_controllable web.base ≡ true
unfolding is_controllable init
web_controllable = refl

abbrev terminal : Terminal Runner
terminal = record {
  pretty = λ text. ok text;
  encode_status = λ s. ok "{}";
  encode_names = λ ns. ok "[]";
  describe = λ e. "error";
  itoa = λ n. "-1";
  sleep = λ r. r;
  now = λ r. 0;
  dial = λ q r. (r, none, []);
}

run_list-served_example :
    run_list (connect server decoders) "unix:///run/mittnite.sock" terminal false one_job ≡ record {
      state = one_job;
      messages =
          list_heading
            ∷ map
                (line_for server decoders "unix:///run/mittnite.sock" socket refl terminal one_job)
                (api_v1_job_list one_job)
          ++ list_help ∷ [];
      end = ends none;
    }
run_list-served_example =
    run_list-served server decoders "unix:///run/mittnite.sock" socket refl terminal one_job
      (λ ref. refl) one_job-IsValid refl (rw only_web (routed, tt)) (rw only_web refl)

exit_code-run_status_example :
    exit_code
      (run_status
        (connect server decoders)
        "unix:///run/mittnite.sock"
        terminal
        false
        true
        ("web" ∷ [])
        one_job).end
    ≡ (if is_running system.alive web then 0 else 1)
exit_code-run_status_example =
    exit_code-run_status server decoders "unix:///run/mittnite.sock" socket refl one_job terminal
      "web" [] 0 routed web_found web_controllable refl

-- A clock that the pause moves on, and a job that runs from the third question on.
abbrev asks : Condition (ℕ × ℕ)
asks (time, asked) = ((time, asked + 1), ok (if asked == 2 then true else false))

abbrev sleeps : ℕ × ℕ → ℕ × ℕ
sleeps (time, asked) = (time + pause, asked)

abbrev clock : ℕ × ℕ → ℕ
clock (time, asked) = time

wait-Ended_example :
    (end : (ℕ × ℕ) × Option CtlError) × (wait_for_condition sleeps clock 51 "web"
        (50 * pause)
        asks
        (7, 0)
      ≡ some end)
    × Ended sleeps clock "web" (50 * pause) asks 7 end
wait-Ended_example =
    wait-Ended sleeps clock "web" (50 * pause) asks (λ (time, asked). omega arith)
      (λ (time, asked). omega arith) 51 (7, 0) (omega arith)

-- A job is added again under its name, and removed.
abbrev changes : List Change
changes = adds 0 ∷ removes 0 ∷ adds 0 ∷ []

apply-replay_example :
    IsDistinct (apply changes one_job)
    × (names_of (apply changes one_job)
        ≡ replay (λ ref. get_name web.base) changes (names_of one_job))
apply-replay_example = apply-replay changes one_job one_job-IsValid.distinct

-- The job `web` after its start, as process 42.
abbrev started_web : Runner
started_web = record one_job {
  heap = λ ref.
      common (record web { base = record web.base { interrupt = some false; cmd = some 42 } });
}

started_web_found : find_common_job_by_name started_web "web" ≡ some 0
unfolding find_common_job_by_name get_name init
started_web_found = refl

run_action-stops_example :
    (s' : Runner) × (run_action
        (connect server decoders)
        "unix:///run/mittnite.sock"
        terminal
        0
        (stop_command (connect server decoders) "unix:///run/mittnite.sock")
        (ok (false, 10))
        ("web" ∷ [])
        started_web
      ≡ some (record {
        state = s';
        messages = says "stopping job %s" "web" ∷ json [] ∷ [];
        end = ends none;
      }))
    × IsStopped started_web 0 42 s'
unfolding init is_controllable
run_action-stops_example =
    run_action-stops server decoders "unix:///run/mittnite.sock" socket refl terminal "web"
      started_web 0 42 false routed started_web_found web_controllable refl refl [] 0 10

-- The log files of the job, whose tail is not asked for.
abbrev log_files : LogSource
log_files = record {
  lower = λ text. text;
  atoi = λ text. some (negsuc 0);
  files = λ r ref. (out_file, err_file);
}

serve_request-IsValid_example :
    IsValid (serve_request server "POST" "/v1/job/web/stop" one_job).0
    × IsValid (serve_handshake server log_files "/v1/job/web/logs" [] one_job).0
serve_request-IsValid_example =
    serve_request-IsValid server log_files "POST" "/v1/job/web/stop" "/v1/job/web/logs" [] one_job
      one_job-IsValid

started_web-HasLogs : HasLogs server log_files started_web 0 first_pass
unfolding is_running init
started_web-HasLogs = record {
  runs = refl;
  named = out_given;
  opens = refl;
  later = [];
  turns = refl;
  fine = refl;
}

run_logs-once_example :
    run_logs
      (connect server decoders)
      "unix:///run/mittnite.sock"
      (dialling server decoders "unix:///run/mittnite.sock" socket refl log_files terminal)
      false
      (negsuc 0)
      ("web" ∷ [])
      started_web
    ≡ some (record {
      state = started_web;
      messages = json (lines_once (at_least_all (negsuc 0)) out_file first_pass) ∷ [];
      end = ends none;
    })
unfolding init is_controllable lookup at_least_all
run_logs-once_example =
    run_logs-once server decoders "unix:///run/mittnite.sock" socket refl log_files terminal "web"
      [] started_web 0 first_pass (negsuc 0) routed started_web_found web_controllable
      started_web-HasLogs refl refl refl refl
