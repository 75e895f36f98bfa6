-- ===== src/Proc/Runner/Api/Http.antt =====
-- startAPIV1 of pkg/proc/runner_api_v1.go: the routes of the API, what a handler writes, and a
-- request from the router to the answer. The router is gorilla/mux, and JSON is encoding/json.
use mittnite.Prelude.{
  true, false, ℕ, String, ◌<>◌, Option, none, some, List, [], ◌∷◌, ok, err, ◌≡◌, All,
}
use mittnite.Proc.CommonJob.{CommonJobStatus}
use mittnite.Proc.Runner.{Runner, common_of}
use mittnite.Proc.Runner.Api.Logs.{Frame, LogSource, form_of, serve_logs, api_v1_job_logs}
use mittnite.Proc.Runner.Api.{
  Body, empty, text, job_status, job_names, log_stream, System, Answer, api_v1_start_job,
  api_v1_restart_job, api_v1_stop_job, api_v1_job_status, api_v1_job_list, api_v1_job_middleware,
}

pub data Endpoint : Type 0 where
  starts restarts stops shows_status shows_logs lists : Endpoint

-- A path, or what stands before and after the variable {job}.
pub data Template : Type 0 where
  fixed : String → Template
  with_job : String → String → Template

pub record Route : Type 0 where
  pub method : String
  pub template : Template
  pub endpoint : Endpoint

abbrev pub job_route : String → String → Endpoint → Route
job_route method path endpoint = record {
  method = method;
  template = with_job "/v1/job/" path;
  endpoint = endpoint;
}

abbrev pub routes : List Route
routes =
    job_route "POST" "/start" starts
    ∷ job_route "POST" "/restart" restarts
    ∷ job_route "POST" "/stop" stops
    ∷ job_route "GET" "/status" shows_status
    ∷ job_route "GET" "/logs" shows_logs
    ∷ record { method = "GET"; template = fixed "/v1/jobs"; endpoint = lists }
    ∷ []

-- The router: the route for a method and a path, with the value of {job}.
abbrev pub Dispatch : Type 0
Dispatch = List Route → String → String → Option (Endpoint × Option String)

abbrev pub path_for : String → Template → String
path_for n (fixed path) = path
path_for n (with_job front back) = front <> n <> back

abbrev pub variable : String → Template → Option String
variable n (fixed path) = none
variable n (with_job front back) = some n

-- What the code relies on: the template of a route with a name in place of {job} is dispatched to
-- that route. The router does so for a name that is one segment of a path.
abbrev pub Dispatches : Dispatch → String → Type 0
Dispatches dispatch n =
    All
      (λ r.
        dispatch routes r.method (path_for n r.template) ≡ some (r.endpoint, variable n r.template))
      routes

pub record Codec : Type 0 where
  pub encode_status : CommonJobStatus → String
  pub encode_names : List String → String

pub record Written : Type 0 where
  pub status_code : ℕ
  pub content_type : String
  pub text : String

-- http.Error for a text, and the JSON of the other bodies.
unfoldable pub written : Codec → ℕ → Body → Written
written codec code empty = record { status_code = code; content_type = ""; text = "" }
written codec code (text t) = record {
  status_code = code;
  content_type = "text/plain; charset=utf-8";
  text = t <> "\n";
}
written codec code (job_status s) = record {
  status_code = code;
  content_type = "application/json";
  text = codec.encode_status s;
}
written codec code (log_stream ref) = record { status_code = code; content_type = ""; text = "" }
written codec code (job_names ns) = record {
  status_code = code;
  content_type = "application/json";
  text = codec.encode_names ns;
}

-- The server around the runner; `unrouted` is what the router answers where no route fits.
pub record Server : Type 0 where
  pub system : System
  pub codec : Codec
  pub dispatch : Dispatch
  pub unrouted : Written

-- The handler behind an endpoint, for a request that is no websocket handshake; the middleware
-- stands before those of one job.
unfoldable pub handle : Server → Endpoint → Option String → Runner → Answer
handle s starts n r = api_v1_job_middleware s.system (api_v1_start_job s.system) r n
handle s restarts n r = api_v1_job_middleware s.system (api_v1_restart_job s.system) r n
handle s stops n r = api_v1_job_middleware s.system (api_v1_stop_job s.system) r n
handle s shows_status n r = api_v1_job_middleware s.system (api_v1_job_status s.system) r n
handle s shows_logs n r = api_v1_job_middleware s.system (serve_logs false) r n
handle s lists n r = ok (r, record { code = 200; body = job_names (api_v1_job_list r) })

-- The answer to a request; a panic closes the connection.
unfoldable pub write : Codec → Answer → Runner × Option Written
unfolding written
write codec (err r) = (r, none)
write codec (ok (r, reply)) = (r, some (written codec reply.code reply.body))

unfoldable pub dispatched :
    Server → Option (Endpoint × Option String) → Runner → Runner × Option Written
unfolding write handle
dispatched s none r = (r, some s.unrouted)
dispatched s (some (endpoint, n)) r = write s.codec (handle s endpoint n r)

unfoldable pub serve_request : Server → String → String → Runner → Runner × Option Written
unfolding dispatched
serve_request s method path r = dispatched s (s.dispatch routes method path) r

-- What a websocket handshake gets: the frames of the connection, or a refusal.
pub data Upgraded : Type 0 where
  frames : List Frame → Upgraded
  refused : Option Written → Upgraded

-- The stream reads the job as the handler leaves it.
unfoldable pub streaming :
    Server → LogSource → List (String × String) → Runner → ℕ → Body → Runner × Upgraded
unfolding written form_of
streaming s src query r code (log_stream ref) =
    let (out_file, err_file) = src.files r ref in
    (
      r,
      frames (
          api_v1_job_logs s.system.alive (form_of src query) (common_of (r.heap ref)) out_file
            err_file),
    )
streaming s src query r code body = (r, refused (some (written s.codec code body)))

unfoldable pub streamed : Server → LogSource → List (String × String) → Answer → Runner × Upgraded
unfolding streaming
streamed s src query (err r) = (r, refused none)
streamed s src query (ok (r, reply)) = streaming s src query r reply.code reply.body

unfoldable pub upgraded :
    Server
    → LogSource
    → List (String × String)
    → Option (Endpoint × Option String)
    → Runner
    → Runner × Upgraded
unfolding streamed dispatched
upgraded s src query (some (shows_logs, n)) r =
    streamed s src query (api_v1_job_middleware s.system (serve_logs true) r n)
upgraded s src query route r = let (r', o) = dispatched s route r in (r', refused o)

-- A websocket handshake for a path and a query, up to the frames of the connection.
unfoldable pub serve_handshake :
    Server → LogSource → String → List (String × String) → Runner → Runner × Upgraded
unfolding upgraded
serve_handshake s src path query r = upgraded s src query (s.dispatch routes "GET" path) r
