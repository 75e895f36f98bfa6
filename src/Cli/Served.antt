-- ===== src/Cli/Served.antt =====
-- The client of pkg/cli before the server of pkg/proc: the requests of the one are the routes of
-- the other. The connection carries a request and its answer; a handler that panics ends it.
pub mod Calls
pub mod Logs
use mittnite.Prelude.{
  ℕ, String, ◌<>◌, Option, none, some, List, [], ◌∷◌, Result, ok, err, ◌≡◌, refl, sym, ap, ◌∙◌, leb,
  false, true, Bool, ◌↔◌, ◌<◌, arith, ◌>>=◌, Bool-cases, inl, inr, ◌==◌, string_eq,
}
use mittnite.Proc.CommonJob.{CommonJobStatus, status}
use mittnite.Proc.Runner.{Runner, common_of, find_common_job_by_name}
use mittnite.Proc.BaseJob.{is_controllable}
use mittnite.Proc.Runner.Api.{
  Body, empty, text, job_status, job_names, log_stream, Reply, System, Answer, api_v1_start_job,
  api_v1_restart_job, api_v1_stop_job, api_v1_job_status, api_v1_job_list, api_v1_job_middleware,
}
use mittnite.Proc.Runner.Api.Keeps.{runner_after}
use mittnite.Proc.Runner.Api.Http.{
  Codec, Written, written, write, Server, Endpoint, Dispatches, dispatched, handle, routes,
  job_route, serve_request, lists, starts, restarts, stops, shows_status,
}
use mittnite.Proc.Runner.Api.Found.{status-found}
use mittnite.Cli.Text.{before}
use mittnite.Cli.Responses.{
  ApiError, not_sent, HttpResponse, CommonApiResponse, error_response, with_body, status_error,
  new_api_response, TypedApiResponse, new_typed_api_response, read_body, by_media_type, decoded,
}
use mittnite.Cli.Client.{
  Url, Dialer, Net, HttpRequest, http_client, request, build_http_client_and_url, post, get,
  job_start, job_restart, job_stop, call_action, job_list,
}
use mittnite.Cli.Client

unfoldable pub received : Option Written → Result String HttpResponse
received none = err "EOF"
received (some w) =
    ok (record { status_code = w.status_code; content_type = w.content_type; body = ok w.text })

-- The client's side of the connection: the parser of addresses and the decoders of JSON.
pub record Decoders : Type 0 where
  pub parse_url : String → Result String Url
  pub decode_status : String → Result String CommonJobStatus
  pub blank_status : CommonJobStatus
  pub decode_names : String → Result String (List String)

unfoldable pub connect : Server → Decoders → Net Runner
unfolding received
connect s d = record {
  parse_url = d.parse_url;
  send = λ q r. let (r', answer) = serve_request s q.method q.url.path r in (r', received answer);
  decode_status = d.decode_status;
  blank_status = d.blank_status;
  decode_names = d.decode_names;
}

-- The answer that the client counts as a success.
abbrev pub Accepted : Answer → Type 0
Accepted (err r) = ⊥
Accepted (ok (r, reply)) = reply.code < 400

-- The runner is as the handler left it, and there is no error exactly for a success.
pub record Reaches (x : Runner × CommonApiResponse) (a : Answer) : Type 0 where
  pub state : x.0 ≡ runner_after a
  pub error : (x.1.error ≡ none) ↔ Accepted a

status_code-written :
    (codec : Codec) (code : ℕ) (b : Body) → (written codec code b).status_code ≡ code
unfolding written
status_code-written codec code empty = refl
status_code-written codec code (text t) = refl
status_code-written codec code (job_status x) = refl
status_code-written codec code (job_names ns) = refl
status_code-written codec code (log_stream ref) = refl

status_error-none : (code : ℕ) (t : String) → (status_error code t ≡ none) ↔ (code < 400)
unfolding status_error
status_error-none code t = elim (Bool-cases (leb 400 code)) [
  | inl bad ↦ rw bad ((λ e. ground arith), (λ lt. ground (arith, bad)))
  | inr fine ↦ rw fine ((λ e. ground (arith, fine)), (λ lt. refl))
]

pub json-typed :
    {B : Type 0} (decode : String → Result String B) (blank : B) (code : ℕ) (out : String) (b : B)
    → decode out ≡ ok b
    → new_typed_api_response decode blank (
        received
          (some (record { status_code = code; content_type = "application/json"; text = out })))
      ≡ record { status_code = code; body = b; error = none; content_type = "application/json" }
unfolding new_typed_api_response read_body by_media_type decoded received before
json-typed decode blank code out b e = rw e refl

module _ (s : Server) (d : Decoders) (api_address : String) (u : Url)
    (parses : d.parse_url api_address ≡ ok u) where
  -- What the client makes of an answer.
  unfoldable pub seen : Answer → Runner × CommonApiResponse
  unfolding write received
  seen a = let (r, o) = write s.codec a in (r, new_api_response (received o))

  pub built : build_http_client_and_url (connect s d) api_address ≡ ok (http_client u)
  unfolding build_http_client_and_url connect
  built = ap (λ x. x >>= λ v. ok (http_client v)) parses

  post_to :
      (path : String) (endpoint : Endpoint) (n : Option String) (r : Runner) (target : Dialer × Url)
      → s.dispatch routes "POST" path ≡ some (endpoint, n)
      → post (connect s d) api_address path (ok target) r ≡ seen (handle s endpoint n r)
  unfolding post connect serve_request request seen dispatched
  post_to path endpoint n r (dialer, v) hit =
      ap (λ o. let (r', a) = dispatched s o r in (r', new_api_response (received a))) hit

  pub post-seen :
      (path : String) (endpoint : Endpoint) (n : Option String) (r : Runner)
      → s.dispatch routes "POST" path ≡ some (endpoint, n)
      → post (connect s d) api_address path (build_http_client_and_url (connect s d) api_address) r
        ≡ seen (handle s endpoint n r)
  post-seen path endpoint n r hit = rw built (post_to path endpoint n r (http_client u) hit)

  pub get_from :
      {B : Type 0} (decode : String → Result String B) (blank : B) (path : String)
      (endpoint : Endpoint) (n : Option String) (r : Runner) (target : Dialer × Url)
      → s.dispatch routes "GET" path ≡ some (endpoint, n)
      → get (connect s d) api_address decode blank path (ok target) r ≡ (
          let (r', a) = write s.codec (handle s endpoint n r) in
          (r', new_typed_api_response decode blank (received a)))
  unfolding get connect serve_request request dispatched
  get_from decode blank path endpoint n r (dialer, v) hit =
      ap
        (λ o.
          let (r', a) = dispatched s o r in (r', new_typed_api_response decode blank (received a)))
        hit

  pub seen-Reaches : (a : Answer) → Reaches (seen a) a
  unfolding seen write received new_api_response with_body error_response
  seen-Reaches (err r) = record { state = refl; error = ((λ e. ground arith), absurd) }
  seen-Reaches (ok (r, reply)) = record {
    state = refl;
    error =
        rw (status_code-written s.codec reply.code reply.body)
          (status_error-none reply.code (written s.codec reply.code reply.body).text);
  }
