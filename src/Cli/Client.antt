-- ===== src/Cli/Client.antt =====
-- api_client.go and api_address_builder.go: a call of the client is a request to the server, which
-- may change the state `W` of the outside.
use mittnite.Prelude.{
  String, ◌<>◌, Bool, some, List, [], ◌∷◌, ◌++◌, Result, ok, err, ◌>>=◌, ℤ, ◌==◌, string_eq,
  if◌then◌else◌,
}
use mittnite.Proc.CommonJob.{CommonJobStatus}
use mittnite.Cli.Responses.{
  not_sent, unknown_action, HttpResponse, CommonApiResponse, error_response, new_api_response,
  TypedApiResponse, typed_error, new_typed_api_response,
}

pub record Url : Type 0 where
  pub scheme : String
  pub host : String
  pub path : String
  pub query : List (String × String)

-- How a request is sent: to the host of its URL, or through a unix socket.
pub data Dialer : Type 0 where
  to_host : Dialer
  to_socket : String → Dialer

pub record HttpRequest : Type 0 where
  pub dialer : Dialer
  pub method : String
  pub url : Url

-- url.Parse, the HTTP client, and the decoders of JSON with the zero values that they start from.
pub record Net (W : Type 0) : Type 0 where
  pub parse_url : String → Result String Url
  pub send : HttpRequest → W → W × Result String HttpResponse
  pub decode_status : String → Result String CommonJobStatus
  pub blank_status : CommonJobStatus
  pub decode_names : String → Result String (List String)

unfoldable pub http_client : Url → Dialer × Url
http_client u =
    if u.scheme == "unix"
    then (to_socket u.path, record u { scheme = "http"; host = "unix" })
    else (to_host, u)

unfoldable pub websocket_client : Url → Dialer × Url
websocket_client u =
    if u.scheme == "unix"
    then (to_socket u.path, record u { scheme = "ws"; host = "unix" })
    else (to_host, record u { scheme = "ws" })

module _ {W : Type 0} (net : Net W) (api_address : String) where
  unfoldable pub build_http_client_and_url : Result String (Dialer × Url)
  unfolding http_client
  build_http_client_and_url = net.parse_url api_address >>= λ u. ok (http_client u)

  unfoldable pub build_websocket_url : Result String (Dialer × Url)
  unfolding websocket_client
  build_websocket_url = net.parse_url api_address >>= λ u. ok (websocket_client u)

  -- A request for a path, once the address is known.
  unfoldable pub request : String → String → Dialer × Url → HttpRequest
  request method path (dialer, u) = record {
    dialer = dialer;
    method = method;
    url = record u { path = path };
  }

  -- client.Post and NewAPIResponse
  unfoldable pub post : String → Result String (Dialer × Url) → W → W × CommonApiResponse
  unfolding request
  post path (err e) w = (w, error_response (not_sent e))
  post path (ok target) w =
      let (w', answer) = net.send (request "POST" path target) w in (w', new_api_response answer)

  -- client.Get and NewTypedAPIResponse
  unfoldable pub get :
      {B : Type 0}
      → (String → Result String B)
      → B
      → String
      → Result String (Dialer × Url)
      → W
      → W × TypedApiResponse B
  unfolding request
  get decode blank path (err e) w = (w, typed_error decode blank (not_sent e))
  get decode blank path (ok target) w =
      let (w', answer) = net.send (request "GET" path target) w in
      (w', new_typed_api_response decode blank answer)

  unfoldable pub job_start : String → W → W × CommonApiResponse
  unfolding post
  job_start job = post ("/v1/job/" <> job <> "/start") build_http_client_and_url

  unfoldable pub job_restart : String → W → W × CommonApiResponse
  unfolding post
  job_restart job = post ("/v1/job/" <> job <> "/restart") build_http_client_and_url

  unfoldable pub job_stop : String → W → W × CommonApiResponse
  unfolding post
  job_stop job = post ("/v1/job/" <> job <> "/stop") build_http_client_and_url

  -- CallAction
  unfoldable pub call_action : String → String → W → W × CommonApiResponse
  call_action job action w =
      if action == "start"
      then job_start job w
      else (if action == "restart"
          then job_restart job w
          else (if action == "stop" then job_stop job w else (
            w,
            record {
              status_code = 400;
              body = "";
              error = some (unknown_action action);
              content_type = "";
            },
          )))

  unfoldable pub job_status : String → W → W × TypedApiResponse CommonJobStatus
  unfolding get
  job_status job =
      get net.decode_status net.blank_status ("/v1/job/" <> job <> "/status")
        build_http_client_and_url

  unfoldable pub job_list : W → W × TypedApiResponse (List String)
  unfolding get
  job_list = get net.decode_names [] "/v1/jobs" build_http_client_and_url

  -- The request of JobLogs, which upgrades to a websocket; `itoa` prints a number.
  unfoldable pub job_logs : (ℤ → String) → String → Bool → ℤ → Result String HttpRequest
  unfolding request
  job_logs itoa job follow tail_len = build_websocket_url >>= λ (dialer, u). ok (
      request "GET" ("/v1/job/" <> job <> "/logs") (
        dialer,
        record u {
          query =
              u.query
              ++ ("taillen", itoa tail_len) ∷ (if follow then ("follow", "true") ∷ [] else []);
        },
      ))
