-- ===== src/Ctl/Commands/Logs/Served.antt =====
-- The command logs before the server.
use mittnite.Prelude.{
  ℤ, ℕ, String, ◌<>◌, ◌≡◌, refl, ap, ◌∙◌, false, true, Bool-cases, inl, inr, none, some, List, [],
  ◌∷◌, ◌++◌, ok, lookup, ◌==◌, string_eq,
}
use mittnite.Proc.BaseJob.{is_controllable}
use mittnite.Proc.BaseJob.Streams.{Pass}
use mittnite.Proc.BaseJob.Streams.Once.{lines_once}
use mittnite.Proc.Runner.{Runner, common_of, find_common_job_by_name}
use mittnite.Proc.Runner.Api.Logs.{LogSource}
use mittnite.Proc.Runner.Api.Http.{Server, Dispatches}
use mittnite.Cli.Client.{Url, HttpRequest, job_logs, build_websocket_url, websocket_client, request}
use mittnite.Cli.Streaming.{Received, returns, print_stream}
use mittnite.Cli.Served.{Decoders, connect}
use mittnite.Cli.Served.Logs.{HasLogs, dial_logs, dial_logs-once}
use mittnite.Ctl.{json, determine_job_name}
use mittnite.Ctl.Commands.{ends, Terminal}
use mittnite.Ctl.Commands.Logs.{at_least_all, printed_stream, logs_from, logs_of, run_logs}

query-websocket_client : (u : Url) → (websocket_client u).1.query ≡ u.query
unfolding websocket_client
query-websocket_client u = elim (Bool-cases (u.scheme == "unix")) [
  | inl socket ↦ rw socket refl
  | inr host ↦ rw host refl
]

module _ (s : Server) (d : Decoders) (api_address : String) (u : Url)
    (parses : d.parse_url api_address ≡ ok u) (src : LogSource) (t : Terminal Runner) where
  -- The terminal whose connections go to the server.
  abbrev pub dialling : Terminal Runner
  dialling = record t { dial = dial_logs s src }

  -- The request of the client.
  asks : String → ℤ → HttpRequest
  unfolding websocket_client
  asks n tail_len = record {
    dialer = (websocket_client u).0;
    method = "GET";
    url = record (websocket_client u).1 {
      path = "/v1/job/" <> n <> "/logs";
      query = (websocket_client u).1.query ++ ("taillen", t.itoa tail_len) ∷ [];
    };
  }

  job_logs-asks :
      (n : String) (tail_len : ℤ)
      → job_logs (connect s d) api_address t.itoa n false tail_len ≡ ok (asks n tail_len)
  unfolding job_logs build_websocket_url request connect asks
  job_logs-asks n tail_len = rw parses refl

  printed :
      (r : Runner) (q : HttpRequest) (answer : List Received) (lines : List String)
      → dial_logs s src q r ≡ (r, none, answer)
      → print_stream none answer ≡ (lines, returns none)
      → logs_from (connect s d) api_address dialling r (ok q)
        ≡ some (record { state = r; messages = json lines ∷ []; end = ends none })
  unfolding logs_from printed_stream
  printed r q answer lines dials prints = rw (dials, prints) refl

  -- `mittnitectl job logs` without --follow, on a running job with a stdout file that opens and is
  -- read without an error: it prints the tail of stdout that was asked for and the lines up to the
  -- first that nobody waits for, in the order of the file and without stderr, and ends without an
  -- error; the runner is as it was. The job is one that the runner finds and that may be
  -- controlled, the router dispatches its name, the query of the address has neither `follow` nor
  -- `taillen`, strings.ToLower keeps the empty text, and the number is read back as it was written.
  pub run_logs-once :
      (n : String) (args : List String) (r : Runner) (ref : ℕ) (p : Pass) (tail_len : ℤ)
      → Dispatches s.dispatch n
      → find_common_job_by_name r n ≡ some ref
      → is_controllable (common_of (r.heap ref)).base ≡ true
      → HasLogs s src r ref p
      → lookup "follow" u.query ≡ none
      → lookup "taillen" u.query ≡ none
      → src.lower "" ≡ ""
      → src.atoi (t.itoa (at_least_all tail_len)) ≡ some (at_least_all tail_len)
      → run_logs (connect s d) api_address dialling false tail_len (n ∷ args) r
        ≡ some (record {
          state = r;
          messages = json (lines_once (at_least_all tail_len) (src.files r ref).0 p) ∷ [];
          end = ends none;
        })
  unfolding run_logs logs_of determine_job_name asks websocket_client
  run_logs-once n args r ref p tail_len routed found controllable logs no_follow no_tail lowers
        reads_it =
      let least = at_least_all tail_len in
      let (answer, dials, prints) =
        dial_logs-once s src r n ref p found controllable logs (asks n least) u.query least
          (t.itoa least) routed.1.1.1.1.0 (asked n least) no_follow no_tail lowers reads_it in
      ap (logs_from (connect s d) api_address dialling r) (job_logs-asks n least)
      ∙ printed r (asks n least) answer (lines_once least (src.files r ref).0 p) dials prints
    where
      asked : (n : String) (x : ℤ) → (asks n x).url.query ≡ u.query ++ ("taillen", t.itoa x) ∷ []
      asked n x = ap (λ q. q ++ ("taillen", t.itoa x) ∷ []) (query-websocket_client u)
