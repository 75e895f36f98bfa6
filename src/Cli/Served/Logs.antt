-- ===== src/Cli/Served/Logs.antt =====
-- The log stream of the server, as the client prints it.
use mittnite.Prelude.{
  ℤ, Option, some, ap, ◌∙◌, lookup, Bool-cases, inl, inr, ◌==◌, string_eq, arith, ℕ, String, ◌≡◌,
  ◌≢◌, refl, Bool, true, false, none, List, [], ◌∷◌, ◌++◌, map,
}
use mittnite.Proc.BaseJob.Streams.{StdFile, Pass, Turn, reads}
use mittnite.Proc.BaseJob.Streams.Once.{lines_once}
use mittnite.Proc.CommonJob.{CommonJob, is_running}
use mittnite.Proc.Runner.Api.Logs.{
  Frame, text, closes_normally, Form, follows, number_or_all, api_v1_job_logs, LogSource, form_of,
  form_value,
}
use mittnite.Proc.Runner.Api.Printed.{api_v1_job_logs-once}
use mittnite.Cli.Streaming.{Received, message, read_error, returns, print_loop, print_stream}
use mittnite.Proc.BaseJob.{is_controllable}
use mittnite.Proc.Runner.{Runner, common_of, find_common_job_by_name}
use mittnite.Proc.Runner.Api.Found.{logs-found}
use mittnite.Proc.Runner.Api.Http.{
  Server, shows_logs, routes, Upgraded, frames, refused, streaming, streamed, upgraded,
  serve_handshake,
}
use mittnite.Cli.Client.{HttpRequest}

-- A frame as the client's library reports it: a close frame is an error of reading.
abbrev pub as_received : Frame → Received
as_received (text m) = message m
as_received (closes_normally reason) = read_error reason true

print_loop-lines :
    (ls : List String)
    → print_loop (map as_received (map text ls ++ closes_normally "EOF" ∷ [])) ≡ (ls, returns none)
unfolding print_loop
print_loop-lines [] = refl
print_loop-lines (l ∷ ls) = rw (print_loop-lines ls) refl

-- Dial, with what its library reads from the connection.
received_frames : Runner × Upgraded → Runner × Option String × List Received
received_frames (r, frames fs) = (r, none, map as_received fs)
received_frames (r, refused answer) = (r, some "websocket: bad handshake", [])

pub dial_logs : Server → LogSource → HttpRequest → Runner → Runner × Option String × List Received
unfolding received_frames
dial_logs s src q r = received_frames (serve_handshake s src q.url.path q.url.query r)

-- The stream of a running job with a stdout file, for a request that does not ask to follow.
print_stream-once :
    (alive : ℕ → Bool) (form : Form) (job : CommonJob) (out_file err_file : StdFile) (p : Pass)
    (later : List Turn)
    → is_running alive job ≡ true
    → follows form ≡ false
    → job.base.config.stdout ≢ ""
    → out_file.open_fails ≡ none
    → out_file.turns ≡ reads p ∷ later
    → p.failure ≡ none
    → print_stream none (map as_received (api_v1_job_logs alive form job out_file err_file))
      ≡ (lines_once (number_or_all (form.atoi form.tail_len)) out_file p, returns none)
unfolding print_stream
print_stream-once alive form job out_file err_file p later runs once named opens turns fine =
    rw
      (api_v1_job_logs-once alive form job out_file err_file p later runs once named opens turns
        fine)
      (print_loop-lines (lines_once (number_or_all (form.atoi form.tail_len)) out_file p))

lookup-concat :
    {A : Type 0} (key : String) (xs ys : List (String × A))
    → lookup key xs ≡ none
    → lookup key (xs ++ ys) ≡ lookup key ys
unfolding lookup
lookup-concat key [] ys e = refl
lookup-concat key ((j, x) ∷ xs) ys e = elim (Bool-cases (j == key)) [
  | inl hit ↦ ground (arith, hit)
  | inr miss ↦ rw miss (lookup-concat key xs ys (rw miss at e))
]

-- The log files of a running job of the runner, at the first turn of reading stdout.
pub record HasLogs (s : Server) (src : LogSource) (r : Runner) (ref : ℕ) (p : Pass) : Type 0 where
  pub runs : is_running s.system.alive (common_of (r.heap ref)) ≡ true
  pub named : (common_of (r.heap ref)).base.config.stdout ≢ ""
  pub opens : (src.files r ref).0.open_fails ≡ none
  pub later : List Turn
  pub turns : (src.files r ref).0.turns ≡ reads p ∷ later
  pub fine : p.failure ≡ none

module _ (s : Server) (src : LogSource) (r : Runner) (n : String) (ref : ℕ) (p : Pass)
    (found : find_common_job_by_name r n ≡ some ref)
    (controllable : is_controllable (common_of (r.heap ref)).base ≡ true)
    (logs : HasLogs s src r ref p) where
  handshake-found :
      (path : String) (query : List (String × String))
      → s.dispatch routes "GET" path ≡ some (shows_logs, some n)
      → serve_handshake s src path query r ≡ (
        r,
        frames (
            api_v1_job_logs s.system.alive
              (form_of src query)
              (common_of (r.heap ref))
              (src.files r ref).0
              (src.files r ref).1),
      )
  unfolding serve_handshake upgraded streamed streaming
  handshake-found path query routed =
      ap (λ o. upgraded s src query o r) routed
      ∙ ap (streamed s src query) (logs-found s.system r n ref found controllable)

  -- What the client's stream prints for a query that asks for a tail and not to follow.
  pub dial_logs-once :
      (q : HttpRequest) (before : List (String × String)) (tail_len : ℤ) (digits : String)
      → s.dispatch routes "GET" q.url.path ≡ some (shows_logs, some n)
      → q.url.query ≡ before ++ ("taillen", digits) ∷ []
      → lookup "follow" before ≡ none
      → lookup "taillen" before ≡ none
      → src.lower "" ≡ ""
      → src.atoi digits ≡ some tail_len
      → (answer : List Received) × (dial_logs s src q r ≡ (r, none, answer))
        × (print_stream none answer ≡ (lines_once tail_len (src.files r ref).0 p, returns none))
  unfolding dial_logs received_frames form_of form_value follows number_or_all lookup
  dial_logs-once q before tail_len digits routed query no_follow no_tail lowers reads_it = (
    map as_received (
        api_v1_job_logs s.system.alive (form_of src q.url.query) (common_of (r.heap ref))
          (src.files r ref).0 (src.files r ref).1),
    ap received_frames (handshake-found q.url.path q.url.query routed),
    print_stream-once s.system.alive (form_of src q.url.query) (common_of (r.heap ref))
          (src.files r ref).0 (src.files r ref).1 p logs.later logs.runs once logs.named logs.opens
          logs.turns logs.fine
        ∙ ap (λ x. (lines_once (number_or_all x) (src.files r ref).0 p, returns none)) asked,
  )
    where
      values :
          (key : String)
          → lookup key before ≡ none
          → lookup key q.url.query ≡ lookup key (("taillen", digits) ∷ [])
      values key e = ap (lookup key) query ∙ lookup-concat key before (("taillen", digits) ∷ []) e

      value_of : Option String → String
      value_of o = elim o [ none ↦ "" | some given ↦ given ]

      once : follows (form_of src q.url.query) ≡ false
      once =
          ap (λ o. src.lower (value_of o) == "true") (values "follow" no_follow)
          ∙ ap (λ x. x == "true") lowers

      asked : src.atoi (form_value "taillen" q.url.query) ≡ some tail_len
      asked = ap (λ o. src.atoi (value_of o)) (values "taillen" no_tail) ∙ reads_it
