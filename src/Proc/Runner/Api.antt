-- ===== src/Proc/Runner/Api.antt =====
-- pkg/proc/runner_api_v1.go: the HTTP API that controls jobs. A handler runs on one request; the
-- answer is its status code and body, and a panic is `err`, which the HTTP server recovers from.
pub mod Listing
pub mod Placed
pub mod Guard
pub mod Early
pub mod Keeps
pub mod Routed
pub mod Http
pub mod Logs
pub mod Printed
pub mod Found
use mittnite.Prelude.{
  ℕ, String, ◌<>◌, Bool, true, false, ◌&&◌, not, Option, none, some, List, [], ◌∷◌, ◌++◌, Result,
  ok, err, ◌>>=◌, if◌then◌else◌,
}
use mittnite.Proc.Phase.{unknown}
use mittnite.Proc.BaseJob.{is_controllable, get_name}
use mittnite.Proc.CommonJob.{
  CommonJob, Control, is_running, restart_job, stop_job, CommonJobStatus, status,
}
use mittnite.Proc.CommonJob.Watching.{FileSystem}
use mittnite.Proc.Runner.{
  Job, common, lazy, common_of, with_common, Runner, update, Maker, start_job,
  find_common_job_by_name, find_common_ignition_job_by_name, add_job_if_not_exists, quoted,
}

pub data Body : Type 0 where
  empty : Body
  text : String → Body
  job_status : CommonJobStatus → Body
  job_names : List String → Body
  log_stream : ℕ → Body

pub record Reply : Type 0 where
  pub code : ℕ
  pub body : Body

-- The machine as a handler sees it.
pub record System : Type 0 where
  pub maker : Maker
  pub files : FileSystem
  pub alive : ℕ → Bool

abbrev pub Answer : Type 0
Answer = Result Runner (Runner × Reply)

reply_ok : Result Runner Runner → Answer
reply_ok (err r) = err r
reply_ok (ok r) = ok (r, record { code = 200; body = empty })

-- What Restart and Stop do to the stored job.
after_control : Runner → ℕ → Control → Result Runner Runner
after_control r ref c =
    let r' = record r {
      heap = update r.heap ref (with_common c.job (r.heap ref));
      effects = r.effects ++ c.effects;
    } in
    if c.panics then err r' else ok r'

start : System → Runner → ℕ → Result Runner Runner
start s r ref = start_job s.maker.now s.files r ref unknown

pub api_v1_start_job : System → Runner → ℕ → Answer
unfolding reply_ok start
api_v1_start_job s r ref =
    reply_ok (if is_running s.alive (common_of (r.heap ref)) then ok r else start s r ref)

pub api_v1_restart_job : System → Runner → ℕ → Answer
unfolding reply_ok start after_control
api_v1_restart_job s r ref = reply_ok (
    if is_running s.alive (common_of (r.heap ref))
    then after_control r ref (restart_job (common_of (r.heap ref)))
    else start s r ref)

pub api_v1_stop_job : System → Runner → ℕ → Answer
unfolding reply_ok after_control
api_v1_stop_job s r ref = reply_ok (after_control r ref (stop_job (common_of (r.heap ref))))

pub api_v1_job_status : System → Runner → ℕ → Answer
api_v1_job_status s r ref =
    ok (r, record { code = 200; body = job_status (status s.alive (common_of (r.heap ref))) })

-- A lazy job is no *CommonJob.
unfoldable pub listed : Job → List String
listed (lazy j) = []
listed (common j) = if is_controllable j.base then get_name j.base ∷ [] else []

unfoldable pub list_jobs : Runner → List ℕ → List String
unfolding listed
list_jobs r [] = []
list_jobs r (j ∷ js) = listed (r.heap j) ++ list_jobs r js

unfoldable pub api_v1_job_list : Runner → List String
unfolding list_jobs
api_v1_job_list r = list_jobs r r.jobs

-- The second half of apiV1JobMiddleware: the job is known.
serve : (Runner → ℕ → Answer) → Runner → ℕ → String → Answer
serve next r ref n =
    if is_controllable (common_of (r.heap ref)).base
    then next (add_job_if_not_exists r ref) ref
    else ok (
      r,
      record {
        code = 404;
        body = text ("job " <> quoted n <> " not found or is not controllable");
      },
    )

serve_configured : (Runner → ℕ → Answer) → Runner → String → Result String (ℕ × Runner) → Answer
unfolding serve
serve_configured next r n (err e) = ok (r, record { code = 400; body = text e })
serve_configured next r n (ok (ref, r')) = serve next r' ref n

serve_found : System → (Runner → ℕ → Answer) → Runner → String → Option ℕ → Answer
unfolding serve serve_configured
serve_found s next r n (some ref) = serve next r ref n
serve_found s next r n none =
    serve_configured next r n (find_common_ignition_job_by_name s.maker r n)

-- apiV1JobMiddleware; the name is the path variable of the router.
pub api_v1_job_middleware : System → (Runner → ℕ → Answer) → Runner → Option String → Answer
unfolding serve_found
api_v1_job_middleware s next r none =
    ok (r, record { code = 400; body = text "job parameter is missing" })
api_v1_job_middleware s next r (some n) = serve_found s next r n (find_common_job_by_name r n)
