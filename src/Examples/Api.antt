-- ===== src/Examples/Api.antt =====
-- Requests to a runner with one job.
use mittnite.Prelude.{ℕ, ◌≡◌, refl, true, some, ok, err, if◌then◌else◌, All}
use mittnite.Proc.BaseJob.{is_controllable}
use mittnite.Proc.Runner.{Runner, common_of}
use mittnite.Proc.Runner.Api.{
  System, Answer, api_v1_job_middleware, api_v1_job_status, api_v1_job_list,
}
use mittnite.Proc.Runner.Api.Guard.{IsAdmitted, middleware_guards}
use mittnite.Proc.Runner.Api.Listing.{IsServed, job_list-IsServed}
use mittnite.Examples.{one_file}
use mittnite.Examples.Runner.{one_job, one_job-IsValid}

abbrev pub system : System
system = record {
  maker = record { now = 9; prepare = λ path. ok 3; parse_duration = λ text. ok 0 };
  files = one_file;
  alive = λ pid. true;
}

job_list-IsServed_example : All (IsServed one_job) (api_v1_job_list one_job)
job_list-IsServed_example = job_list-IsServed one_job one_job-IsValid

-- A handler that answers for controllable jobs only.
abbrev careful : Runner → ℕ → Answer
careful r ref =
    if is_controllable (common_of (r.heap ref)).base then api_v1_job_status system r ref else err r

careful_agrees :
    (r : Runner) (ref : ℕ) → IsAdmitted r ref → careful r ref ≡ api_v1_job_status system r ref
careful_agrees r ref a = rw a.controllable refl

middleware_guards_example :
    api_v1_job_middleware system careful one_job (some "web")
    ≡ api_v1_job_middleware system (api_v1_job_status system) one_job (some "web")
middleware_guards_example =
    middleware_guards careful (api_v1_job_status system) careful_agrees system one_job (some "web")
