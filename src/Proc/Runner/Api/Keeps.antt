-- ===== src/Proc/Runner/Api/Keeps.antt =====
-- No request breaks the runner's list of jobs.
use mittnite.Prelude.{
  ℕ, ◌<◌, ◌≡◌, refl, String, Option, none, some, List, [], ◌∷◌, Result, ok, err, ◌>>=◌, Bool-cases,
  inl, inr, arith, All, ◌==◌, string_eq,
}
use mittnite.Config.{JobConfig}
use mittnite.Proc.Phase.{unknown}
use mittnite.Proc.BaseJob.{get_name, apply_request, is_controllable}
use mittnite.Proc.CommonJob.{CommonJob, Control, restart_job, stop_job, is_running, new_common_job}
use mittnite.Proc.Runner.{
  Job, common, lazy, common_of, with_common, job_name, Runner, name_at, Maker, find_by_name,
  find_common, find_common_job_by_name, find_common_ignition_job_by_name, make_configured,
  find_config, add_job_if_not_exists, allocate,
}
use mittnite.Proc.Runner.Names.{IsValid}
use mittnite.Proc.Runner.Api.Found.{found_at}
use mittnite.Proc.Runner.Names.Keeps.{
  left_by, SameJobs-IsValid, start_job-SameJobs, name_at-update, add_job_if_not_exists-IsValid,
}
use mittnite.Proc.Runner.Names.Init.{allocate-IsValid}
use mittnite.Proc.Runner.Api.{
  System, Answer, reply_ok, after_control, start, api_v1_start_job, api_v1_restart_job,
  api_v1_stop_job, api_v1_job_status, serve, serve_configured, serve_found, api_v1_job_middleware,
}

-- The runner after a request, also where it ends in a panic.
abbrev pub runner_after : Answer → Runner
runner_after (ok (r, reply)) = r
runner_after (err r) = r

abbrev pub KeepsValid : (Runner → ℕ → Answer) → Type 0
KeepsValid handler = (r : Runner) (ref : ℕ) → IsValid r → IsValid (runner_after (handler r ref))

reply_ok-IsValid :
    (x : Result Runner Runner) → IsValid (left_by x) → IsValid (runner_after (reply_ok x))
unfolding reply_ok
reply_ok-IsValid (ok r) v = v
reply_ok-IsValid (err r) v = v

start-IsValid : (s : System) (r : Runner) (ref : ℕ) → IsValid r → IsValid (left_by (start s r ref))
unfolding start
start-IsValid s r ref v = SameJobs-IsValid (start_job-SameJobs s.maker.now s.files r ref unknown) v

after_control-IsValid :
    (r : Runner) (ref : ℕ) (c : Control)
    → job_name (with_common c.job (r.heap ref)) ≡ name_at r ref
    → IsValid r
    → IsValid (left_by (after_control r ref c))
unfolding after_control
after_control-IsValid r ref c named v = elim (Bool-cases c.panics) [
  | inl panics ↦ rw panics (
      SameJobs-IsValid
        (record { jobs = refl; fresh = refl; names = λ i. name_at-update r ref _ i named }) v)
  | inr fine ↦ rw fine (
      SameJobs-IsValid
        (record { jobs = refl; fresh = refl; names = λ i. name_at-update r ref _ i named }) v)
]

name-restart_job : (k : Job) → job_name (with_common (restart_job (common_of k)).job k) ≡ job_name k
unfolding restart_job apply_request get_name
name-restart_job (common j) = refl
name-restart_job (lazy j) = refl

name-stop_job : (k : Job) → job_name (with_common (stop_job (common_of k)).job k) ≡ job_name k
unfolding stop_job apply_request get_name
name-stop_job (common j) = refl
name-stop_job (lazy j) = refl

pub start_handler-KeepsValid : (s : System) → KeepsValid (api_v1_start_job s)
unfolding api_v1_start_job
start_handler-KeepsValid s r ref v =
    elim (Bool-cases (is_running s.alive (common_of (r.heap ref)))) [
      | inl runs ↦ rw runs (reply_ok-IsValid (ok r) v)
      | inr idle ↦ rw idle (reply_ok-IsValid (start s r ref) (start-IsValid s r ref v))
    ]

pub restart_handler-KeepsValid : (s : System) → KeepsValid (api_v1_restart_job s)
unfolding api_v1_restart_job
restart_handler-KeepsValid s r ref v =
    elim (Bool-cases (is_running s.alive (common_of (r.heap ref)))) [
      | inl runs ↦ rw runs (
          reply_ok-IsValid (after_control r ref (restart_job (common_of (r.heap ref)))) (
            after_control-IsValid r ref (restart_job (common_of (r.heap ref)))
              (name-restart_job (r.heap ref)) v))
      | inr idle ↦ rw idle (reply_ok-IsValid (start s r ref) (start-IsValid s r ref v))
    ]

pub stop_handler-KeepsValid : (s : System) → KeepsValid (api_v1_stop_job s)
unfolding api_v1_stop_job
stop_handler-KeepsValid s r ref v =
    reply_ok-IsValid (after_control r ref (stop_job (common_of (r.heap ref)))) (
      after_control-IsValid r ref (stop_job (common_of (r.heap ref))) (name-stop_job (r.heap ref))
        v)

pub status_handler-KeepsValid : (s : System) → KeepsValid (api_v1_job_status s)
unfolding api_v1_job_status
status_handler-KeepsValid s r ref v = v

found_below :
    (r : Runner) (n : String) (js : List ℕ) (ref : ℕ)
    → All (λ j. j < r.fresh) js
    → find_common r (find_by_name (name_at r) n js) ≡ some ref
    → ref < r.fresh
unfolding find_common find_by_name
found_below r n [] ref h e = ground arith
found_below r n (j ∷ js) ref h e = elim (Bool-cases (name_at r j == n)) [
  | inl hit ↦ rw (found_at r j ref (rw hit at e)) h.0
  | inr miss ↦ found_below r n js ref h.1 (rw miss at e)
]

module _ (handler : Runner → ℕ → Answer) (keeps : KeepsValid handler) where
  serve-IsValid :
      (r : Runner) (ref : ℕ) (n : String)
      → ref < r.fresh
      → IsValid r
      → IsValid (runner_after (serve handler r ref n))
  unfolding serve
  serve-IsValid r ref n lt v = elim (Bool-cases (is_controllable (common_of (r.heap ref)).base)) [
    | inl yes_it_is ↦
        rw yes_it_is
          (keeps (add_job_if_not_exists r ref) ref (add_job_if_not_exists-IsValid r ref lt v))
    | inr no_it_is_not ↦ rw no_it_is_not v
  ]

  configured-IsValid :
      (r : Runner) (n : String) (now : ℕ) (x : Result String CommonJob)
      → IsValid r
      → IsValid
          (runner_after (serve_configured handler r n (x >>= λ j. ok (allocate r (common j)))))
  unfolding serve_configured allocate
  configured-IsValid r n now (err e) v = v
  configured-IsValid r n now (ok j) v =
      serve-IsValid _ r.fresh n (omega arith) (unfold allocate in allocate-IsValid r (common j) v)

  not_found-IsValid :
      (m : Maker) (r : Runner) (n : String) (o : Option JobConfig)
      → IsValid r
      → IsValid (runner_after (serve_configured handler r n (make_configured m r n o)))
  unfolding make_configured serve_configured
  not_found-IsValid m r n none v = v
  not_found-IsValid m r n (some c) v =
      configured-IsValid r n m.now (new_common_job m.now m.prepare c) v

  found-IsValid :
      (s : System) (r : Runner) (n : String) (o : Option ℕ)
      → find_common_job_by_name r n ≡ o
      → IsValid r
      → IsValid (runner_after (serve_found s handler r n o))
  unfolding serve_found
  found-IsValid s r n none e v =
      unfold find_common_ignition_job_by_name in
      not_found-IsValid s.maker r n (find_config n r.job_configs) v
  found-IsValid s r n (some ref) e v =
      serve-IsValid r ref n
        (found_below r n r.jobs ref v.allocated (unfold find_common_job_by_name in e)) v

  -- Whatever the name of the job: a handler that keeps the runner valid does so behind the
  -- middleware too, also where the middleware makes the job from the configuration and adds it.
  pub middleware-IsValid :
      (s : System) (r : Runner) (n : Option String)
      → IsValid r
      → IsValid (runner_after (api_v1_job_middleware s handler r n))
  unfolding api_v1_job_middleware
  middleware-IsValid s r none v = v
  middleware-IsValid s r (some n) v = found-IsValid s r n (find_common_job_by_name r n) refl v
