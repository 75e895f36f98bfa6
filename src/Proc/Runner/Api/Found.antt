-- ===== src/Proc/Runner/Api/Found.antt =====
-- A request for a job that the runner has.
use mittnite.Prelude.{
  ℕ, ◌≡◌, refl, String, true, Option, none, some, List, [], ◌∷◌, ◌++◌, ok, Bool, false, nat_eq, ap,
  ◌∙◌, arith, Bool-cases, inl, inr, ◌==◌, string_eq, beq_self,
}
use mittnite.Proc.BaseJob.{is_controllable, kill_group, sigterm, signal_all, apply_request}
use mittnite.Proc.CommonJob.{CommonJob, status, stop_job}
use mittnite.Proc.Runner.{
  Job, common, lazy, common_of, with_common, update, Runner, name_at, has_name, find_by_name,
  find_common, as_common, find_common_job_by_name, add_job_if_not_exists,
}
use mittnite.Proc.Runner.Api.{
  System, log_stream, job_status, empty, reply_ok, after_control, api_v1_stop_job, serve,
  serve_found, api_v1_job_status, api_v1_job_middleware,
}
use mittnite.Proc.Runner.Api.Logs.{serve_logs}

pub found_at : (r : Runner) (j ref : ℕ) → as_common r j ≡ some ref → ref ≡ j
unfolding as_common
found_at r j ref e = by_kind (r.heap j) e
  where
    by_kind : (k : Job) → elim k [ common _ ↦ some j | lazy _ ↦ none ] ≡ some ref → ref ≡ j
    by_kind (common c) e = ground arith
    by_kind (lazy l) e = ground arith

has_name_of_found :
    (name : ℕ → String) (n : String) (js : List ℕ) (j : ℕ)
    → find_by_name name n js ≡ some j
    → has_name name (name j) js ≡ true
unfolding find_by_name has_name
has_name_of_found name n [] j e = ground arith
has_name_of_found name n (i ∷ js) j e = elim (Bool-cases (name i == n)) [
  | inl hit ↦ let same : i ≡ j = ground arith in rw (same, beq_self (name j)) refl
  | inr miss ↦ elim (Bool-cases (name i == name j)) [
    | inl same ↦ rw same refl
    | inr other ↦ rw other (has_name_of_found name n js j (rw miss at e))
  ]
]

-- Such a job is in the list already.
pub add_found :
    (r : Runner) (n : String) (ref : ℕ)
    → find_common_job_by_name r n ≡ some ref
    → add_job_if_not_exists r ref ≡ r
unfolding find_common_job_by_name add_job_if_not_exists find_common
add_found r n ref e = go (find_by_name (name_at r) n r.jobs) refl e
  where
    go :
        (o : Option ℕ)
        → find_by_name (name_at r) n r.jobs ≡ o
        → find_common r o ≡ some ref
        → add_job_if_not_exists r ref ≡ r
    go none e f = ground arith
    go (some j) e f = rw (found_at r j ref f, has_name_of_found (name_at r) n r.jobs j e) refl

pub status-found :
    (s : System) (r : Runner) (n : String) (ref : ℕ)
    → find_common_job_by_name r n ≡ some ref
    → is_controllable (common_of (r.heap ref)).base ≡ true
    → api_v1_job_middleware s (api_v1_job_status s) r (some n)
      ≡ ok (r, record { code = 200; body = job_status (status s.alive (common_of (r.heap ref))) })
unfolding api_v1_job_middleware serve_found serve api_v1_job_status
status-found s r n ref e c = rw (e, c, add_found r n ref e) refl

pub logs-found :
    (s : System) (r : Runner) (n : String) (ref : ℕ)
    → find_common_job_by_name r n ≡ some ref
    → is_controllable (common_of (r.heap ref)).base ≡ true
    → api_v1_job_middleware s (serve_logs true) r (some n)
      ≡ ok (r, record { code = 101; body = log_stream ref })
unfolding api_v1_job_middleware serve_found serve serve_logs
logs-found s r n ref e c = rw (e, c, add_found r n ref e) refl

-- What stopping a started job leaves: the job is marked to be stopped and its context is cancelled,
-- its other flags are as they were, and the last effect is SIGTERM to the group of its process.
pub record IsStopped (r : Runner) (ref pid : ℕ) (s : Runner) : Type 0 where
  pub stop : (common_of (s.heap ref)).stop ≡ true
  pub cancelled : (common_of (s.heap ref)).interrupt ≡ some true
  pub restart : (common_of (s.heap ref)).restart ≡ (common_of (r.heap ref)).restart
  pub effects : s.effects ≡ r.effects ++ kill_group pid sigterm ∷ []
  pub jobs : s.jobs ≡ r.jobs

common_of-with_common : (c : CommonJob) (j : Job) → common_of (with_common c j) ≡ c
common_of-with_common c (common j) = refl
common_of-with_common c (lazy j) = refl

interrupt-stop_job :
    (j : CommonJob) (cancelled : Bool)
    → j.interrupt ≡ some cancelled
    → ((stop_job j).job.interrupt ≡ some true) × ((stop_job j).panics ≡ false)
unfolding stop_job apply_request
interrupt-stop_job j cancelled e = rw e (refl, refl)

effects-stop_job :
    (j : CommonJob) (pid : ℕ)
    → j.cmd ≡ some pid
    → (stop_job j).effects ≡ kill_group pid sigterm ∷ []
unfolding stop_job signal_all
effects-stop_job j pid e = rw e refl

module _ (r : Runner) (ref pid : ℕ) (cancelled : Bool)
    (started : (common_of (r.heap ref)).interrupt ≡ some cancelled)
    (runs : (common_of (r.heap ref)).cmd ≡ some pid) where
  -- The runner after the handler.
  stopped_runner : Runner
  stopped_runner =
      let c = stop_job (common_of (r.heap ref)) in
      record r {
        heap = update r.heap ref (with_common c.job (r.heap ref));
        effects = r.effects ++ c.effects;
      }

  stored : common_of (stopped_runner.heap ref) ≡ (stop_job (common_of (r.heap ref))).job
  unfolding stopped_runner
  stored =
      rw (beq_self ref) (common_of-with_common (stop_job (common_of (r.heap ref))).job (r.heap ref))

  stopped_runner-IsStopped : IsStopped r ref pid stopped_runner
  unfolding stop_job apply_request stopped_runner
  stopped_runner-IsStopped = record {
    stop = ap (λ (j : CommonJob). j.stop) stored;
    cancelled =
        ap (λ (j : CommonJob). j.interrupt) stored
        ∙ (interrupt-stop_job (common_of (r.heap ref)) cancelled started).0;
    restart = ap (λ (j : CommonJob). j.restart) stored;
    effects = ap (λ es. r.effects ++ es) (effects-stop_job (common_of (r.heap ref)) pid runs);
    jobs = refl;
  }

  -- A stop request for a started job of the list that may be controlled.
  pub stop-found :
      (s : System) (n : String)
      → find_common_job_by_name r n ≡ some ref
      → is_controllable (common_of (r.heap ref)).base ≡ true
      → (s' : Runner) × (api_v1_job_middleware s (api_v1_stop_job s) r (some n)
          ≡ ok (s', record { code = 200; body = empty }))
        × IsStopped r ref pid s'
  unfolding api_v1_job_middleware serve_found serve api_v1_stop_job reply_ok after_control
      stopped_runner
  stop-found s n e c = (
    stopped_runner,
    rw
        (
          e,
          c,
          add_found r n ref e,
          (interrupt-stop_job (common_of (r.heap ref)) cancelled started).1,
        )
        refl,
    stopped_runner-IsStopped,
  )
