-- ===== src/Proc/Runner/Api/Guard.antt =====
-- What the middleware promises to the handlers behind it.
use mittnite.Prelude.{
  ℕ, ◌≡◌, refl, String, true, Option, none, some, Bool-cases, inl, inr, Result, ok, err,
}
use mittnite.Proc.BaseJob.{is_controllable}
use mittnite.Proc.Runner.{
  common_of, Runner, name_at, has_name, add_job_if_not_exists, find_common_job_by_name,
  find_common_ignition_job_by_name,
}
use mittnite.Proc.Runner.Api.{
  System, Answer, serve, serve_configured, serve_found, api_v1_job_middleware,
}
use mittnite.Proc.Runner.Api.Placed.{
  IsPlaced, IsPlacedIfNamed, add-IsPlaced, found-IsPlaced, configured-IsPlaced,
}

-- The job may be controlled, and it is in the runner's list, or a lazy job of its name is.
pub record IsAdmitted (r : Runner) (ref : ℕ) : Type 0 where
  pub controllable : is_controllable (common_of (r.heap ref)).base ≡ true
  pub placed : IsPlaced r ref

add-IsAdmitted :
    (r : Runner) (ref : ℕ)
    → is_controllable (common_of (r.heap ref)).base ≡ true
    → IsPlacedIfNamed r ref
    → IsAdmitted (add_job_if_not_exists r ref) ref
unfolding add_job_if_not_exists
add-IsAdmitted r ref c h = record {
  controllable = elim (Bool-cases (has_name (name_at r) (name_at r ref) r.jobs)) [
    | inl there ↦ rw there c
    | inr new ↦ rw new c
  ];
  placed = add-IsPlaced r ref h;
}

module _ (f g : Runner → ℕ → Answer)
    (agree : (r : Runner) (ref : ℕ) → IsAdmitted r ref → f r ref ≡ g r ref) where
  serve-agree :
      (r : Runner) (ref : ℕ) (n : String)
      → IsPlacedIfNamed r ref
      → serve f r ref n ≡ serve g r ref n
  unfolding serve
  serve-agree r ref n h = elim (Bool-cases (is_controllable (common_of (r.heap ref)).base)) [
    | inl yes_it_is ↦
        rw yes_it_is (agree (add_job_if_not_exists r ref) ref (add-IsAdmitted r ref yes_it_is h))
    | inr no_it_is_not ↦ rw no_it_is_not refl
  ]

  serve_configured-agree :
      (s : System) (r : Runner) (n : String) (x : Result String (ℕ × Runner))
      → find_common_job_by_name r n ≡ none
      → find_common_ignition_job_by_name s.maker r n ≡ x
      → serve_configured f r n x ≡ serve_configured g r n x
  unfolding serve_configured
  serve_configured-agree s r n (err e) nowhere made = refl
  serve_configured-agree s r n (ok (ref, r')) nowhere made =
      serve-agree r' ref n (configured-IsPlaced s.maker r r' n ref nowhere made)

  serve_found-agree :
      (s : System) (r : Runner) (n : String) (o : Option ℕ)
      → find_common_job_by_name r n ≡ o
      → serve_found s f r n o ≡ serve_found s g r n o
  unfolding serve_found
  serve_found-agree s r n (some ref) found = serve-agree r ref n (found-IsPlaced r n ref found)
  serve_found-agree s r n none nowhere =
      serve_configured-agree s r n (find_common_ignition_job_by_name s.maker r n) nowhere refl

  -- Two handlers that agree on every job that may be controlled and is in the runner's list, or
  -- whose name a lazy job of the list has, give the same API: behind the middleware no request
  -- reaches any other job, whatever its name.
  pub middleware_guards :
      (s : System) (r : Runner) (n : Option String)
      → api_v1_job_middleware s f r n ≡ api_v1_job_middleware s g r n
  unfolding api_v1_job_middleware
  middleware_guards s r none = refl
  middleware_guards s r (some n) = serve_found-agree s r n (find_common_job_by_name r n) refl
