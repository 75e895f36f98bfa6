-- ===== src/Ctl/Wait.antt =====
-- waitForCondition and its two conditions in job_actions.go. `sleep` is the pause before each
-- question, and `now` the monotonic clock in nanoseconds.
pub mod Ends
use mittnite.Prelude.{
  ℕ, zero, suc, ◌-◌, String, Bool, true, false, not, Option, none, some, Result, ok, err, ltb,
}
use mittnite.Proc.CommonJob.{CommonJobStatus}
use mittnite.Cli.Responses.{ApiError, TypedApiResponse}
use mittnite.Cli.Client.{Net, job_status}
use mittnite.Ctl.{CtlError, no_status, timed_out}

-- A condition asks the server.
abbrev pub Condition : Type 0 → Type 0
Condition W = W → W × Result CtlError Bool

module _ {W : Type 0} (net : Net W) (api_address : String) where
  running_in : String → Option ApiError → CommonJobStatus → Result CtlError Bool
  running_in job (some e) s = err (no_status job e)
  running_in job none s = ok s.running

  stopped_in : String → Option ApiError → CommonJobStatus → Result CtlError Bool
  stopped_in job (some e) s = err (no_status job e)
  stopped_in job none s = ok (not s.running)

  pub test_running : String → Condition W
  unfolding running_in
  test_running job w =
      let (w', status) = job_status net api_address job w in
      (w', running_in job status.error status.body)

  pub test_stopped : String → Condition W
  unfolding stopped_in
  test_stopped job w =
      let (w', status) = job_status net api_address job w in
      (w', stopped_in job status.error status.body)

module _ {W : Type 0} (sleep : W → W) (now : W → ℕ) where
  after_test : String → (W → Option (W × Option CtlError)) → W → Bool → Option (W × Option CtlError)
  after_test job again w true = some (w, some (timed_out job))
  after_test job again w false = again w

  asked :
      String
      → ℕ
      → ℕ
      → (W → Option (W × Option CtlError))
      → W × Result CtlError Bool
      → Option (W × Option CtlError)
  unfolding after_test
  asked job wait_timeout wait_start again (w, err e) = some (w, some e)
  asked job wait_timeout wait_start again (w, ok true) = some (w, none)
  asked job wait_timeout wait_start again (w, ok false) =
      after_test job again w (ltb wait_timeout (now w - wait_start))

  -- The loop, for as many rounds as the number says; `none` when they do not suffice.
  wait_loop : ℕ → String → ℕ → ℕ → Condition W → W → Option (W × Option CtlError)
  unfolding asked
  wait_loop zero job wait_timeout wait_start wait_func w = none
  wait_loop (suc n) job wait_timeout wait_start wait_func w =
      asked job wait_timeout wait_start (wait_loop n job wait_timeout wait_start wait_func)
        (wait_func (sleep w))

  -- waitForCondition
  pub wait_for_condition : ℕ → String → ℕ → Condition W → W → Option (W × Option CtlError)
  unfolding wait_loop
  wait_for_condition n job wait_timeout wait_func w =
      wait_loop n job wait_timeout (now w) wait_func w
