-- ===== src/Proc/Runner/Api/Early.antt =====
-- Requests that come before the runner or the job runs. `up` starts the API before it waits for
-- the probes and before it calls Runner.Run.
use mittnite.Prelude.{ℕ, ◌≡◌, refl, ap, Bool, true, false, Option, none, some, arith, err}
use mittnite.Proc.Phase.{JobPhase, unknown, set_phase}
use mittnite.Proc.Phase.Laws.{reason-set_phase}
use mittnite.Proc.BaseJob.{put_phase}
use mittnite.Proc.CommonJob.{Control, is_nil_func, is_running, stop_job}
use mittnite.Proc.Runner.{
  Job, common, common_of, Runner, start_job, is_final, job_phase, put_job_phase, add_to_group, lazy,
}
use mittnite.Proc.Runner.Api.{
  System, Answer, reply_ok, start, reply_ok, after_control, api_v1_start_job, api_v1_stop_job,
}

-- Whether a request ended in a panic.
abbrev pub Panics : Answer → Type 0
Panics a = (r : Runner) × (a ≡ err r)

add_to_none :
    (r : Runner) (ref : ℕ) (g : Option ℕ) → g ≡ none → Panics (reply_ok (add_to_group r ref g))
unfolding reply_ok add_to_group
add_to_none r ref (some n) e = ground arith
add_to_none r ref none e = (r, refl)

nil_call :
    (r : Runner) (ref : ℕ) (c : Control)
    → c.panics ≡ true
    → Panics (reply_ok (after_control r ref c))
unfolding reply_ok after_control
nil_call r ref c e = rw e (_, refl)

nil_interrupt : (o : Option Bool) → o ≡ none → is_nil_func o ≡ true
nil_interrupt o e = ap is_nil_func e

final_by_reason : (p : JobPhase) → p.reason ≡ unknown → is_final p ≡ false
final_by_reason p e = ap (λ x. is_final (record { reason = x; last_change = p.last_change })) e

not_final : (now : ℕ) (j : Job) → is_final (job_phase (put_job_phase now unknown j)) ≡ false
unfolding put_phase
not_final now (common j) =
    final_by_reason (set_phase now unknown j.phase) (reason-set_phase now unknown j.phase)
not_final now (lazy j) =
    final_by_reason (set_phase now unknown j.phase) (reason-set_phase now unknown j.phase)

start_without_group :
    (s : System) (r : Runner) (ref : ℕ) → r.wait_group ≡ none → Panics (reply_ok (start s r ref))
unfolding start start_job
start_without_group s r ref group =
    rw (not_final s.maker.now (r.heap ref)) (add_to_none _ ref r.wait_group group)

-- A start request for a job that does not run panics while the wait group is nil, that is, until
-- Runner.Run has begun.
pub start_before_run :
    (s : System) (r : Runner) (ref : ℕ)
    → r.wait_group ≡ none
    → is_running s.alive (common_of (r.heap ref)) ≡ false
    → Panics (api_v1_start_job s r ref)
unfolding api_v1_start_job
start_before_run s r ref group idle = rw idle (start_without_group s r ref group)

-- A stop request panics for a job whose `Run` has not come to its first round: the function that
-- it calls to interrupt the job is still nil.
pub stop_before_run :
    (s : System) (r : Runner) (ref : ℕ)
    → (common_of (r.heap ref)).interrupt ≡ none
    → Panics (api_v1_stop_job s r ref)
unfolding api_v1_stop_job stop_job
stop_before_run s r ref nil_func =
    nil_call r ref (stop_job (common_of (r.heap ref)))
      (nil_interrupt (common_of (r.heap ref)).interrupt nil_func)
