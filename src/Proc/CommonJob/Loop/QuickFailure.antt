-- ===== src/Proc/CommonJob/Loop/QuickFailure.antt =====
-- One round in which the process of a job fails quickly.
use mittnite.Prelude.{
  ℕ, suc, ◌-◌, ◌≤◌, ◌≡◌, refl, sym, ◌∙◌, ap, subst, Bool, true, false, ◌||◌, Option, none, some, [],
  arith, ltb_ℤ, beq_ℤ, pos, negsuc, if◌then◌else◌, Bool-cases, inl, inr,
}
use mittnite.Config.{JobConfig, get_max_attempts}
use mittnite.Proc.Phase.{JobPhaseReason, failed, crash_looping}
use mittnite.Proc.Phase.Laws.{reason-set_phase}
use mittnite.Proc.BackOff.{second}
use mittnite.Proc.BackOff.Laws.{nth_back_off, nth_back_off-bounds}
use mittnite.Proc.WaitStatus.{WaitError}
use mittnite.Proc.BaseJob.{apply_requests, put_phase}
use mittnite.Proc.BaseJob.StartOnce.{
  RunError, Run, exited, marks_started, start_once, exits, fails, will_be_restarted,
  will_be_stopped, stopped_intentionally,
}
use mittnite.Proc.BaseJob.StartOnce.Failures.{is_failure, Failed, start_once-Failed}
use mittnite.Proc.CommonJob.Loop.{
  Round, LoopState, JobError, max_retries, Progress, running, returned, in_phase, give_up,
  try_again, count_attempt, has_attempts, retry, handle_result, after_run, run_round, is_stopping,
}

-- The process ends badly within the shortest wait, and nobody asks for anything.
pub record QuickFailure (r : Round) : Type 0 where
  pub error : WaitError
  pub ended : r.attempt.ending ≡ exited (some error)
  pub alone : r.attempt.meanwhile ≡ []
  pub quick : r.ended_at - r.started_at ≤ second
  pub open_run : r.shutdown ≡ false
  pub undisturbed_sleep : r.sleeping ≡ []
  pub open_sleep : r.shutdown_asleep ≡ false

-- The state between two rounds after `k` quick failures in a row.
pub record Looping (c : JobConfig) (k : ℕ) (s : LoopState) : Type 0 where
  pub config : s.job.config ≡ c
  pub restart : s.job.restart ≡ false
  pub stop : s.job.stop ≡ false
  pub cancelled : s.cancelled ≡ false
  pub attempts : s.attempts ≡ k
  pub back_off : s.back_off ≡ nth_back_off k

handle_result-failure :
    (s : LoopState) (r : Round) (e : Option RunError)
    → is_failure e ≡ true
    → handle_result s r e ≡ retry s r e
unfolding handle_result
handle_result-failure s r none h = cc
handle_result-failure s r (some will_be_restarted) h = cc
handle_result-failure s r (some will_be_stopped) h = cc
handle_result-failure s r (some stopped_intentionally) h = cc
handle_result-failure s r (some (exits e)) h = refl
handle_result-failure s r (some (fails e)) h = refl

-- The same after the attempt is counted.
record Counted (c : JobConfig) (k : ℕ) (s : LoopState) : Type 0 where
  config : s.job.config ≡ c
  restart : s.job.restart ≡ false
  stop : s.job.stop ≡ false
  cancelled : s.cancelled ≡ false
  attempts : s.attempts ≡ suc k
  back_off : s.back_off ≡ nth_back_off k

count_attempt-Counted :
    (c : JobConfig) (k : ℕ) (s : LoopState) (r : Round)
    → Looping c k s
    → QuickFailure r
    → Counted c k (count_attempt s r)
unfolding count_attempt
count_attempt-Counted c k s r l q = ground (arith, nth_back_off-bounds k)

-- Whether the loop goes on after `k` attempts.
abbrev pub attempts_left : JobConfig → ℕ → Bool
attempts_left c k = beq_ℤ (get_max_attempts c) (negsuc 0) || ltb_ℤ (pos k) (get_max_attempts c)

has_attempts-Counted :
    (c : JobConfig) (k : ℕ) (t : LoopState)
    → Counted c k t
    → has_attempts t ≡ attempts_left c (suc k)
unfolding has_attempts
has_attempts-Counted c k t d = simp (d.config, d.attempts)

try_again-Looping :
    (c : JobConfig) (k : ℕ) (t : LoopState) (r : Round)
    → Counted c k t
    → QuickFailure r
    → Looping c (suc k) (try_again t r)
unfolding try_again put_phase
try_again-Looping c k t r d q = record {
  config = d.config;
  restart = simp q.undisturbed_sleep (unfold apply_requests in d.restart);
  stop = simp q.undisturbed_sleep (unfold apply_requests in d.stop);
  cancelled = simp (d.cancelled, q.open_sleep);
  attempts = d.attempts;
  back_off = simp d.back_off (unfold nth_back_off in refl);
}

phase-try_again :
    (t : LoopState) (r : Round) → QuickFailure r → (try_again t r).job.phase.reason ≡ crash_looping
unfolding try_again put_phase
phase-try_again t r q =
    simp q.undisturbed_sleep
      (unfold apply_requests in reason-set_phase r.ended_at crash_looping t.job.phase)

phase-in_phase :
    (now : ℕ) (reason : JobPhaseReason) (s : LoopState)
    → (in_phase now reason s).job.phase.reason ≡ reason
unfolding put_phase
phase-in_phase now reason s = reason-set_phase now reason s.job.phase

abbrev pub final_error : JobConfig → Option RunError → Option JobError
final_error c e = if c.can_fail then none else some (max_retries c.name e)

give_up_lem :
    (t : LoopState) (r : Round) (e : Option RunError)
    → give_up t r e ≡ returned (in_phase r.ended_at failed t) (final_error t.job.config e)
unfolding give_up
give_up_lem t r e = ground arith

-- One quick failure: the loop goes on exactly while an attempt is left.
abbrev pub Outcome : JobConfig → ℕ → Bool → Progress → Type 0
Outcome c k true p =
    (t : LoopState) × (p ≡ running t) × Looping c k t × (t.job.phase.reason ≡ crash_looping)
Outcome c k false p =
    (t : LoopState) × (e : Option RunError) × (p ≡ returned t (final_error c e))
    × (t.job.phase.reason ≡ failed)

retry-Outcome :
    (c : JobConfig) (k : ℕ) (s : LoopState) (r : Round) (e : Option RunError)
    → Looping c k s
    → QuickFailure r
    → Outcome c (suc k) (attempts_left c (suc k)) (retry s r e)
unfolding retry
retry-Outcome c k s r e l q = elim (Bool-cases (attempts_left c (suc k))) [
  | inl more ↦
      rw (left ∙ more)
        (rw more (try_again t r, refl, try_again-Looping c k t r counted q, phase-try_again t r q))
  | inr over ↦ rw (left ∙ over) (
      rw over (
        in_phase r.ended_at failed t,
        e,
        give_up_lem t r e
            ∙ ap (λ x. returned (in_phase r.ended_at failed t) (final_error x e)) counted.config,
        phase-in_phase r.ended_at failed t,
      ))
]
  where
    t : LoopState
    t = count_attempt s r

    counted : Counted c k t
    counted = count_attempt-Counted c k s r l q

    left : has_attempts t ≡ attempts_left c (suc k)
    left = has_attempts-Counted c k t counted

pub run_round-Outcome :
    (c : JobConfig) (k : ℕ) (s : LoopState) (r : Round)
    → Looping c k s
    → QuickFailure r
    → Outcome c (suc k) (attempts_left c (suc k)) (run_round s r)
unfolding run_round after_run
run_round-Outcome c k s r l q = simp q.open_run (
    subst (Outcome c (suc k) (attempts_left c (suc k)))
      (sym (handle_result-failure _ r ran.error failing.failure))
      (retry-Outcome c k _ r ran.error
        (record {
          config = l.config;
          restart = failing.job.restart;
          stop = failing.job.stop;
          cancelled = l.cancelled;
          attempts = l.attempts;
          back_off = l.back_off;
        })
        q))
  where
    ran : Run
    ran =
        start_once (marks_started r.launched_at) (record s.job.base { interrupt = some false })
          r.attempt

    failing : Failed ran
    failing =
        start_once-Failed (marks_started r.launched_at) r.attempt q.error q.ended q.alone
          (record s.job.base { interrupt = some false }) l.restart l.stop

pub Looping-not_stopping :
    (c : JobConfig) (k : ℕ) (s : LoopState) → Looping c k s → is_stopping s ≡ false
unfolding is_stopping
Looping-not_stopping c k s l = ground arith
