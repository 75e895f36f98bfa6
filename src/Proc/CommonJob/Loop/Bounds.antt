-- ===== src/Proc/CommonJob/Loop/Bounds.antt =====
-- The bounds of the restart loop's counters, over every sequence of rounds.
use mittnite.Prelude.{
  ◌≤◌, ◌≡◌, refl, subst, ◌⊎◌, Bool, true, Option, none, some, List, arith, Bool-cases, inl, inr,
}
use mittnite.Config.{JobConfig}
use mittnite.Proc.BackOff.{second, max_back_off}
use mittnite.Proc.BackOff.Laws.{calculate_next_back_off_bounds}
use mittnite.Proc.BaseJob.StartOnce.{
  RunError, exits, fails, will_be_restarted, will_be_stopped, stopped_intentionally,
}
use mittnite.Proc.CommonJob.{CommonJob}
use mittnite.Proc.CommonJob.Loop.Invariant.{run_loop-keeps}
use mittnite.Proc.CommonJob.Loop.QuickFailure.{attempts_left}
use mittnite.Proc.CommonJob.Loop.{
  Round, LoopState, Progress, running, returned, give_up, try_again, count_attempt, has_attempts,
  retry, handle_result, after_run, run_round, initial, run,
}

record WaitsWithin (c : JobConfig) (s : LoopState) : Type 0 where
  config : s.job.config ≡ c
  lower : second ≤ s.back_off
  upper : s.back_off ≤ max_back_off

-- The configuration is the job's, the next wait is between one second and 300, and where attempts
-- were counted, `maxAttempts` allows one more.
pub record Bounded (c : JobConfig) (s : LoopState) : Type 0 where
  pub config : s.job.config ≡ c
  pub lower : second ≤ s.back_off
  pub upper : s.back_off ≤ max_back_off
  pub attempts : (s.attempts ≡ 0) ⊎ (attempts_left c s.attempts ≡ true)

abbrev Post : JobConfig → Progress → Type 0
Post c (running s) = Bounded c s
Post c (returned s e) = Unit

count_attempt-WaitsWithin :
    (c : JobConfig) (s : LoopState) (r : Round) → Bounded c s → WaitsWithin c (count_attempt s r)
unfolding count_attempt
count_attempt-WaitsWithin c s r b = ground (arith, b.config, b.lower, b.upper)

try_again-Bounded :
    (c : JobConfig) (s : LoopState) (r : Round)
    → WaitsWithin c s
    → has_attempts s ≡ true
    → Bounded c (try_again s r)
unfolding try_again has_attempts
try_again-Bounded c s r w more =
    let (lo, hi, _) = calculate_next_back_off_bounds s.back_off w.lower w.upper in
    record {
      config = w.config;
      lower = lo;
      upper = hi;
      attempts = inr (subst (λ d. attempts_left d s.attempts ≡ true) w.config more);
    }

give_up-Post :
    (c : JobConfig) (s : LoopState) (r : Round) (e : Option RunError) → Post c (give_up s r e)
unfolding give_up
give_up-Post c s r e = elim (Bool-cases s.job.config.can_fail) [
  | inl may ↦ simp may tt
  | inr must ↦ simp must tt
]

retry-Post :
    (c : JobConfig) (s : LoopState) (r : Round) (e : Option RunError)
    → Bounded c s
    → Post c (retry s r e)
unfolding retry
retry-Post c s r e b = elim (Bool-cases (has_attempts (count_attempt s r))) [
  | inl more ↦
      rw more (try_again-Bounded c (count_attempt s r) r (count_attempt-WaitsWithin c s r b) more)
  | inr over ↦ rw over (give_up-Post c (count_attempt s r) r e)
]

handle_result-Post :
    (c : JobConfig) (s : LoopState) (r : Round) (e : Option RunError)
    → Bounded c s
    → Post c (handle_result s r e)
unfolding handle_result
handle_result-Post c s r none b = elim (Bool-cases s.job.config.one_time) [
  | inl once ↦ simp once tt
  | inr again ↦ simp again (retry-Post c s r none b)
]
handle_result-Post c s r (some will_be_restarted) b = b
handle_result-Post c s r (some will_be_stopped) b = tt
handle_result-Post c s r (some stopped_intentionally) b = tt
handle_result-Post c s r (some (exits e)) b = retry-Post c s r (some (exits e)) b
handle_result-Post c s r (some (fails e)) b = retry-Post c s r (some (fails e)) b

run_round-Post : (c : JobConfig) (s : LoopState) (r : Round) → Bounded c s → Post c (run_round s r)
unfolding run_round after_run
run_round-Post c s r b = elim (Bool-cases r.shutdown) [
  | inl down ↦ simp down tt
  | inr up ↦ simp up (
      handle_result-Post c _ r _
        (record { config = b.config; lower = b.lower; upper = b.upper; attempts = b.attempts }))
]

run-Post :
    (job : CommonJob) (cancelled : Bool) (rs : List Round) → Post job.config (run job cancelled rs)
unfolding run
run-Post job cancelled rs = elim (Bool-cases job.stop) [
  | inl stop ↦ simp stop tt
  | inr go ↦ simp go (
      run_loop-keeps (Post job.config) (λ s b. tt) (run_round-Post job.config) rs
        (initial job cancelled)
        (record { config = refl; lower = omega arith; upper = omega arith; attempts = inl refl }))
]

-- Whatever the rounds are, while `Run` has not returned, the next wait is between one second and
-- 300 seconds, and where attempts were counted since the last long run, `maxAttempts` is -1 or
-- larger than their number.
pub run-Bounded :
    (job : CommonJob) (cancelled : Bool) (rs : List Round) (t : LoopState)
    → run job cancelled rs ≡ running t
    → Bounded job.config t
run-Bounded job cancelled rs t eq = subst (Post job.config) eq (run-Post job cancelled rs)
