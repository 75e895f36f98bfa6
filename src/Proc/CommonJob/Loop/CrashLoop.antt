-- ===== src/Proc/CommonJob/Loop/CrashLoop.antt =====
-- A job that fails quickly in every round: how often it is tried, how long it waits, how it ends.
use mittnite.Prelude.{
  ℕ, suc, ◌+◌, ◌*◌, ◌≤◌, ◌<◌, ◌^◌, ◌≡◌, refl, ◌∙◌, subst, ◌⊎◌, true, false, Option, none, some,
  List, [], ◌∷◌, arith, pos, negsuc, if◌then◌else◌, length, All, inl, inr,
}
use Prim.Native.Nat.{min}
use mittnite.Config.{JobConfig, get_max_attempts}
use mittnite.Proc.Phase.{failed}
use mittnite.Proc.BackOff.{second}
use mittnite.Proc.BackOff.Laws.{nth_back_off, nth_back_off_lem}
use mittnite.Proc.BaseJob.StartOnce.{RunError}
use mittnite.Proc.CommonJob.{CommonJob}
use mittnite.Proc.CommonJob.Loop.QuickFailure.{
  QuickFailure, Looping, attempts_left, final_error, Outcome, run_round-Outcome,
  Looping-not_stopping,
}
use mittnite.Proc.CommonJob.Loop.{
  Round, LoopState, JobError, max_retries, running, returned, run_round, is_stopping, run_loop,
  initial, run,
}

-- `maxAttempts` allows more than `k` attempts: it is -1, or a larger number.
abbrev pub Allows : JobConfig → ℕ → Type 0
Allows c k = (get_max_attempts c ≡ negsuc 0) ⊎ ((n : ℕ) × (get_max_attempts c ≡ pos n) × (k < n))

attempts_left_of_Allows : (c : JobConfig) (i k : ℕ) → i ≤ k → Allows c k → attempts_left c i ≡ true
attempts_left_of_Allows c i k le (inl unlimited) = rw unlimited
attempts_left_of_Allows c i k le (inr (n, limit, lt)) = rw limit (ground arith)

run_loop-running :
    (s t : LoopState) (r : Round) (rs : List Round)
    → is_stopping s ≡ false
    → run_round s r ≡ running t
    → run_loop (r ∷ rs) s ≡ run_loop rs t
unfolding run_loop
run_loop-running s t r rs going eq = ground arith

run_loop-returned :
    (s t : LoopState) (e : Option JobError) (r : Round) (rs : List Round)
    → is_stopping s ≡ false
    → run_round s r ≡ returned t e
    → run_loop (r ∷ rs) s ≡ returned t e
unfolding run_loop
run_loop-returned s t e r rs going eq = ground arith

run_loop_continues :
    (c : JobConfig) (k n : ℕ) (s : LoopState) (rs : List Round)
    → Looping c k s
    → All QuickFailure rs
    → k + length rs ≡ n
    → Allows c n
    → (t : LoopState) × (run_loop rs s ≡ running t) × Looping c n t
unfolding run_loop
run_loop_continues c k n s [] l q e more =
    let e' : k ≡ n = omega arith in
    (s, rw (Looping-not_stopping c k s l), subst (λ m. Looping c m s) e' l)
run_loop_continues c k n s (r ∷ rs) l q e more =
    let (t, eq, l', _) =
      subst (λ b. Outcome c (suc k) b (run_round s r))
        (attempts_left_of_Allows c (suc k) n (omega arith) more)
        (run_round-Outcome c k s r l q.0) in
    let (u, eq', l'') = run_loop_continues c (suc k) n t rs l' q.1 (omega arith) more in
    (u, run_loop-running s t r rs (Looping-not_stopping c k s l) eq ∙ eq', l'')

run_loop_gives_up :
    (c : JobConfig) (k n : ℕ) (s : LoopState) (rs : List Round)
    → Looping c k s
    → All QuickFailure rs
    → k + length rs ≡ n
    → k < n
    → get_max_attempts c ≡ pos n
    → (t : LoopState) × (e : Option RunError) × (run_loop rs s ≡ returned t (final_error c e))
      × (t.job.phase.reason ≡ failed)
unfolding run_loop
run_loop_gives_up c k n s [] l q e lt limit = absurd (omega arith)
run_loop_gives_up c k n s (r ∷ []) l q e lt limit =
    let over : attempts_left c (suc k) ≡ false = rw limit (ground arith) in
    let (t, x, eq, phase) =
      subst (λ b. Outcome c (suc k) b (run_round s r)) over (run_round-Outcome c k s r l q.0) in
    (t, x, run_loop-returned s t (final_error c x) r [] (Looping-not_stopping c k s l) eq, phase)
run_loop_gives_up c k n s (r ∷ r' ∷ rs) l q e lt limit =
    let more : attempts_left c (suc k) ≡ true = rw limit (ground arith) in
    let (t, eq, l', _) =
      subst (λ b. Outcome c (suc k) b (run_round s r)) more (run_round-Outcome c k s r l q.0) in
    let (u, x, eq', phase) =
      run_loop_gives_up c (suc k) n t (r' ∷ rs) l' q.1 (omega arith) (omega arith) limit in
    (u, x, run_loop-running s t r (r' ∷ rs) (Looping-not_stopping c k s l) eq ∙ eq', phase)

module _ (job : CommonJob) (no_restart : job.restart ≡ false) (no_stop : job.stop ≡ false)
    (rs : List Round) (failing : All QuickFailure rs) where
  initial-Looping : Looping job.config 0 (initial job false)
  initial-Looping = record {
    config = refl;
    restart = no_restart;
    stop = no_stop;
    cancelled = refl;
    attempts = refl;
    back_off = unfold nth_back_off in refl;
  }

  pub crash_loop_continues :
      Allows job.config (length rs)
      → (t : LoopState) × (run job false rs ≡ running t)
        × (t.attempts ≡ length rs)
        × (t.back_off ≡ min (2 ^ length rs) 300 * second)
  unfolding run
  crash_loop_continues more =
      let (t, eq, l) =
        run_loop_continues job.config 0 (length rs) (initial job false) rs initial-Looping failing
          (omega arith) more in
      (t, simp no_stop eq, l.attempts, l.back_off ∙ nth_back_off_lem (length rs))

  -- A job with a limit of attempts that is the number of rounds, in each of which it fails quickly
  -- with nobody asking for anything, is failed after them, and `Run` returns: with the error of
  -- reached retries, or with none if the job may fail.
  pub crash_loop_gives_up :
      0 < length rs
      → get_max_attempts job.config ≡ pos (length rs)
      → (t : LoopState) × (e : Option RunError) × (run job false rs
          ≡ returned t (if job.config.can_fail then none else some (max_retries job.config.name e)))
        × (t.job.phase.reason ≡ failed)
  unfolding run
  crash_loop_gives_up some_rounds limit =
      let (t, e, eq, phase) =
        run_loop_gives_up job.config 0 (length rs) (initial job false) rs initial-Looping failing
          (omega arith) some_rounds limit in
      (t, e, simp no_stop eq, phase)
