-- ===== src/Proc/CommonJob/Loop/Returns.antt =====
-- How `Run` can return at all, over every sequence of rounds.
use mittnite.Prelude.{
  ◌≡◌, ◌≢◌, refl, sym, ◌∙◌, ap, subst, Bool, true, false, Option, none, some, List, arith, negsuc,
  Bool-cases, inl, inr,
}
use mittnite.Config.{JobConfig, get_max_attempts}
use mittnite.Proc.Phase.{failed}
use mittnite.Proc.Phase.Laws.{reason-set_phase}
use mittnite.Proc.BaseJob.{put_phase}
use mittnite.Proc.BaseJob.StartOnce.{
  RunError, exits, fails, will_be_restarted, will_be_stopped, stopped_intentionally,
}
use mittnite.Proc.CommonJob.{CommonJob}
use mittnite.Proc.CommonJob.Loop.Invariant.{run_loop-keeps}
use mittnite.Proc.CommonJob.Loop.{
  Round, LoopState, JobError, Progress, running, returned, give_up, try_again, count_attempt,
  has_attempts, retry, handle_result, after_run, run_round, initial, run,
}

-- What holds of a loop that goes on, and of one that returned.
abbrev Post : JobConfig → Progress → Type 0
Post c (running s) = s.job.config ≡ c
Post c (returned t none) = t.job.config ≡ c
Post c (returned t (some e)) =
    (c.can_fail ≡ false) × (get_max_attempts c ≢ negsuc 0) × (t.job.phase.reason ≡ failed)

count_attempt-config : (s : LoopState) (r : Round) → (count_attempt s r).job.config ≡ s.job.config
unfolding count_attempt
count_attempt-config s r = ground arith

has_attempts-unlimited :
    (s : LoopState) → get_max_attempts s.job.config ≡ negsuc 0 → has_attempts s ≡ true
unfolding has_attempts
has_attempts-unlimited s unlimited = simp unlimited

give_up-Post :
    (c : JobConfig) (s : LoopState) (r : Round) (e : Option RunError)
    → s.job.config ≡ c
    → has_attempts s ≡ false
    → Post c (give_up s r e)
unfolding give_up
give_up-Post c s r e same over = elim (Bool-cases s.job.config.can_fail) [
  | inl may ↦ simp may same
  | inr must ↦ simp must (
    ap (λ d. d.can_fail) (sym same) ∙ must,
    (λ unlimited. limited unlimited),
    (unfold put_phase in reason-set_phase r.ended_at failed s.job.phase),
  )
]
  where
    limited : ¬ (get_max_attempts c ≡ negsuc 0)
    limited u = cc (has_attempts-unlimited s (ap get_max_attempts same ∙ u))

retry-Post :
    (c : JobConfig) (s : LoopState) (r : Round) (e : Option RunError)
    → s.job.config ≡ c
    → Post c (retry s r e)
unfolding retry try_again
retry-Post c s r e same = elim (Bool-cases (has_attempts (count_attempt s r))) [
  | inl more ↦ simp more (count_attempt-config s r ∙ same)
  | inr over ↦
      simp over (give_up-Post c (count_attempt s r) r e (count_attempt-config s r ∙ same) over)
]

handle_result-Post :
    (c : JobConfig) (s : LoopState) (r : Round) (e : Option RunError)
    → s.job.config ≡ c
    → Post c (handle_result s r e)
unfolding handle_result
handle_result-Post c s r none same = elim (Bool-cases s.job.config.one_time) [
  | inl once ↦ simp once same
  | inr again ↦ simp again (retry-Post c s r none same)
]
handle_result-Post c s r (some will_be_restarted) same = same
handle_result-Post c s r (some will_be_stopped) same = same
handle_result-Post c s r (some stopped_intentionally) same = same
handle_result-Post c s r (some (exits e)) same = retry-Post c s r (some (exits e)) same
handle_result-Post c s r (some (fails e)) same = retry-Post c s r (some (fails e)) same

run_round-Post :
    (c : JobConfig) (s : LoopState) (r : Round) → s.job.config ≡ c → Post c (run_round s r)
unfolding run_round after_run
run_round-Post c s r same = elim (Bool-cases r.shutdown) [
  | inl down ↦ simp down same
  | inr up ↦ simp up (handle_result-Post c _ r _ same)
]

run-Post :
    (job : CommonJob) (cancelled : Bool) (rs : List Round) → Post job.config (run job cancelled rs)
unfolding run
run-Post job cancelled rs = elim (Bool-cases job.stop) [
  | inl stop ↦ simp stop
  | inr go ↦ simp go (
      run_loop-keeps (Post job.config) (λ s same. same) (run_round-Post job.config) rs
        (initial job cancelled) refl)
]

-- Whatever the rounds are, `Run` returns an error only for a job that may not fail, whose
-- `maxAttempts` is not -1, and that it has marked as failed.
pub run_error :
    (job : CommonJob) (cancelled : Bool) (rs : List Round) (t : LoopState) (e : JobError)
    → run job cancelled rs ≡ returned t (some e)
    → (job.config.can_fail ≡ false)
      × (get_max_attempts job.config ≢ negsuc 0)
      × (t.job.phase.reason ≡ failed)
run_error job cancelled rs t e eq = subst (Post job.config) eq (run-Post job cancelled rs)
