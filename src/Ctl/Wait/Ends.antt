-- ===== src/Ctl/Wait/Ends.antt =====
-- The wait for a condition ends.
use mittnite.Prelude.{
  ℕ, zero, suc, ◌+◌, ◌-◌, ◌*◌, ◌<◌, ◌≤◌, ◌≡◌, refl, subst, String, Bool, true, false, Option, none,
  some, Result, ok, err, ltb, Bool-cases, inl, inr, arith,
}
use mittnite.Ctl.{CtlError, timed_out}
use mittnite.Ctl.Wait.{Condition, after_test, asked, wait_loop, wait_for_condition}

-- The pause between two questions, in nanoseconds.
abbrev pub pause : ℕ
pause = 100000000

module _ {W : Type 0} (sleep : W → W) (now : W → ℕ) (job : String) (wait_timeout : ℕ)
    (wait_func : Condition W) where
  -- Why a wait that began at a time has ended: each by the answer to the last question.
  pub data Ended (wait_start : ℕ) : W × Option CtlError → Type 0 where
    holds : {v w : W} → wait_func (sleep v) ≡ (w, ok true) → Ended wait_start (w, none)
    fails :
        {v w : W} {e : CtlError} → wait_func (sleep v) ≡ (w, err e) → Ended wait_start (w, some e)
    expires :
        {v w : W}
        → wait_func (sleep v) ≡ (w, ok false)
        → wait_timeout < now w - wait_start
        → Ended wait_start (w, some (timed_out job))

  -- The wait returns.
  abbrev Returns : ℕ → Option (W × Option CtlError) → Type 0
  Returns wait_start o = (end : W × Option CtlError) × (o ≡ some end) × Ended wait_start end

  module _ (slept : (w : W) → now w + pause ≤ now (sleep w))
      (forward : (w : W) → now w ≤ now (wait_func w).0) where
    asked-Returns :
        (wait_start : ℕ) (again : W → Option (W × Option CtlError)) (v : W)
        (answer : W × Result CtlError Bool)
        → wait_func (sleep v) ≡ answer
        → ((w : W)
            → now v + pause ≤ now w
            → now w - wait_start ≤ wait_timeout
            → Returns wait_start (again w))
        → Returns wait_start (asked sleep now job wait_timeout wait_start again answer)
    unfolding asked after_test
    asked-Returns wait_start again v (w, err e) answered rest = ((w, some e), refl, fails answered)
    asked-Returns wait_start again v (w, ok true) answered rest = ((w, none), refl, holds answered)
    asked-Returns wait_start again v (w, ok false) answered rest =
        elim (Bool-cases (ltb wait_timeout (now w - wait_start))) [
          | inl late ↦
              rw late ((w, some (timed_out job)), refl, expires answered (ground (arith, late)))
          | inr early ↦ rw early (rest w later (ground (arith, early)))
        ]
      where
        later : now v + pause ≤ now w
        later =
            omega
              (arith, slept v, subst (λ a. now (sleep v) ≤ now a.0) answered (forward (sleep v)))

    loop-Returns :
        (wait_start : ℕ) (n : ℕ) (w : W)
        → wait_start + wait_timeout < now w + suc n * pause
        → Returns wait_start (wait_loop sleep now (suc n) job wait_timeout wait_start wait_func w)
    unfolding wait_loop
    loop-Returns wait_start zero w soon =
        asked-Returns wait_start (wait_loop sleep now zero job wait_timeout wait_start wait_func) w
          (wait_func (sleep w)) refl (λ v later early. absurd (omega (arith, soon, later, early)))
    loop-Returns wait_start (suc n) w soon =
        asked-Returns wait_start (wait_loop sleep now (suc n) job wait_timeout wait_start wait_func)
          w (wait_func (sleep w)) refl
          (λ v later early. loop-Returns wait_start n v (omega (arith, soon, later)))

    -- Whatever the server answers, as long as the clock runs on by the pause of each round and does
    -- not run back during a question: once the rounds last longer than the timeout, the wait has
    -- returned; without an error if the last answer was that the condition holds, with the error of
    -- the last question, or with a timeout that has passed and a condition that did not hold.
    pub wait-Ended :
        (n : ℕ) (w : W)
        → wait_timeout < n * pause
        → (end : W × Option CtlError) × (wait_for_condition sleep now n job wait_timeout wait_func w
            ≡ some end)
          × Ended (now w) end
    unfolding wait_for_condition
    wait-Ended zero w enough = ground (arith, enough)
    wait-Ended (suc n) w enough = loop-Returns (now w) n w (omega (arith, enough))
