-- ===== src/Proc/Runner/Main/Keeps.antt =====
-- What holds at every round of Run: the wait group counts the goroutines that have not ended.
use mittnite.Prelude.{
  ℕ, ◌≡◌, refl, sym, ◌∙◌, subst, Bool, true, false, Option, none, some, List, [], ◌∷◌, Result, ok,
  err, ◌>>=◌, length, arith,
}
use mittnite.Proc.CommonJob.Watching.{FileSystem}
use mittnite.Proc.Runner.{Runner, exec}
use mittnite.Proc.Runner.Tick.{tick}
use mittnite.Proc.Runner.Balance.{Balanced, KeepsBalance, exec-Balanced}
use mittnite.Proc.Runner.Tick.Balance.{tick-Balanced}
use mittnite.Proc.Runner.Main.{
  Loop, enter, begin, done_channel, Step, job_ends, wait_returns, ticks, Reach, here, there,
  RunResult, finished, Returns, on_done, on_cancel, ShutdownEvent, all_done, fails, timed_out,
  wait_for_jobs_to_shut_down, ctx_err,
}

-- A shutdown that ends, ends with the error of the context: errors of jobs are only logged.
pub shutdown_ends_with_ctx_err :
    (es : List ShutdownEvent) (x : RunResult) → wait_for_jobs_to_shut_down es ≡ some x → x ≡ ctx_err
unfolding wait_for_jobs_to_shut_down
shutdown_ends_with_ctx_err [] x e = ground arith
shutdown_ends_with_ctx_err (all_done ∷ es) x e = ground arith
shutdown_ends_with_ctx_err (fails m ∷ es) x e = shutdown_ends_with_ctx_err es x e
shutdown_ends_with_ctx_err (timed_out ∷ es) x e = ground arith

-- The state at which `wg.Wait` returned: all goroutines that were launched by then had ended.
pub record AllEnded (s t : Loop) : Type 0 where
  pub at : Loop
  pub before : Reach s at
  pub after : Reach at t
  pub all_ended : at.ended ≡ length at.runner.launched

record Inv (s t : Loop) : Type 0 where
  balanced : Balanced t.ended t.runner
  keeps_none : s.done ≡ none → t.done ≡ none
  closed : t.done ≡ some true → AllEnded s t

balance_of :
    (ended : ℕ) (x : Result Runner Runner) (r : Runner)
    → KeepsBalance ended x
    → x ≡ ok r
    → Balanced ended r
balance_of ended x r b e = subst (KeepsBalance ended) e b

later : {s t u : Loop} → AllEnded s t → Step t u → AllEnded s u
later a st = record {
  at = a.at;
  before = a.before;
  after = there a.after st;
  all_ended = a.all_ended;
}

Step-Inv : {s t u : Loop} → Reach s t → Step t u → Inv s t → Inv s u
Step-Inv {s} {t} re (job_ends {n} e) i = record {
  balanced = record {
    running = n;
    group = refl;
    total = grind (arith, e, i.balanced.group, i.balanced.total);
  };
  keeps_none = i.keeps_none;
  closed = λ c. later (i.closed c) (job_ends e);
}
Step-Inv {s} {t} re (wait_returns open_yet zero_left) i = record {
  balanced = i.balanced;
  keeps_none = λ e. ground (arith, sym open_yet ∙ i.keeps_none e);
  closed = λ c. record {
    at = t;
    before = re;
    after = there here (wait_returns open_yet zero_left);
    all_ended = grind (arith, zero_left, i.balanced.group, i.balanced.total);
  };
}
Step-Inv {s} {t} re (ticks {r} now fs e) i = record {
  balanced =
      balance_of t.ended (tick now fs t.runner) r (tick-Balanced t.ended now fs t.runner i.balanced)
        e;
  keeps_none = i.keeps_none;
  closed = λ c. later (i.closed c) (ticks now fs e);
}

Reach-Inv : {s t : Loop} → Inv s s → Reach s t → Inv s t
Reach-Inv i here = i
Reach-Inv i (there re st) = Step-Inv re st (Reach-Inv i re)

not_closed : (b : Bool) → ¬ (done_channel b ≡ some true)
unfolding done_channel
not_closed true e = ground arith
not_closed false e = ground arith

abbrev Starts : Loop → Type 0
Starts s = Inv s s × (s.done ≡ done_channel s.runner.keep_running)

enter-Starts : (r : Runner) → Balanced 0 r → Starts (enter r)
unfolding enter
enter-Starts r b = (
  record { balanced = b; keeps_none = λ e. e; closed = λ c. absurd (not_closed r.keep_running c) },
  refl,
)

entered :
    (x : Result Runner Runner) (s : Loop)
    → KeepsBalance 0 x
    → (x >>= λ r'. ok (enter r')) ≡ ok s
    → Starts s
entered (err r) s b e = ground arith
entered (ok r) s b e = subst Starts (ground arith) (enter-Starts r b)

begin-Starts :
    (now : ℕ) (fs : FileSystem) (r : Runner) (s : Loop) → begin now fs r ≡ ok s → Starts s
unfolding begin
begin-Starts now fs r s e =
    entered (exec now fs (record r { wait_group = some 0; launched = [] })) s
      (exec-Balanced 0 now fs (record r { wait_group = some 0; launched = [] })
        (record { running = 0; group = refl; total = refl }))
      e

kept_none :
    (b : Bool) (channel : Option Bool)
    → ((done_channel b ≡ none) → channel ≡ none)
    → channel ≡ some true
    → b ≡ false
unfolding done_channel
kept_none true channel k e = ground (arith, k refl)
kept_none false channel k e = refl

finished-ctx_err : ¬ (finished ≡ ctx_err)
finished-ctx_err e = ground arith

-- Run returns nil only without --keep-running, and only after a round at which each job goroutine
-- that had been launched until then, at the start or by a tick, had ended.
pub finished-all_ended :
    (now : ℕ) (fs : FileSystem) (r : Runner) (s t : Loop)
    → begin now fs r ≡ ok s
    → Reach s t
    → Returns t finished
    → (s.runner.keep_running ≡ false) × AllEnded s t
finished-all_ended now fs r s t e re (on_done closed) =
    let (i, channel) = begin-Starts now fs r s e in
    let j = Reach-Inv i re in
    (
      kept_none s.runner.keep_running t.done (λ n. j.keeps_none (channel ∙ n)) closed,
      j.closed closed,
    )
finished-all_ended now fs r s t e re (on_cancel es c) =
    absurd (finished-ctx_err (shutdown_ends_with_ctx_err es finished c))
