-- ===== src/Proc/Runner/Balance.antt =====
-- pkg/proc/runner.go: what startJob does to the wait group.
use mittnite.Prelude.{
  ℕ, ◌+◌, ◌≡◌, refl, Option, none, some, List, [], ◌∷◌, Result, ok, err, ◌>>=◌, length,
  length-append, arith, Bool-cases, inl, inr,
}
use mittnite.Proc.Phase.{JobPhaseReason, unknown}
use mittnite.Proc.CommonJob.Watching.{FileSystem}
use mittnite.Proc.Runner.{
  Runner, exec, start_all, start_job, add_to_group, is_final, job_phase, put_job_phase,
}

-- `ended` goroutines have ended and `n` are in the wait group.
pub record Balanced (ended : ℕ) (r : Runner) : Type 0 where
  pub running : ℕ
  pub group : r.wait_group ≡ some running
  pub total : running + ended ≡ length r.launched

-- A call that does not panic leaves the balance.
abbrev pub KeepsBalance : ℕ → Result Runner Runner → Type 0
KeepsBalance ended (ok r) = Balanced ended r
KeepsBalance ended (err r) = Unit

pub KeepsBalance-bind :
    (ended : ℕ) (x : Result Runner Runner) (f : Runner → Result Runner Runner)
    → KeepsBalance ended x
    → ((r : Runner) → Balanced ended r → KeepsBalance ended (f r))
    → KeepsBalance ended (x >>= f)
KeepsBalance-bind ended (ok r) f b next = next r b
KeepsBalance-bind ended (err r) f b next = tt

add_to_group-Balanced :
    (ended : ℕ) (r : Runner) (ref : ℕ) (o : Option ℕ)
    → r.wait_group ≡ o
    → Balanced ended r
    → KeepsBalance ended (add_to_group r ref o)
unfolding add_to_group
add_to_group-Balanced ended r ref none e b = tt
add_to_group-Balanced ended r ref (some n) e b = record {
  running = n + 1;
  group = refl;
  total = grind (arith, b.total, b.group, e, length-append r.launched (ref ∷ []));
}

pub start_job-Balanced :
    (ended now : ℕ) (fs : FileSystem) (r : Runner) (ref : ℕ) (initial : JobPhaseReason)
    → Balanced ended r
    → KeepsBalance ended (start_job now fs r ref initial)
unfolding start_job
start_job-Balanced ended now fs r ref initial b =
    elim (Bool-cases (is_final (job_phase (put_job_phase now initial (r.heap ref))))) [
      | inl final ↦ rw final (record { running = b.running; group = b.group; total = b.total })
      | inr runs ↦ rw runs (
          add_to_group-Balanced ended _ ref r.wait_group refl
            (record { running = b.running; group = b.group; total = b.total }))
    ]

start_all-Balanced :
    (ended now : ℕ) (fs : FileSystem) (js : List ℕ) (r : Runner)
    → Balanced ended r
    → KeepsBalance ended (start_all now fs js r)
unfolding start_all
start_all-Balanced ended now fs [] r b = b
start_all-Balanced ended now fs (j ∷ js) r b =
    KeepsBalance-bind ended (start_job now fs r j unknown) (start_all now fs js)
      (start_job-Balanced ended now fs r j unknown b) (start_all-Balanced ended now fs js)

pub exec-Balanced :
    (ended now : ℕ) (fs : FileSystem) (r : Runner)
    → Balanced ended r
    → KeepsBalance ended (exec now fs r)
unfolding exec
exec-Balanced ended now fs r b = start_all-Balanced ended now fs r.jobs r b
