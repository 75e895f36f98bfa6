-- ===== src/Proc/Runner/Tick/Balance.antt =====
-- What a tick does to the wait group.
use mittnite.Prelude.{ℕ, List, [], ◌∷◌, Bool-cases, inl, inr}
use mittnite.Proc.Phase.{unknown}
use mittnite.Proc.CommonJob.Watching.{FileSystem}
use mittnite.Proc.Runner.{Runner, add_job_if_not_exists, has_name, name_at, remove_job}
use mittnite.Proc.Runner.Balance.{Balanced, KeepsBalance, KeepsBalance-bind, start_job-Balanced}
use mittnite.Proc.Runner.Tick.{watch_all, to_restart, bring_back, bring_all_back, tick}

watch_all-Balanced :
    (ended : ℕ) (fs : FileSystem) (js : List ℕ) (r : Runner)
    → Balanced ended r
    → Balanced ended (watch_all fs js r)
unfolding watch_all
watch_all-Balanced ended fs [] r b = b
watch_all-Balanced ended fs (j ∷ js) r b =
    watch_all-Balanced ended fs js _
      (record { running = b.running; group = b.group; total = b.total })

remove_add-Balanced :
    (ended : ℕ) (r : Runner) (j : ℕ)
    → Balanced ended r
    → Balanced ended (add_job_if_not_exists (remove_job r j) j)
unfolding add_job_if_not_exists remove_job
remove_add-Balanced ended r j b =
    elim (Bool-cases (has_name (name_at r) (name_at r j) (remove_job r j).jobs)) [
      | inl stays ↦ rw stays (record { running = b.running; group = b.group; total = b.total })
      | inr gone ↦ rw gone (record { running = b.running; group = b.group; total = b.total })
    ]

bring_all_back-Balanced :
    (ended now : ℕ) (fs : FileSystem) (js : List ℕ) (r : Runner)
    → Balanced ended r
    → KeepsBalance ended (bring_all_back now fs js r)
unfolding bring_all_back bring_back
bring_all_back-Balanced ended now fs [] r b = b
bring_all_back-Balanced ended now fs (j ∷ js) r b =
    KeepsBalance-bind ended (bring_back now fs r j) (bring_all_back now fs js)
      (start_job-Balanced ended now fs (add_job_if_not_exists (remove_job r j) j) j unknown
        (remove_add-Balanced ended r j b))
      (bring_all_back-Balanced ended now fs js)

pub tick-Balanced :
    (ended now : ℕ) (fs : FileSystem) (r : Runner)
    → Balanced ended r
    → KeepsBalance ended (tick now fs r)
unfolding tick
tick-Balanced ended now fs r b = elim (Bool-cases (watch_all fs r.jobs r).keep_running) [
  | inl keeps ↦ rw keeps (
      bring_all_back-Balanced ended now fs
        (to_restart (watch_all fs r.jobs r) (watch_all fs r.jobs r).jobs) (watch_all fs r.jobs r)
        (watch_all-Balanced ended fs r.jobs r b))
  | inr once ↦ rw once (watch_all-Balanced ended fs r.jobs r b)
]
