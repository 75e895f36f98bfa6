-- ===== src/Proc/Runner/Tick.antt =====
-- pkg/proc/runner.go, tick: watched files, and jobs that are brought back with --keep-running.
pub mod Keeps
pub mod Balance
use mittnite.Prelude.{
  ℕ, Bool, true, false, not, ◌&&◌, List, [], ◌∷◌, ◌++◌, Result, ok, err, ◌>>=◌, if◌then◌else◌,
}
use mittnite.Proc.Phase.{unknown, failed, completed, is_phase}
use mittnite.Proc.CommonJob.{CommonJob}
use mittnite.Proc.CommonJob.Watching.{FileSystem, watch}
use mittnite.Proc.Runner.{
  Job, common, lazy, common_of, with_common, Runner, update, add_job_if_not_exists, remove_job,
  start_job,
}

watch_all : FileSystem → List ℕ → Runner → Runner
watch_all fs [] r = r
watch_all fs (j ∷ js) r =
    let (c, effects) = watch fs (common_of (r.heap j)) in
    watch_all fs js (record r {
      heap = update r.heap j (with_common c (r.heap j));
      effects = r.effects ++ effects;
    })

-- A common job that failed, or that completed and is not one-time.
needs_restart : Job → Bool
needs_restart (lazy j) = false
needs_restart (common j) =
    if is_phase j.phase failed then true else is_phase j.phase completed && not j.config.one_time

to_restart : Runner → List ℕ → List ℕ
unfolding needs_restart
to_restart r [] = []
to_restart r (j ∷ js) =
    let rest = to_restart r js in if needs_restart (r.heap j) then j ∷ rest else rest

bring_back : ℕ → FileSystem → Runner → ℕ → Result Runner Runner
bring_back now fs r j = start_job now fs (add_job_if_not_exists (remove_job r j) j) j unknown

bring_all_back : ℕ → FileSystem → List ℕ → Runner → Result Runner Runner
unfolding bring_back
bring_all_back now fs [] r = ok r
bring_all_back now fs (j ∷ js) r = bring_back now fs r j >>= bring_all_back now fs js

pub tick : ℕ → FileSystem → Runner → Result Runner Runner
unfolding watch_all to_restart bring_all_back
tick now fs r =
    let r' = watch_all fs r.jobs r in
    if r'.keep_running then bring_all_back now fs (to_restart r' r'.jobs) r' else ok r'
