-- ===== src/Proc/Runner/Main.antt =====
-- pkg/proc/runner.go: Run with its select loop, the wait for a shutdown, and Boot; and
-- pkg/proc/job_boot.go. A select takes any case that is ready, so the loop is a step relation.
pub mod Keeps
use mittnite.Prelude.{
  ℕ, ◌+◌, ◌≡◌, String, Bool, true, false, Option, none, some, List, [], ◌∷◌, ◌++◌, Result, ok, err,
  ◌>>=◌, if◌then◌else◌, length,
}
use mittnite.Proc.BaseJob.{Request}
use mittnite.Proc.BaseJob.StartOnce.{RunError}
use mittnite.Proc.CommonJob.Watching.{FileSystem}
use mittnite.Proc.Runner.{Runner, exec}
use mittnite.Proc.Runner.Tick.{tick}

-- Run at the head of its select. `done` is wgChan: `none` for the nil channel, and whether it is
-- closed. `ended` counts the goroutines that called Done.
pub record Loop : Type 0 where
  pub runner : Runner
  pub done : Option Bool
  pub ended : ℕ

done_channel : Bool → Option Bool
done_channel keep_running = if keep_running then none else some false

enter : Runner → Loop
unfolding done_channel
enter r = record { runner = r; done = done_channel r.keep_running; ended = 0 }

-- Run up to its loop.
unfoldable pub begin : ℕ → FileSystem → Runner → Result Runner Loop
unfolding enter
begin now fs r =
    exec now fs (record r { wait_group = some 0; launched = [] }) >>= λ r'. ok (enter r')

-- One round, or what a goroutine does between two rounds: a job ends, `wg.Wait` returns, or the
-- ticker fires.
pub data Step : Loop → Loop → Type 0 where
  job_ends :
      {s : Loop} {n : ℕ}
      → s.runner.wait_group ≡ some (n + 1)
      → Step s (record s { runner = record s.runner { wait_group = some n }; ended = s.ended + 1 })
  wait_returns :
      {s : Loop}
      → s.done ≡ some false
      → s.runner.wait_group ≡ some 0
      → Step s (record s { done = some true })
  ticks :
      {s : Loop} {r : Runner} (now : ℕ) (fs : FileSystem)
      → tick now fs s.runner ≡ ok r
      → Step s (record s { runner = r })

pub data Reach (s : Loop) : Loop → Type 0 where
  here : Reach s s
  there : {t u : Loop} → Reach s t → Step t u → Reach s u

pub data RunResult : Type 0 where
  finished : RunResult
  job_failed : String → RunResult
  ctx_err : RunResult

-- waitForJobsToShutDown: what its select sees, in order.
pub data ShutdownEvent : Type 0 where
  all_done : ShutdownEvent
  fails : String → ShutdownEvent
  timed_out : ShutdownEvent

unfoldable pub wait_for_jobs_to_shut_down : List ShutdownEvent → Option RunResult
wait_for_jobs_to_shut_down [] = none
wait_for_jobs_to_shut_down (all_done ∷ es) = some ctx_err
wait_for_jobs_to_shut_down (fails e ∷ es) = wait_for_jobs_to_shut_down es
wait_for_jobs_to_shut_down (timed_out ∷ es) = some ctx_err

-- The cases of the select that leave the loop.
pub data Returns (s : Loop) : RunResult → Type 0 where
  on_done : s.done ≡ some true → Returns s finished
  on_error : (e : String) → Returns s (job_failed e)
  on_cancel :
      (es : List ShutdownEvent) {x : RunResult}
      → wait_for_jobs_to_shut_down es ≡ some x
      → Returns s x
