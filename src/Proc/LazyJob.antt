-- ===== src/Proc/LazyJob.antt =====
-- pkg/proc/job_lazy.go and the connections of pkg/proc/job_listener.go: a job that starts with the
-- first connection and is stopped once it has been idle. Each function below is one step of one
-- goroutine.
pub mod Connections
use mittnite.Prelude.{
  ℕ, ◌+◌, ◌-◌, ◌*◌, ◌%◌, ◌^◌, String, Bool, true, false, Option, none, some, List, [], ◌∷◌, ltb,
  ◌==◌, string_eq, if◌then◌else◌, Result, ok, err, ◌>>=◌,
}
use mittnite.Config.{JobConfig, Laziness}
use mittnite.Proc.BackOff.{second}
use mittnite.Proc.BaseJob.{BaseJob, Effect, signal, sigterm}
use mittnite.Proc.BaseJob.StartOnce.{
  RunError, will_be_restarted, will_be_stopped, stopped_intentionally, exits, fails,
}
use mittnite.Proc.CommonJob.{CommonJob, new_common_job}

pub record LazyJob : Type 0 where
  pub common : CommonJob
  pub open common use {base, config, stop_expected, cmd, phase}
  pub process : Option ℕ
  pub active_connections : ℕ
  pub spin_up_timeout : ℕ
  pub cool_down_timeout : ℕ
  pub last_connection_closed : ℕ

timeout_or : (String → Result String ℕ) → String → ℕ → Result String ℕ
timeout_or parse_duration text default = if text == "" then ok default else parse_duration text

-- NewLazyJob (pkg/proc/types.go); the runner calls it only where `laziness` is set.
pub new_lazy_job :
    ℕ
    → (String → Result String ℕ)
    → (String → Result String ℕ)
    → JobConfig
    → Laziness
    → Result String LazyJob
unfolding timeout_or
new_lazy_job now prepare parse_duration c laziness = do
  common ← new_common_job now prepare c
  spin_up ← timeout_or parse_duration laziness.spin_up_timeout (5 * second)
  cool_down ← timeout_or parse_duration laziness.cool_down_timeout (900 * second)
  ok (record {
    common = common;
    process = none;
    active_connections = 0;
    spin_up_timeout = spin_up;
    cool_down_timeout = cool_down;
    last_connection_closed = 0;
  })

-- What the select in AssertStarted receives: an error of startOnce, or the started process.
pub data Started : Type 0 where
  start_error : RunError → Started
  got_process : ℕ → Started

finish_start : LazyJob → Started → LazyJob × Option RunError
finish_start job (start_error e) = (job, some e)
finish_start job (got_process pid) = (record job { process = some pid }, none)

-- AssertStarted: both tests of the process are one, since a step holds the lock.
unfoldable pub assert_started : LazyJob → Started → LazyJob × Option RunError
unfolding finish_start
assert_started job outcome = elim job.process [
  | some pid ↦ (job, none)
  | none ↦ finish_start job outcome
]

-- The goroutine of AssertStarted when startOnce returns.
unfoldable pub process_ended : LazyJob → LazyJob
process_ended job = record job { process = none }

abbrev pub u32 : ℕ
u32 = 4294967296

-- atomic.AddUint32 by 1 and by ^uint32(0).
unfoldable pub connection_opened : LazyJob → LazyJob
connection_opened job = record job { active_connections = (job.active_connections + 1) % u32 }

-- The time is stored before the counter goes down.
unfoldable pub connection_ends : ℕ → LazyJob → LazyJob
connection_ends now job = record job { last_connection_closed = now }

unfoldable pub connection_closed : LazyJob → LazyJob
connection_closed job = record job {
  active_connections = (job.active_connections + (u32 - 1)) % u32;
}

-- Where the cool-down watcher is: between two ticks, or at one of the tests of a tick. It holds the
-- lock only from the last of them to the signal, and other goroutines take steps in between.
pub data Watcher : Type 0 where
  resting saw_no_connection saw_idle saw_process : Watcher

-- The first test of a tick loads the counter.
unfoldable pub test_connections : LazyJob → Watcher
test_connections job = if ltb 0 job.active_connections then resting else saw_no_connection

-- At the time `now`.
unfoldable pub test_idle : ℕ → LazyJob → Watcher
test_idle now job =
    if ltb (now - job.last_connection_closed) job.cool_down_timeout then resting else saw_idle

unfoldable pub test_process : LazyJob → Watcher
test_process job = elim job.process [ none ↦ resting | some pid ↦ saw_process ]

-- What the watcher does with the lock.
unfoldable pub stop_idle : LazyJob → LazyJob × List Effect
stop_idle job =
    let base = record job.base { stop_expected = true } in
    (record job { common = record job.common { base = base } }, signal base sigterm)
