-- ===== src/Proc/LazyJob/Connections.antt =====
-- The life of a lazy job with its connections and its cool-down watcher, as a step relation.
pub mod Trail
use mittnite.Prelude.{
  ℕ, suc, ◌+◌, ◌-◌, ◌*◌, ◌%◌, ◌≤◌, ◌<◌, ◌≡◌, ◌≢◌, refl, Bool, true, false, Option, none, some, [],
  ◌∷◌, arith, ltb, Bool-cases, Option-cases, inl, inr, subst, sym,
}
use mittnite.Proc.BaseJob.{sigterm, signal}
use mittnite.Proc.BaseJob.StartOnce.{RunError}
use mittnite.Proc.LazyJob.{
  LazyJob, Started, assert_started, process_ended, u32, connection_opened, connection_ends,
  connection_closed, Watcher, resting, saw_no_connection, saw_idle, saw_process, test_connections,
  test_idle, test_process, stop_idle,
}

-- The job, with the connections that the listener has accepted and not counted yet, those that are
-- counted and open, those that have ended and are still counted, and the place of the watcher.
pub record World : Type 0 where
  pub job : LazyJob
  pub pending : ℕ
  pub serving : ℕ
  pub ending : ℕ
  pub watcher : Watcher

-- pkg/proc/job_listener.go, run: a connection is accepted, the job is started, and a goroutine
-- counts the connection, serves it and counts it out. The process of the job may end.
pub data Step : World → World → Type 0 where
  accept :
      (w : World) (outcome : Started)
      → (assert_started w.job outcome).1 ≡ none
      → Step w (record w { job = (assert_started w.job outcome).0; pending = w.pending + 1 })
  refuse :
      (w : World) (outcome : Started) {e : RunError}
      → (assert_started w.job outcome).1 ≡ some e
      → Step w (record w { job = (assert_started w.job outcome).0 })
  count :
      (w : World)
      → 0 < w.pending
      → Step w (record w {
        job = connection_opened w.job;
        pending = w.pending - 1;
        serving = w.serving + 1;
      })
  end :
      (w : World) (now : ℕ)
      → 0 < w.serving
      → Step w (record w {
        job = connection_ends now w.job;
        serving = w.serving - 1;
        ending = w.ending + 1;
      })
  close :
      (w : World)
      → 0 < w.ending
      → Step w (record w { job = connection_closed w.job; ending = w.ending - 1 })
  ended : (w : World) → Step w (record w { job = process_ended w.job })

-- Steps of the connections and the process, while the watcher stays where it is.
pub data Meanwhile (s : World) : World → Type 0 where
  here : Meanwhile s s
  next : {w v : World} → Meanwhile s w → Step w v → Meanwhile s v

-- One step of the watcher: a tick comes and loads the counter, the tests after it, and the stop.
pub data Watch : World → World → Type 0 where
  tick : (w : World) → w.watcher ≡ resting → Watch w (record w { watcher = test_connections w.job })
  idle :
      (w : World) (now : ℕ)
      → w.watcher ≡ saw_no_connection
      → Watch w (record w { watcher = test_idle now w.job })
  process : (w : World) → w.watcher ≡ saw_idle → Watch w (record w { watcher = test_process w.job })
  stop :
      (w : World)
      → w.watcher ≡ saw_process
      → Watch w (record w { job = (stop_idle w.job).0; watcher = resting })

pub data Reach (s : World) : World → Type 0 where
  begins : Reach s s
  steps : {w v : World} → Reach s w → Step w v → Reach s v
  watches : {w v : World} → Reach s w → Watch w v → Reach s v

-- The counter is the number of counted connections, as far as 32 bits hold it.
abbrev IsCounted : World → Type 0
IsCounted w = w.job.active_connections ≡ (w.serving + w.ending) % u32

Step-IsCounted : {w v : World} → Step w v → IsCounted w → IsCounted v
Step-IsCounted (accept w outcome _) c = unfold assert_started in ground arith
Step-IsCounted (refuse w outcome _) c = unfold assert_started in ground arith
Step-IsCounted (count w some_pending) c = unfold connection_opened in ground arith
Step-IsCounted (end w now some_open) c = unfold connection_ends in ground arith
Step-IsCounted (close w some_ending) c = unfold connection_closed in ground arith
Step-IsCounted (ended w) c = unfold process_ended in ground arith

Watch-IsCounted : {w v : World} → Watch w v → IsCounted w → IsCounted v
Watch-IsCounted (tick w _) c = c
Watch-IsCounted (idle w now _) c = c
Watch-IsCounted (process w _) c = c
Watch-IsCounted (stop w _) c = unfold stop_idle in c

Reach-IsCounted : {s w : World} → IsCounted s → Reach s w → IsCounted w
Reach-IsCounted c begins = c
Reach-IsCounted c (steps r st) = Step-IsCounted st (Reach-IsCounted c r)
Reach-IsCounted c (watches r st) = Watch-IsCounted st (Reach-IsCounted c r)
