-- ===== src/Proc/LazyJob/Connections/Trail.antt =====
-- What led to a stop by the cool-down watcher.
use mittnite.Prelude.{
  ℕ, ◌+◌, ◌-◌, ◌%◌, ◌≤◌, ◌≡◌, ◌≢◌, refl, none, arith, ltb, Bool-cases, Option-cases, inl, inr,
  subst, sym,
}
use mittnite.Proc.LazyJob.{
  u32, Watcher, resting, saw_no_connection, saw_idle, saw_process, test_connections, test_idle,
  test_process,
}
use mittnite.Proc.LazyJob.Connections.{
  World, Step, accept, refuse, count, end, close, ended, Meanwhile, here, next, Watch, tick, idle,
  process, stop, Reach, begins, steps, watches, IsCounted, Reach-IsCounted,
}

-- A tick found the counter at zero, and since then the watcher took no step.
pub record Ticked (s w : World) : Type 0 where
  pub at : World
  pub reached : Reach s at
  pub rests : at.watcher ≡ resting
  pub counter : at.job.active_connections ≡ 0
  pub connections : (at.serving + at.ending) % u32 ≡ 0
  pub between : Meanwhile (record at { watcher = saw_no_connection }) w

-- After that, the same tick found the job idle for its timeout.
pub record FoundIdle (s w : World) : Type 0 where
  pub at : World
  pub ticked : Ticked s at
  pub now : ℕ
  pub timeout : at.job.cool_down_timeout ≤ now - at.job.last_connection_closed
  pub between : Meanwhile (record at { watcher = saw_idle }) w

-- After that, the same tick found a process.
pub record FoundProcess (s w : World) : Type 0 where
  pub at : World
  pub idle : FoundIdle s at
  pub process : at.job.process ≢ none
  pub between : Meanwhile (record at { watcher = saw_process }) w

-- What a place of the watcher says of the tick so far.
abbrev Trail : World → World → Watcher → Type 0
Trail s w resting = Unit
Trail s w saw_no_connection = Ticked s w
Trail s w saw_idle = FoundIdle s w
Trail s w saw_process = FoundProcess s w

Step-watcher : {w v : World} → Step w v → v.watcher ≡ w.watcher
Step-watcher (accept w outcome _) = refl
Step-watcher (refuse w outcome _) = refl
Step-watcher (count w _) = refl
Step-watcher (end w now _) = refl
Step-watcher (close w _) = refl
Step-watcher (ended w) = refl

Step-Trail : (s w v : World) (k : Watcher) → Step w v → Trail s w k → Trail s v k
Step-Trail s w v resting st t = tt
Step-Trail s w v saw_no_connection st t = record {
  at = t.at;
  reached = t.reached;
  rests = t.rests;
  counter = t.counter;
  connections = t.connections;
  between = next t.between st;
}
Step-Trail s w v saw_idle st t = record {
  at = t.at;
  ticked = t.ticked;
  now = t.now;
  timeout = t.timeout;
  between = next t.between st;
}
Step-Trail s w v saw_process st t = record {
  at = t.at;
  idle = t.idle;
  process = t.process;
  between = next t.between st;
}

Watch-Trail :
    {s w v : World}
    → IsCounted s
    → Reach s w
    → Watch w v
    → Trail s w w.watcher
    → Trail s v v.watcher
unfolding test_connections test_idle test_process
Watch-Trail {s} c r (tick w rests) t = elim (Bool-cases (ltb 0 w.job.active_connections)) [
  | inl busy ↦ rw busy tt
  | inr free ↦
      let zero_count : w.job.active_connections ≡ 0 = ground arith in
      rw free (record {
        at = w;
        reached = r;
        rests = rests;
        counter = zero_count;
        connections = ground (arith, Reach-IsCounted c r);
        between = here;
      })
]
Watch-Trail {s} c r (idle w now saw) t =
    elim (Bool-cases (ltb (now - w.job.last_connection_closed) w.job.cool_down_timeout)) [
      | inl early ↦ rw early tt
      | inr late ↦ rw late (record {
        at = w;
        ticked = subst (Trail s w) saw t;
        now = now;
        timeout = ground (arith, late);
        between = here;
      })
    ]
Watch-Trail {s} c r (process w saw) t = elim (Option-cases w.job.process) [
  | inl nothing ↦
      let none_found : test_process w.job ≡ resting = ground arith in
      subst (λ k. Trail s (record w { watcher = k }) k) (sym none_found) tt
  | inr (pid, there) ↦
      let found : test_process w.job ≡ saw_process = ground arith in
      subst (λ k. Trail s (record w { watcher = k }) k) (sym found)
        (record {
          at = w;
          idle = subst (Trail s w) saw t;
          process = λ nothing. ground arith;
          between = here;
        })
]
Watch-Trail c r (stop w saw) t = tt

Reach-Trail : {s w : World} → s.watcher ≡ resting → IsCounted s → Reach s w → Trail s w w.watcher
Reach-Trail {s} rests c begins = subst (Trail s s) (sym rests) tt
Reach-Trail {s} rests c (steps {w} {v} r st) =
    subst (Trail s v) (sym (Step-watcher st))
      (Step-Trail s w v w.watcher st (Reach-Trail rests c r))
Reach-Trail rests c (watches r st) = Watch-Trail c r st (Reach-Trail rests c r)

-- From a world with no counted connection and the watcher at rest: wherever the watcher is about
-- to stop the process, its tick began with the counter at zero, when the number of counted
-- connections was a multiple of 2^32; later in the same tick it found the job idle for its timeout,
-- and after that a process. Between these moments, and until the stop, connections may have taken
-- steps, and the watcher has taken no other.
pub stop-FoundProcess :
    {s w : World}
    → s.watcher ≡ resting
    → s.job.active_connections ≡ 0
    → s.serving ≡ 0
    → s.ending ≡ 0
    → Reach s w
    → w.watcher ≡ saw_process
    → FoundProcess s w
stop-FoundProcess {s} {w} rests zero_count none_open none_ending r about =
    subst (Trail s w) about (Reach-Trail rests (ground arith) r)
