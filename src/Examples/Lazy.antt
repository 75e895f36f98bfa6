-- ===== src/Examples/Lazy.antt =====
-- A lazy job: a connection comes and goes, and the job cools down.
use mittnite.Prelude.{◌+◌, ◌-◌, ◌≡◌, refl, none, some, arith}
use mittnite.Proc.LazyJob.{
  got_process, assert_started, connection_opened, connection_ends, connection_closed, resting,
  saw_process, test_connections, test_idle, test_process,
}
use mittnite.Proc.LazyJob.Connections.{
  World, Reach, begins, steps, watches, accept, count, end, close, tick, idle, process,
}
use mittnite.Proc.LazyJob.Connections.Trail.{FoundProcess, stop-FoundProcess}
use mittnite.Examples.{web}

-- The process 42 was started by startOnce; `process` is set when a connection comes.
abbrev sleeping : World
sleeping = record {
  job = record {
    common = record web { base = record web.base { cmd = some 42 } };
    process = none;
    active_connections = 0;
    spin_up_timeout = 5;
    cool_down_timeout = 10;
    last_connection_closed = 0;
  };
  pending = 0;
  serving = 0;
  ending = 0;
  watcher = resting;
}

abbrev accepted : World
accepted = record sleeping {
  job = (assert_started sleeping.job (got_process 42)).0;
  pending = sleeping.pending + 1;
}

abbrev counted : World
counted = record accepted {
  job = connection_opened accepted.job;
  pending = accepted.pending - 1;
  serving = accepted.serving + 1;
}

abbrev ended_at_100 : World
ended_at_100 = record counted {
  job = connection_ends 100 counted.job;
  serving = counted.serving - 1;
  ending = counted.ending + 1;
}

abbrev closed_again : World
closed_again = record ended_at_100 {
  job = connection_closed ended_at_100.job;
  ending = ended_at_100.ending - 1;
}

closed : Reach sleeping closed_again
unfolding assert_started
closed =
    steps
      (steps
        (steps (steps begins (accept sleeping (got_process 42) refl))
          (count accepted (omega arith)))
        (end counted 100 (omega arith)))
      (close ended_at_100 (omega arith))

-- The tick at the time 110. A new connection comes and is counted after the test of the counter.
abbrev tested : World
tested = record closed_again { watcher = test_connections closed_again.job }

abbrev accepted_late : World
accepted_late = record tested {
  job = (assert_started tested.job (got_process 43)).0;
  pending = tested.pending + 1;
}

abbrev counted_late : World
counted_late = record accepted_late {
  job = connection_opened accepted_late.job;
  pending = accepted_late.pending - 1;
  serving = accepted_late.serving + 1;
}

abbrev found_idle : World
found_idle = record counted_late { watcher = test_idle 110 counted_late.job }

abbrev about_to_stop : World
about_to_stop = record found_idle { watcher = test_process found_idle.job }

reached : Reach sleeping about_to_stop
unfolding assert_started connection_opened connection_ends connection_closed test_connections
    test_idle test_process
reached =
    watches
      (watches
        (steps
          (steps (watches closed (tick closed_again refl)) (accept tested (got_process 43) refl))
          (count accepted_late (omega arith)))
        (idle counted_late 110 refl))
      (process found_idle refl)

saw : about_to_stop.watcher ≡ saw_process
unfolding assert_started connection_opened connection_ends connection_closed test_process
saw = refl

stop-FoundProcess_example : FoundProcess sleeping about_to_stop
stop-FoundProcess_example = stop-FoundProcess refl refl refl refl reached saw
