-- ===== src/Cmd/Up/Order.antt =====
-- What has happened before `up` starts the jobs.
use mittnite.Prelude.{
  String, ◌≡◌, refl, Bool, true, false, ◌||◌, Option, none, some, List, [], ◌∷◌, ◌++◌, Result, ok,
  err, ◌⊎◌, inl, inr, arith, Bool-cases,
}
use mittnite.Config.{Ignition}
use mittnite.Config.Load.{generate_from_config_dir, apply_job_log_defaults}
use mittnite.Files.{Disk, render_files}
use mittnite.Probes.{
  Event, ticks, signals, stops, WaitResult, done, interrupted, exited, panicked, wait,
}
use mittnite.Probes.Ready.{Readied, wait-Readied}
use mittnite.Proc.Runner.{Runner, new_runner, init_runner}
use mittnite.Cmd.Up.{
  Flags, Machine, Mark, renders, serves_probes, reaps_zombies, waits, runs, UpResult, Ended,
  wait_nil, wait_on, new_probe_handler, deferred, started_api, ending, waited, initialised,
  rendered, configured, run_e,
}

unfoldable pub is_run : Mark → Bool
is_run runs = true
is_run _ = false

-- The jobs were started.
unfoldable pub ran : List Mark → Bool
unfolding is_run
ran [] = false
ran (m ∷ ms) = is_run m || ran ms

ran-append : (xs ys : List Mark) → ran xs ≡ false → ran ys ≡ false → ran (xs ++ ys) ≡ false
unfolding ran
ran-append [] ys hx hy = hy
ran-append (x ∷ xs) ys hx hy = ground (arith, ran-append xs ys)

module _ {Q : Type 0} where
  -- The wait for readiness has let the start go on: at a tick at which each probe was alive and
  -- before which no signal came, or because a probe's path did not exist.
  abbrev pub Released : Option (List (String × Option Q)) → List (Event Q) → Type 0
  Released none es = ⊥
  Released (some ps) es = Readied ps es ⊎ (wait ps es ≡ some exited)

  wait_nil-stays :
      (es : List (Event Q)) (o : Option WaitResult)
      → wait_nil es ≡ o
      → (o ≡ some done) ⊎ (o ≡ some exited)
      → ⊥
  unfolding wait_nil
  wait_nil-stays [] o e h = ground arith
  wait_nil-stays (ticks exec ∷ es) o e h = ground arith
  wait_nil-stays (signals sig ∷ es) o e h = elim (Bool-cases (stops sig)) [
    | inl stop ↦ ground (arith, stop)
    | inr other ↦ wait_nil-stays es o (rw other at e) h
  ]

  wait_on-Released :
      (h : Option (List (String × Option Q))) (es : List (Event Q))
      → (wait_on h es ≡ some done) ⊎ (wait_on h es ≡ some exited)
      → Released h es
  unfolding wait_on
  wait_on-Released none es ended = wait_nil-stays es (wait_nil es) refl ended
  wait_on-Released (some ps) es (inl ready) = inl (wait-Readied ps es ready)
  wait_on-Released (some ps) es (inr exits) = inr exits

module _ {P T Q : Type 0} (flags : Flags) (m : Machine P T Q) where
  deferred-ran : (b : Bool) → ran (deferred b) ≡ false
  unfolding deferred ran
  deferred-ran true = refl
  deferred-ran false = refl

  ending-ran :
      (d : Disk) (marks : List Mark) (u : UpResult)
      → ran marks ≡ false
      → ran (ending flags m d marks u).marks ≡ false
  unfolding ending
  ending-ran d marks u h =
      ran-append marks (deferred flags.api_enabled) h (deferred-ran flags.api_enabled)

  waited-ran :
      (d : Disk) (marks : List Mark) (c : Ignition P) (r : Runner) (o : Option WaitResult)
      (x : Ended)
      → ran marks ≡ false
      → waited flags m d marks c r o ≡ some x
      → ran x.marks ≡ true
      → (o ≡ some done) ⊎ (o ≡ some exited)
  unfolding waited
  waited-ran d marks c r none x h e started = ground arith
  waited-ran d marks c r (some done) x h e started = inl refl
  waited-ran d marks c r (some exited) x h e started = inr refl
  waited-ran d marks c r (some interrupted) x h e started = ground (arith, e, ending-ran d marks)
  waited-ran d marks c r (some panicked) x h e started = ground (arith, e, ending-ran d marks)

  started_api-ran : (b : Bool) → ran (started_api b) ≡ false
  unfolding started_api ran
  started_api-ran true = refl
  started_api-ran false = refl

  begun-ran :
      (b : Bool) (marks : List Mark)
      → ran marks ≡ false
      → ran (marks ++ started_api b ++ waits ∷ []) ≡ false
  unfolding ran
  begun-ran b marks h =
      ran-append (marks ++ started_api b) (waits ∷ [])
        (ran-append marks (started_api b) h (started_api-ran b)) refl

  initialised-ran :
      (d : Disk) (marks : List Mark) (c : Ignition P) (y : Result String Runner) (x : Ended)
      → ran marks ≡ false
      → initialised flags m d marks c y ≡ some x
      → ran x.marks ≡ true
      → Released (new_probe_handler m.makers c) m.events
  unfolding initialised
  initialised-ran d marks c (err e) x h eq started = ground (arith, eq, ending-ran d marks)
  initialised-ran d marks c (ok r) x h eq started =
      wait_on-Released (new_probe_handler m.makers c) m.events (
        waited-ran d (marks ++ started_api flags.api_enabled ++ waits ∷ []) c r
          (wait_on (new_probe_handler m.makers c) m.events) x (begun-ran flags.api_enabled marks h)
          eq started)

  rendered-ran :
      (c : Ignition P) (y : Disk × Option String) (x : Ended)
      → rendered flags m c y ≡ some x
      → ran x.marks ≡ true
      → (y.1 ≡ none) × Released (new_probe_handler m.makers c) m.events
  unfolding rendered ran
  rendered-ran c (d, some e) x eq started = ground (arith, eq)
  rendered-ran c (d, none) x eq started = (
    refl,
    initialised-ran d (renders ∷ serves_probes ∷ reaps_zombies ∷ []) c
        (init_runner m.maker (new_runner m.nothing flags.keep_running c.jobs)) x refl eq started,
  )

  -- The configuration with the defaults for the decoration of output.
  abbrev pub with_defaults : Ignition P → Ignition P
  with_defaults = apply_job_log_defaults flags.job_log_timestamps flags.job_log_name_prefix

  configured-ran :
      (d : Disk) (c : Ignition P) (o : Option String) (x : Ended)
      → configured flags m d c o ≡ some x
      → ran x.marks ≡ true
      → (o ≡ none)
        × ((render_files m.engine (with_defaults c).files d).1 ≡ none)
        × Released (new_probe_handler m.makers (with_defaults c)) m.events
  unfolding configured ran
  configured-ran d c (some e) x eq started = ground (arith, eq)
  configured-ran d c none x eq started =
      let (rendering, let_go) =
        rendered-ran (with_defaults c) (render_files m.engine (with_defaults c).files d) x eq
          started in
      (refl, rendering, let_go)

  -- `up` starts jobs only if the configuration directory was read without an error, every file was
  -- rendered, the probes were built without an error, and the wait for readiness let it go on: at a
  -- tick at which each probe was alive, before any SIGTERM or SIGINT, or because the path of a
  -- probe does not exist.
  pub run_e-ran :
      (d : Disk) (x : Ended)
      → run_e flags m d ≡ some x
      → ran x.marks ≡ true
      → (let loaded = generate_from_config_dir m.source flags.config_dir m.empty_config in
          (loaded.error ≡ none)
          × ((render_files m.engine (with_defaults loaded.config).files d).1 ≡ none)
          × Released (new_probe_handler m.makers (with_defaults loaded.config)) m.events)
  unfolding run_e
  run_e-ran d x eq started =
      let loaded = generate_from_config_dir m.source flags.config_dir m.empty_config in
      configured-ran d loaded.config loaded.error x eq started
