-- ===== src/Cmd/Up.antt =====
-- The command `up` of cmd/up.go: from the pid file to the end of the runner.
pub mod Order
pub mod Leaves
pub mod Boots
use mittnite.Prelude.{
  ℕ, String, Bool, true, false, Option, none, some, List, [], ◌∷◌, ◌++◌, Result, ok, err,
  if◌then◌else◌,
}
use mittnite.Config.{Ignition, BootJobConfig}
use mittnite.Config.Load.{Source, Loaded, generate_from_config_dir, apply_job_log_defaults}
use mittnite.PidFile.{World, PidError, new_pid_file, acquire, release}
use mittnite.Files.{Engine, Disk, render_files}
use mittnite.Probes.{
  Makers, Event, ticks, signals, WaitResult, done, interrupted, exited, panicked, stops, wait,
  build_probes_from_config, filter_wait_probes,
}
use mittnite.Proc.BootJob.{BootResult, booted, boot_failed, boot_ctx_err}
use mittnite.Proc.Runner.{Job, Runner, Maker, new_runner, init_runner}
use mittnite.Proc.Runner.Main.{RunResult, finished, job_failed, ctx_err}
use mittnite.Cmd.{Flow, returns, panics, log_fatal}

pub record Flags : Type 0 where
  pub config_dir : String
  pub pid_file : String
  pub api_enabled : Bool
  pub keep_running : Bool
  pub job_log_timestamps : Bool
  pub job_log_name_prefix : Bool

-- What RunE calls: libraries, and the runner's Boot and Run with what they come to. The events are
-- those that the wait for readiness sees. `nothing` is the unused part of a new runner.
pub record Machine (P T Q : Type 0) : Type 1 where
  pub source : Source P
  pub empty_config : Ignition P
  pub engine : Engine P T
  pub makers : Makers Q
  pub events : List (Event Q)
  pub nothing : ℕ → Job
  pub maker : Maker
  pub boot : List BootJobConfig → Result String BootResult
  pub run : Runner → RunResult

-- What happened, in this order. `runs` is the call of Run, which starts the jobs.
pub data Mark : Type 0 where
  renders serves_probes reaps_zombies serves_api waits boots runs shuts_api_down cancels
        removes_pid_file :
      Mark

pub data UpError : Type 0 where
  no_pid_file : PidError → UpError
  no_config not_rendered not_initialised : String → UpError
  not_ready : UpError

pub data UpResult : Type 0 where
  returned : Option UpError → UpResult
  crashed : UpResult

pub record Ended : Type 0 where
  pub disk : Disk
  pub marks : List Mark
  pub result : UpResult

-- Wait on the nil handler: the first tick reads a field of it.
unfoldable pub wait_nil : {Q : Type 0} → List (Event Q) → Option WaitResult
wait_nil [] = none
wait_nil (ticks exec ∷ es) = some panicked
wait_nil (signals sig ∷ es) =
    let later = wait_nil es in if stops sig then some interrupted else later

unfoldable pub handler_of :
    {Q : Type 0}
    → (List (String × Q) → List (String × Option Q))
    → List (String × Q) × List String
    → Option (List (String × Option Q))
handler_of waits_for (probes, []) = some (waits_for probes)
handler_of waits_for (probes, e ∷ es) = none

-- NewProbeHandler: the probes to wait for, or the nil handler, whose error RunE drops.
unfoldable pub new_probe_handler :
    {P Q : Type 0} → Makers Q → Ignition P → Option (List (String × Option Q))
unfolding handler_of
new_probe_handler make c =
    handler_of (filter_wait_probes make c.probes) (build_probes_from_config make c.probes)

unfoldable pub wait_on :
    {Q : Type 0} → Option (List (String × Option Q)) → List (Event Q) → Option WaitResult
unfolding wait_nil
wait_on none es = wait_nil es
wait_on (some ps) es = wait ps es

-- The switch on the result of Run.
unfoldable pub switched : RunResult → Flow
switched finished = returns
switched ctx_err = returns
switched (job_failed e) = log_fatal

unfoldable pub result_of : Flow → UpResult
result_of returns = returned none
result_of (panics message) = crashed

-- The deferred calls once the runner is made.
unfoldable pub deferred : Bool → List Mark
deferred api_enabled = if api_enabled then shuts_api_down ∷ cancels ∷ [] else cancels ∷ []

unfoldable pub started_api : Bool → List Mark
started_api api_enabled = if api_enabled then serves_api ∷ [] else []

module _ {P T Q : Type 0} (flags : Flags) (m : Machine P T Q) where
  unfoldable pub ending : Disk → List Mark → UpResult → Ended
  unfolding deferred
  ending d marks x = record { disk = d; marks = marks ++ deferred flags.api_enabled; result = x }

  unfoldable pub run_jobs : Disk → List Mark → Runner → Ended
  unfolding ending switched result_of
  run_jobs d marks r = ending d (marks ++ runs ∷ []) (result_of (switched (m.run r)))

  -- After a failed Boot, once log.Fatal is back or has panicked.
  unfoldable pub after_fatal : Disk → List Mark → Runner → Flow → Ended
  unfolding run_jobs ending
  after_fatal d marks r returns = run_jobs d marks r
  after_fatal d marks r (panics message) = ending d marks crashed

  unfoldable pub booted_with : Disk → List Mark → Runner → Result String BootResult → Ended
  unfolding run_jobs after_fatal ending
  booted_with d marks r (ok booted) = run_jobs d marks r
  booted_with d marks r (ok boot_ctx_err) = ending d marks (returned none)
  booted_with d marks r (ok (boot_failed e)) = after_fatal d marks r log_fatal
  booted_with d marks r (err e) = after_fatal d marks r log_fatal

  unfoldable pub boot_jobs : Disk → List Mark → Ignition P → Runner → Ended
  unfolding booted_with
  boot_jobs d marks c r = booted_with d (marks ++ boots ∷ []) r (m.boot c.boot_jobs)

  -- Behind log.Fatal in Wait stands `return nil`.
  unfoldable pub after_wait_fatal : Disk → List Mark → Ignition P → Runner → Flow → Ended
  unfolding boot_jobs ending
  after_wait_fatal d marks c r returns = boot_jobs d marks c r
  after_wait_fatal d marks c r (panics message) = ending d marks crashed

  unfoldable pub waited : Disk → List Mark → Ignition P → Runner → Option WaitResult → Option Ended
  unfolding boot_jobs after_wait_fatal ending
  waited d marks c r none = none
  waited d marks c r (some done) = some (boot_jobs d marks c r)
  waited d marks c r (some exited) = some (after_wait_fatal d marks c r log_fatal)
  waited d marks c r (some interrupted) = some (ending d marks (returned (some not_ready)))
  waited d marks c r (some panicked) = some (ending d marks crashed)

  unfoldable pub initialised : Disk → List Mark → Ignition P → Result String Runner → Option Ended
  unfolding waited ending new_probe_handler wait_on started_api
  initialised d marks c (err e) = some (ending d marks (returned (some (not_initialised e))))
  initialised d marks c (ok r) =
      waited d (marks ++ started_api flags.api_enabled ++ waits ∷ []) c r
        (wait_on (new_probe_handler m.makers c) m.events)

  unfoldable pub rendered : Ignition P → Disk × Option String → Option Ended
  unfolding initialised
  rendered c (d, some e) =
      some (record { disk = d; marks = renders ∷ []; result = returned (some (not_rendered e)) })
  rendered c (d, none) =
      initialised d (renders ∷ serves_probes ∷ reaps_zombies ∷ []) c
        (init_runner m.maker (new_runner m.nothing flags.keep_running c.jobs))

  unfoldable pub configured : Disk → Ignition P → Option String → Option Ended
  unfolding rendered
  configured d c (some e) =
      some (record { disk = d; marks = []; result = returned (some (no_config e)) })
  configured d c none =
      let c' = apply_job_log_defaults flags.job_log_timestamps flags.job_log_name_prefix c in
      rendered c' (render_files m.engine c'.files d)

  -- RunE behind the pid file; `none` while it waits for readiness.
  unfoldable pub run_e : Disk → Option Ended
  unfolding configured
  run_e d =
      let loaded = generate_from_config_dir m.source flags.config_dir m.empty_config in
      configured d loaded.config loaded.error

  -- The deferred call of Release, whose error is logged.
  unfoldable pub released : World → Option Ended → Option (World × Ended)
  released w none = none
  released w (some x) = some (
    (release (new_pid_file flags.pid_file) w).0,
    record x { marks = x.marks ++ removes_pid_file ∷ [] },
  )

  unfoldable pub acquired : Disk → Option (World × Option PidError) → Option (World × Ended)
  unfolding released
  acquired d none = none
  acquired d (some (w, some e)) =
      some (w, record { disk = d; marks = []; result = returned (some (no_pid_file e)) })
  acquired d (some (w, none)) = released w (run_e d)

  -- RunE of `up`; Acquire calls itself at most once.
  unfoldable pub up : World → Disk → Option (World × Ended)
  unfolding acquired
  up w d = acquired d (acquire 2 (new_pid_file flags.pid_file) w)
