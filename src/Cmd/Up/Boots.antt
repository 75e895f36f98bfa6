-- ===== src/Cmd/Up/Boots.antt =====
-- What a failed boot changes.
use mittnite.Prelude.{
  String, ◌≡◌, ◌≢◌, refl, ap, Option, none, some, List, [], ◌∷◌, ◌++◌, Result, ok, err,
}
use mittnite.Config.{Ignition, BootJobConfig}
use mittnite.Config.Load.{generate_from_config_dir, apply_job_log_defaults}
use mittnite.PidFile.{World, PidError, new_pid_file, acquire}
use mittnite.Files.{Disk, render_files}
use mittnite.Probes.{
  WaitResult, done, interrupted, exited, panicked, wait, Event, ticks, Exec, path_error,
}
use mittnite.Probes.Ready.{exited-wait}
use mittnite.Proc.BootJob.{BootResult, booted, boot_failed, boot_ctx_err}
use mittnite.Proc.Runner.{Runner, new_runner, init_runner}
use mittnite.Cmd.{log_fatal}
use mittnite.Cmd.Up.{
  Flags, Machine, Mark, renders, serves_probes, reaps_zombies, boots, waits, started_api, wait_on,
  new_probe_handler, run_e, released, acquired, up, booted_with, after_fatal, boot_jobs, run_jobs,
  waited, after_wait_fatal, initialised, rendered, configured,
}

-- The same machine, where the boot jobs succeed.
abbrev pub with_good_boot : {P T Q : Type 0} → Machine P T Q → Machine P T Q
with_good_boot m = record m { boot = λ cs. ok booted }

module _ {P T Q : Type 0} (flags : Flags) (m : Machine P T Q)
    (not_cancelled : (cs : List BootJobConfig) → m.boot cs ≢ ok boot_ctx_err) where
  booted_with-same :
      (d : Disk) (marks : List Mark) (r : Runner) (x : Result String BootResult)
      → x ≢ ok boot_ctx_err
      → booted_with flags m d marks r x ≡ run_jobs flags m d marks r
  unfolding booted_with after_fatal log_fatal
  booted_with-same d marks r (ok booted) other = refl
  booted_with-same d marks r (ok boot_ctx_err) other = absurd (other refl)
  booted_with-same d marks r (ok (boot_failed e)) other = refl
  booted_with-same d marks r (err e) other = refl

  boot_jobs-same :
      (d : Disk) (marks : List Mark) (c : Ignition P) (r : Runner)
      → boot_jobs flags m d marks c r ≡ boot_jobs flags (with_good_boot m) d marks c r
  unfolding boot_jobs booted_with run_jobs
  boot_jobs-same d marks c r =
      booted_with-same d (marks ++ boots ∷ []) r (m.boot c.boot_jobs) (not_cancelled c.boot_jobs)

  waited-same :
      (d : Disk) (marks : List Mark) (c : Ignition P) (r : Runner) (o : Option WaitResult)
      → waited flags m d marks c r o ≡ waited flags (with_good_boot m) d marks c r o
  unfolding waited after_wait_fatal log_fatal
  waited-same d marks c r none = refl
  waited-same d marks c r (some done) = ap some (boot_jobs-same d marks c r)
  waited-same d marks c r (some exited) = ap some (boot_jobs-same d marks c r)
  waited-same d marks c r (some interrupted) = refl
  waited-same d marks c r (some panicked) = refl

  initialised-same :
      (d : Disk) (marks : List Mark) (c : Ignition P) (x : Result String Runner)
      → initialised flags m d marks c x ≡ initialised flags (with_good_boot m) d marks c x
  unfolding initialised
  initialised-same d marks c (err e) = refl
  initialised-same d marks c (ok r) =
      waited-same d (marks ++ started_api flags.api_enabled ++ waits ∷ []) c r
        (wait_on (new_probe_handler m.makers c) m.events)

  rendered-same :
      (c : Ignition P) (x : Disk × Option String)
      → rendered flags m c x ≡ rendered flags (with_good_boot m) c x
  unfolding rendered
  rendered-same c (d, some e) = refl
  rendered-same c (d, none) =
      initialised-same d (renders ∷ serves_probes ∷ reaps_zombies ∷ []) c
        (init_runner m.maker (new_runner m.nothing flags.keep_running c.jobs))

  configured-same :
      (d : Disk) (c : Ignition P) (o : Option String)
      → configured flags m d c o ≡ configured flags (with_good_boot m) d c o
  unfolding configured
  configured-same d c (some e) = refl
  configured-same d c none =
      let c' = apply_job_log_defaults flags.job_log_timestamps flags.job_log_name_prefix c in
      rendered-same c' (render_files m.engine c'.files d)

  acquired-same :
      (d : Disk) (o : Option (World × Option PidError))
      → acquired flags m d o ≡ acquired flags (with_good_boot m) d o
  unfolding acquired run_e released
  acquired-same d none = refl
  acquired-same d (some (w, some e)) = refl
  acquired-same d (some (w, none)) =
      let loaded = generate_from_config_dir m.source flags.config_dir m.empty_config in
      ap (released flags m w) (configured-same d loaded.config loaded.error)

  -- A boot job that fails, or that cannot be made, changes nothing: the jobs are started and `up`
  -- ends as if the boot had succeeded, since log.Fatal returns. Only a cancelled boot is different.
  pub failed_boot-same : (w : World) (d : Disk) → up flags m w d ≡ up flags (with_good_boot m) w d
  unfolding up
  failed_boot-same w d = acquired-same d (acquire 2 (new_pid_file flags.pid_file) w)

module _ {P T Q : Type 0} (flags : Flags) (m : Machine P T Q) where
  -- Where the path of the first probe to wait for does not exist at the first tick, which the wait
  -- reports as fatal, `up` goes on as if all probes were ready.
  pub missing_path-same :
      (d : Disk) (marks : List Mark) (c : Ignition P) (r : Runner) (n : String) (p : Q)
      (ps : List (String × Option Q)) (exec : Q → Exec) (es : List (Event Q))
      → exec p ≡ path_error
      → waited flags m d marks c r (wait ((n, some p) ∷ ps) (ticks exec ∷ es))
        ≡ waited flags m d marks c r (some done)
  unfolding waited after_wait_fatal log_fatal
  missing_path-same d marks c r n p ps exec es missing =
      rw (exited-wait n p ps exec es missing) refl
