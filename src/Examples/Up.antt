-- ===== src/Examples/Up.antt =====
-- The command `up` with one job, one probe and a directory of one file.
use mittnite.Prelude.{
  ℕ, ◌≡◌, ◌≢◌, refl, String, true, false, Option, none, some, List, [], ◌∷◌, ok, err, arith, ◌==◌,
  string_eq, if◌then◌else◌,
}
use mittnite.Config.{Ignition, BootJobConfig}
use mittnite.Config.Text.{trim_right}
use mittnite.Config.Load.{
  generate_from_config_dir, after_find, after_load, find_in_path, find_loop, require_match,
  load_files, apply_job_log_defaults, apply_job, apply_defaults,
}
use mittnite.Files.{render_files}
use mittnite.PidFile.{
  World, acquire, release, made, opened, create_file, written, closed, removed, new_pid_file,
}
use mittnite.Probes.{
  alive, ticks, wait, build_probes_from_config, build_loop, filter_wait_probes, filter_loop,
}
use mittnite.Proc.BootJob.{boot_ctx_err}
use mittnite.Proc.CommonJob.{new_common_job}
use mittnite.Proc.BaseJob.StdFiles.{validate_std_files}
use mittnite.Proc.Runner.{new_runner, init_runner, init_loop, make_job, labelled}
use mittnite.Proc.Runner.Main.{finished}
use mittnite.Cmd.{log_fatal, exit_func, recovered}
use mittnite.Cmd.Env.{env_job_log_timestamps}
use mittnite.Cmd.Up.{
  Ended, crashed, Flags, Machine, up, run_e, waited, acquired, released, configured, rendered,
  initialised, booted_with, boot_jobs, run_jobs, after_fatal, ending, deferred, started_api,
  wait_on, new_probe_handler, handler_of,
}
use mittnite.Cmd.Up.Order.{ran, is_run, with_defaults, Released, run_e-ran}
use mittnite.Cmd.Up.Leaves.{up_removes_pid_file}
use mittnite.Cmd.Up.Boots.{with_good_boot, failed_boot-same}
use mittnite.Examples.{web}
use mittnite.Examples.Config.{visit}
use mittnite.Examples.PidFile.{clean, path_given}
use mittnite.Examples.Files.{engine}
use mittnite.Examples.Probes.{makers}
use mittnite.Examples.Runner.{one_job}
use mittnite.Examples.Api.{system}

abbrev config : Ignition ℕ
config = record { probes = []; files = []; jobs = web.config ∷ []; boot_jobs = [] }

abbrev machine : Machine ℕ String ℕ
machine = record {
  source = record {
    walk = λ dir. visit "a.hcl" ∷ [];
    read_file = λ path. ok "";
    unmarshal = λ text c. ok config;
  };
  empty_config = record config { jobs = [] };
  engine = engine;
  makers = makers;
  events = ticks (λ p. alive) ∷ [];
  nothing = one_job.heap;
  maker = system.maker;
  boot = λ cs. err "no such command";
  run = λ r. finished;
}

abbrev flags : Flags
flags = record {
  config_dir = "/etc/";
  pid_file = "/run/pid";
  api_enabled = true;
  keep_running = false;
  job_log_timestamps = true;
  job_log_name_prefix = true;
}

abbrev value_of : {A : Type 0} → A → Option A → A
value_of default none = default
value_of default (some a) = a

abbrev nothing_done : Ended
nothing_done = record { disk = []; marks = []; result = crashed }

abbrev outcome : Ended
outcome = value_of nothing_done (run_e flags machine [])

ended : run_e flags machine [] ≡ some outcome
unfolding run_e configured rendered initialised waited booted_with boot_jobs wait_on wait
    new_probe_handler handler_of build_probes_from_config build_loop filter_wait_probes filter_loop
    render_files init_runner init_loop make_job labelled new_common_job validate_std_files
    generate_from_config_dir after_find after_load find_in_path find_loop require_match load_files
    trim_right apply_job_log_defaults apply_job apply_defaults new_runner
ended = refl

started : ran outcome.marks ≡ true
unfolding ran is_run run_e configured rendered initialised waited booted_with after_fatal log_fatal
    exit_func recovered run_jobs ending deferred started_api boot_jobs wait_on wait
    new_probe_handler handler_of build_probes_from_config build_loop filter_wait_probes filter_loop
    render_files init_runner init_loop make_job labelled new_common_job validate_std_files
    generate_from_config_dir after_find after_load find_in_path find_loop require_match load_files
    trim_right apply_job_log_defaults apply_job apply_defaults new_runner
started = refl

run_e-ran_example :
    (let loaded = generate_from_config_dir machine.source "/etc/" machine.empty_config in
      (loaded.error ≡ none)
      × ((render_files machine.engine (with_defaults flags machine loaded.config).files []).1
          ≡ none)
      × Released
          (new_probe_handler machine.makers (with_defaults flags machine loaded.config))
          machine.events)
run_e-ran_example = run_e-ran flags machine [] outcome ended started

not_cancelled : (cs : List BootJobConfig) → machine.boot cs ≢ ok boot_ctx_err
not_cancelled cs e = ground arith

failed_boot-same_example : up flags machine clean [] ≡ up flags (with_good_boot machine) clean []
failed_boot-same_example = failed_boot-same flags machine not_cancelled clean []

-- A directory without a configuration: `up` fails once the pid file is written.
abbrev bare : Machine ℕ String ℕ
bare = record machine { source = record machine.source { walk = λ dir. [] } }

abbrev both : World × Ended
both = value_of (clean, nothing_done) (up flags bare clean [])

failed : up flags bare clean [] ≡ some both
unfolding up acquired released acquire made opened create_file written release closed removed
    new_pid_file run_e configured generate_from_config_dir after_find find_in_path find_loop
    require_match trim_right
failed = refl

up_removes_pid_file_example : both.0.file ≡ none
up_removes_pid_file_example =
    up_removes_pid_file flags bare clean [] both.0 both.1 path_given refl refl refl refl refl refl
      failed

abbrev environment : String → Option String
environment key = if key == env_job_log_timestamps then some "yes" else none
