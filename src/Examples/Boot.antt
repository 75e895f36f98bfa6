-- ===== src/Examples/Boot.antt =====
-- One boot job whose process ends well.
use mittnite.Prelude.{◌≡◌, refl, false, none, List, [], ◌∷◌, ok, All}
use mittnite.Proc.BaseJob.{init}
use mittnite.Proc.BaseJob.StdFiles.{create_and_open_std_file}
use mittnite.Proc.BaseJob.StartOnce.{Attempt, exited, passive, start_once}
use mittnite.Proc.BaseJob.StartOnce.Results.{start_once-exited}
use mittnite.Proc.BootJob.{
  BootJob, Booting, this_job, here, there, begin_boot, run_ends, all_ended, ended,
}
use mittnite.Proc.BootJob.Succeeds.{Succeeded, booted-Succeeded, status-run_ends}
use mittnite.Examples.{base_config}

abbrev migrate : BootJob
migrate = record {
  base = init 7 (base_config "migrate" false);
  config = record { base = base_config "migrate" false; timeout = "" };
  timeout = 30;
}

abbrev good_run : Attempt
good_run = record {
  opens = record { for_stdout = ok 3; for_stderr = ok 4 };
  stdout_pipe = none;
  stderr_pipe = none;
  start = ok 99;
  meanwhile = [];
  ending = exited none;
}

abbrev jobs : List (BootJob × Attempt)
jobs = (migrate, good_run) ∷ []

abbrev all_done : List Booting
all_done = run_ends (begin_boot (migrate, good_run)) ∷ []

runs_well : (start_once passive migrate.base good_run).error ≡ none
unfolding init create_and_open_std_file
runs_well = start_once-exited passive migrate.base good_run none 99 refl refl refl refl refl

ends_well : (run_ends (begin_boot (migrate, good_run))).status ≡ ended
ends_well = status-run_ends (begin_boot (migrate, good_run)) runs_well

booted-Succeeded_example : All Succeeded jobs
booted-Succeeded_example =
    booted-Succeeded jobs all_done (there here (this_job refl)) (all_ended (ends_well, tt))
