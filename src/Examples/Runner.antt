-- ===== src/Examples/Runner.antt =====
-- A runner with one job.
use mittnite.Prelude.{
  String, ◌≡◌, refl, true, false, none, some, [], ◌∷◌, ok, Result, List, err, arith, ◌+◌,
}
use mathlib.Core.List.{Perm, Nodup-nil, Nodup-cons, not-mem-nil}
use mittnite.Proc.BaseJob.{init, put_phase}
use mittnite.Proc.Phase.{set_phase, reset}
use mittnite.Proc.CommonJob.Watching.{init_job}
use mittnite.Config.{JobConfig}
use mittnite.Proc.CommonJob.{new_common_job}
use mittnite.Proc.BaseJob.StdFiles.{validate_std_files}
use mittnite.Proc.Runner.Names.Init.{init_runner-IsValid}
use mittnite.Proc.Runner.{Maker, init_runner, new_runner, Runner, common, start_job, exec}
use mittnite.Proc.Runner.Names.{IsValid}
use mittnite.Proc.Runner.Names.Keeps.{left_by}
use mittnite.Proc.Runner.Tick.{tick}
use mittnite.Proc.Runner.Tick.Keeps.{tick-IsValid}
use mittnite.Proc.Runner.Main.{Loop, begin, Reach, here, there, job_ends, wait_returns, on_done}
use mittnite.Proc.Runner.Main.Keeps.{AllEnded, finished-all_ended}
use mittnite.Examples.{web, one_file}

abbrev pub one_job : Runner
one_job = record {
  jobs = 0 ∷ [];
  heap = λ ref. common web;
  fresh = 1;
  wait_group = some 0;
  keep_running = false;
  job_configs = web.config ∷ [];
  launched = [];
  effects = [];
}

pub one_job-IsValid : IsValid one_job
one_job-IsValid = record {
  distinct = Nodup-cons.1 (not-mem-nil, Nodup-nil);
  allocated = (omega arith, tt);
}

tick-IsValid_example :
    IsValid (left_by (tick 9 one_file one_job))
    × Perm one_job.jobs (left_by (tick 9 one_file one_job)).jobs
tick-IsValid_example = tick-IsValid 9 one_file one_job one_job-IsValid

abbrev ok_or : Loop → Result Runner Loop → Loop
ok_or s (ok t) = t
ok_or s (err _) = s

abbrev at_start : Loop
at_start = ok_or (record { runner = one_job; done = none; ended = 0 }) (begin 9 one_file one_job)

begins : begin 9 one_file one_job ≡ ok at_start
unfolding begin exec start_job init_job put_phase init set_phase reset
begins = refl

-- The job ends, and the wait for the group returns.
abbrev job_ended : Loop
job_ended = record at_start {
  runner = record at_start.runner { wait_group = some 0 };
  ended = at_start.ended + 1;
}

ends : Reach at_start (record job_ended { done = some true })
unfolding begin exec start_job init_job put_phase init set_phase reset
ends = there (there here (job_ends refl)) (wait_returns refl refl)

finished-all_ended_example :
    (at_start.runner.keep_running ≡ false)
    × AllEnded at_start (record job_ended { done = some true })
finished-all_ended_example =
    finished-all_ended 9 one_file one_job at_start (record job_ended { done = some true }) begins
      ends (on_done refl)

abbrev maker : Maker
maker = record { now = 7; prepare = λ path. ok 3; parse_duration = λ text. ok 0 }

-- Two entries of one name.
abbrev configs : List JobConfig
configs = web.config ∷ web.config ∷ []

abbrev runner_or : Runner → Result String Runner → Runner
runner_or r (ok s) = s
runner_or r (err _) = r

abbrev ready_runner : Runner
ready_runner = runner_or one_job (init_runner maker (new_runner (λ ref. common web) false configs))

initialised : init_runner maker (new_runner (λ ref. common web) false configs) ≡ ok ready_runner
unfolding init_runner new_runner new_common_job validate_std_files
initialised = refl

init_runner-IsValid_example : IsValid ready_runner
init_runner-IsValid_example =
    init_runner-IsValid maker (λ ref. common web) false configs ready_runner initialised
