-- ===== src/Examples.antt =====
-- Sample configurations and jobs, for the examples and tests of the modules below.
pub mod Config
pub mod Runs
pub mod Loops
pub mod Watching
pub mod Lazy
pub mod Runner
pub mod Api
pub mod PidFile
pub mod Reaper
pub mod Output
pub mod Boot
pub mod Probes
pub mod Kinds
pub mod Files
pub mod Up
pub mod Ctl
pub mod Streams
pub mod Listener
use mittnite.Prelude.{
  String, Bool, true, false, none, some, List, [], ◌∷◌, pos, ◌==◌, string_eq, if◌then◌else◌,
}
use mittnite.Config.{BaseJobConfig, JobConfig, Watch, BootJobConfig}
use mittnite.Proc.BaseJob.{BaseJob, init}
use mittnite.Proc.CommonJob.{CommonJob}
use mittnite.Proc.CommonJob.Watching.{FileSystem, Stat, present, missing}

abbrev pub base_config : String → Bool → BaseJobConfig
base_config n controllable = record {
  name = n;
  command = "/bin/serve";
  args = [];
  env = [];
  can_fail = false;
  controllable = controllable;
  working_directory = "";
  stdout = "/var/log/out";
  stderr = "/var/log/err";
  enable_timestamps = some true;
  timestamp_format = "";
  custom_timestamp_format = "";
  enable_name_prefix = none;
}

abbrev pub job_config : String → Bool → List Watch → JobConfig
job_config n controllable watches = record {
  base = base_config n controllable;
  watches = watches;
  max_attempts_deprecated = none;
  max_attempts = some (pos 2);
  one_time = false;
  laziness = none;
  listeners = [];
}

abbrev pub watch_of : String → Watch
watch_of pattern = record {
  filename = pattern;
  signal = pos 12;
  restart = false;
  pre_command = none;
  post_command = none;
}

abbrev pub job_of : JobConfig → CommonJob
job_of c = record { base = init 7 c.base; config = c; watching_files = [] }

abbrev pub web : CommonJob
web = job_of (job_config "web" true (watch_of "*.conf" ∷ []))

-- One file, /a.conf, which the pattern *.conf matches.
abbrev pub one_file : FileSystem
one_file = record {
  glob = λ pattern. some (if pattern == "*.conf" then "/a.conf" ∷ [] else []);
  stat = λ path. if path == "/a.conf" then present 5 else missing;
}
