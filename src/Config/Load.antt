-- ===== src/Config/Load.antt =====
-- internal/config/ignitionconfig.go and find.go: reading the configuration directory, and the
-- defaults for the decoration of job output.
pub mod Defaults
pub mod Deprecated
use mittnite.Prelude.{
  String, ◌<>◌, ◌≡◌, refl, Bool, true, false, Option, none, some, List, [], ◌∷◌, ◌++◌, map, Result,
  ok, err, if◌then◌else◌, ℤ,
}
use mittnite.Config.{Ignition, JobConfig, BootJobConfig, BaseJobConfig}
use mittnite.Config.Text.{has_suffix, trim_right}

-- One call of the function that `findInPath` hands to `filepath.Walk`.
pub record Visit : Type 0 where
  pub path : String
  pub name : String
  pub error : Option String

-- The walk stops at the first error, with what it has matched so far.
unfoldable pub find_loop : List Visit → List String → List String × Option String
find_loop [] matches = (matches, none)
find_loop (v ∷ vs) matches = elim v.error [
  | some e ↦ (matches, some e)
  | none ↦ find_loop vs (if has_suffix v.name "hcl" then matches ++ v.path ∷ [] else matches)
]

unfoldable pub require_match : String → List String × Option String → List String × Option String
require_match dir (matches, some e) = (matches, some e)
require_match dir ([], none) = ([], some ("could not find any configuration files in " <> dir))
require_match dir (m ∷ ms, none) = (m ∷ ms, none)

unfoldable pub find_in_path : (String → List Visit) → String → List String × Option String
unfolding find_loop require_match
find_in_path walk config_dir = require_match config_dir (find_loop (walk config_dir) [])

-- The file system and the HCL decoder, which adds what a file holds to the configuration.
pub record Source (P : Type 0) : Type 1 where
  pub walk : String → List Visit
  pub read_file : String → Result String String
  pub unmarshal : String → Ignition P → Result String (Ignition P)

pub record Loaded (P : Type 0) : Type 0 where
  pub config : Ignition P
  pub error : Option String
  pub warnings : List String

module _ {P : Type 0} (source : Source P) where
  unfoldable pub load_files : List String → Ignition P → Ignition P × Option String
  load_files [] c = (c, none)
  load_files (m ∷ ms) c = elim (source.read_file m) [
    | err e ↦ (c, some e)
    | ok contents ↦ elim (source.unmarshal contents c) [
      | err e ↦ (c, some ("could not parse configuration file " <> m <> ": " <> e))
      | ok c' ↦ load_files ms c'
    ]
  ]

  -- `for _, job := range ...`: the loop variable is a copy of the entry, and the assignment to its
  -- field goes no further. What is left is the warning.
  unfoldable pub deprecation_loop : List JobConfig → List String → List String
  deprecation_loop [] warnings = warnings
  deprecation_loop (job ∷ jobs) warnings = elim job.max_attempts_deprecated [
    | none ↦ deprecation_loop jobs warnings
    | some n ↦
        let job = record job { max_attempts = some n } in
        deprecation_loop jobs (warnings ++ job.name ∷ [])
  ]

  unfoldable pub after_load : Ignition P × Option String → Loaded P
  after_load (c, some e) = record { config = c; error = some e; warnings = [] }
  after_load (c, none) = record { config = c; error = none; warnings = deprecation_loop c.jobs [] }

  unfoldable pub after_find : List String × Option String → Ignition P → Loaded P
  after_find (matches, some e) c = record { config = c; error = some e; warnings = [] }
  after_find (matches, none) c = after_load (load_files matches c)

  unfoldable pub generate_from_config_dir : String → Ignition P → Loaded P
  unfolding after_load after_find
  generate_from_config_dir config_dir c =
      after_find (find_in_path source.walk (trim_right b'/' config_dir)) c

unfoldable pub or_default : Option Bool → Bool → Option Bool
or_default none b = some b
or_default (some v) b = some v

unfoldable pub apply_defaults : Bool → Bool → BaseJobConfig → BaseJobConfig
unfolding or_default
apply_defaults timestamps name_prefix c = record c {
  enable_timestamps = or_default c.enable_timestamps timestamps;
  enable_name_prefix = or_default c.enable_name_prefix name_prefix;
}

unfoldable pub apply_job : Bool → Bool → JobConfig → JobConfig
apply_job t n j = record j { base = apply_defaults t n j.base }

unfoldable pub apply_boot : Bool → Bool → BootJobConfig → BootJobConfig
apply_boot t n j = record j { base = apply_defaults t n j.base }

unfoldable pub apply_job_log_defaults : {P : Type 0} → Bool → Bool → Ignition P → Ignition P
unfolding apply_job apply_boot
apply_job_log_defaults timestamps name_prefix c = record c {
  jobs = map (apply_job timestamps name_prefix) c.jobs;
  boot_jobs = map (apply_boot timestamps name_prefix) c.boot_jobs;
}
