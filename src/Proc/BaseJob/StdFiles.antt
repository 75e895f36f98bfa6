-- ===== src/Proc/BaseJob/StdFiles.antt =====
-- The log files and the decoration of a job's output: CreateAndOpenStdFile and validateStdFiles
-- (pkg/proc/types.go), closeStdFiles and resolveTimestampLayout (pkg/proc/basejob.go).
use mittnite.Prelude.{
  ℕ, String, ◌<>◌, Bool, true, false, not, ◌&&◌, ◌||◌, Option, none, some, List, [], ◌∷◌, ◌++◌,
  Result, ok, err, ◌==◌, string_eq, if◌then◌else◌, lookup,
}
use mittnite.Config.{BaseJobConfig, timestamps_enabled, name_prefix_enabled}
use mittnite.Proc.BaseJob.{BaseJob, Target, os_stdout, os_stderr, log_file, Effect, opened, closed}

-- The answers of `prepareStdFile` for the two log files: an open handle, or an error.
pub record Opens : Type 0 where
  pub for_stdout : Result String ℕ
  pub for_stderr : Result String ℕ

pub record Opening : Type 0 where
  pub job : BaseJob
  pub effects : List Effect
  pub error : Option String

open_stderr : BaseJob → Result String ℕ → List Effect → Opening
open_stderr job (err e) done = record { job = job; effects = done; error = some e }
open_stderr job (ok h) done = record {
  job = record job { stderr = log_file h };
  effects = done ++ opened h ∷ [];
  error = none;
}

then_stderr : BaseJob → Opens → List Effect → Opening
unfolding open_stderr
then_stderr job opens done =
    if job.config.stderr == ""
    then record { job = job; effects = done; error = none }
    else (if job.config.stderr == job.config.stdout
        then record { job = record job { stderr = job.stdout }; effects = done; error = none }
        else open_stderr job opens.for_stderr done)

open_stdout : BaseJob → Opens → Result String ℕ → Opening
unfolding then_stderr
open_stdout job opens (err e) = record { job = job; effects = []; error = some e }
open_stdout job opens (ok h) =
    then_stderr (record job { stdout = log_file h }) opens (opened h ∷ [])

unfoldable pub create_and_open_std_file : BaseJob → Opens → Opening
unfolding open_stdout then_stderr
create_and_open_std_file job opens =
    if job.config.stdout == ""
    then then_stderr job opens []
    else open_stdout job opens opens.for_stdout

abbrev pub is_os_stdout : Target → Bool
is_os_stdout os_stdout = true
is_os_stdout _ = false

abbrev pub is_os_stderr : Target → Bool
is_os_stderr os_stderr = true
is_os_stderr _ = false

unfoldable pub close_std_files : BaseJob → List Effect
close_std_files job =
    let has_stdout = not (job.config.stdout == "") && not (is_os_stdout job.stdout) in
    let has_stderr =
      not (job.config.stderr == "")
      && not (job.config.stderr == job.config.stdout)
      && not (is_os_stderr job.stderr) in
    (if has_stdout then closed job.stdout ∷ [] else [])
    ++ (if has_stderr then closed job.stderr ∷ [] else [])

-- validateStdFiles: each configured file is opened and closed again; the first error is returned.
validate_loop : (String → Result String ℕ) → List String → List Effect × Option String
validate_loop prepare [] = ([], none)
validate_loop prepare (path ∷ paths) =
    let (effects, error) = validate_loop prepare paths in
    if path == "" then (effects, error) else elim (prepare path) [
      | err e ↦ ([], some e)
      | ok h ↦ (opened h ∷ closed (log_file h) ∷ effects, error)
    ]

unfoldable pub validate_std_files :
    (String → Result String ℕ) → BaseJobConfig → List Effect × Option String
unfolding validate_loop
validate_std_files prepare c = validate_loop prepare (c.stdout ∷ c.stderr ∷ [])

abbrev pub rfc3339 : String
rfc3339 = "2006-01-02T15:04:05Z07:00"

-- pkg/proc/types.go, with the layouts of Go's package time.
abbrev pub time_layouts : List (String × String)
time_layouts =
    ("RFC3339", rfc3339)
    ∷ ("RFC3339Nano", "2006-01-02T15:04:05.999999999Z07:00")
    ∷ ("RFC1123", "Mon, 02 Jan 2006 15:04:05 MST")
    ∷ ("RFC1123Z", "Mon, 02 Jan 2006 15:04:05 -0700")
    ∷ ("RFC850", "Monday, 02-Jan-06 15:04:05 MST")
    ∷ ("RFC822", "02 Jan 06 15:04 MST")
    ∷ ("RFC822Z", "02 Jan 06 15:04 -0700")
    ∷ ("Layout", "01/02 03:04:05PM '06 -0700")
    ∷ ("ANSIC", "Mon Jan _2 15:04:05 2006")
    ∷ ("UnixDate", "Mon Jan _2 15:04:05 MST 2006")
    ∷ ("RubyDate", "Mon Jan 02 15:04:05 -0700 2006")
    ∷ ("Kitchen", "3:04PM")
    ∷ ("Stamp", "Jan _2 15:04:05")
    ∷ ("StampMilli", "Jan _2 15:04:05.000")
    ∷ ("StampMicro", "Jan _2 15:04:05.000000")
    ∷ ("StampNano", "Jan _2 15:04:05.000000000")
    ∷ ("DateTime", "2006-01-02 15:04:05")
    ∷ ("DateOnly", "2006-01-02")
    ∷ ("TimeOnly", "15:04:05")
    ∷ []

abbrev layout_or_default : Option String → String
layout_or_default none = rfc3339
layout_or_default (some layout) = layout

unfoldable pub resolve_timestamp_layout : BaseJobConfig → String
resolve_timestamp_layout c =
    if not (c.custom_timestamp_format == "")
    then c.custom_timestamp_format
    else (let format = (if c.timestamp_format == "" then "RFC3339" else c.timestamp_format) in
        layout_or_default (lookup format time_layouts))

-- The test that guards the line forwarder, and what the forwarder is given.
abbrev pub is_decorated : BaseJobConfig → Bool
is_decorated c = timestamps_enabled c || name_prefix_enabled c

unfoldable pub forwarder_layout : BaseJobConfig → String
forwarder_layout c = if timestamps_enabled c then resolve_timestamp_layout c else ""

unfoldable pub forwarder_prefix : BaseJobConfig → String
forwarder_prefix c = if name_prefix_enabled c then "[" <> c.name <> "] " else ""
