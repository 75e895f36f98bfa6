-- ===== src/Proc/CommonJob/Watching.antt =====
-- pkg/proc/job_common.go, Init, Watch and executeWatchCommand: the files that a job watches.
pub mod Files
pub mod Settles
pub mod FirstTick
pub mod Config
use mittnite.Prelude.{
  ℕ, String, Bool, true, false, ◌||◌, Option, none, some, List, [], ◌∷◌, ◌++◌, lookup, insert, ◌==◌,
  nat_eq, string_eq, if◌then◌else◌,
}
use mittnite.Config.{Watch, WatchCommand}
use mittnite.Proc.BaseJob.{BaseJob, Effect, run_command, mark_for_restart, reset_phase, signal}
use mittnite.Proc.CommonJob.{CommonJob}

-- The answer of os.Stat: a modification time, that there is no such file, or another error.
pub data Stat : Type 0 where
  present : ℕ → Stat
  missing unreadable : Stat

-- `filepath.Glob` fails on a bad pattern.
pub record FileSystem : Type 0 where
  pub glob : String → Option (List String)
  pub stat : String → Stat

abbrev pub Mtimes : Type 0
Mtimes = List (String × ℕ)

-- A Go map answers the zero time for a path that it does not hold.
abbrev pub or_zero : Option ℕ → ℕ
or_zero none = 0
or_zero (some t) = t

abbrev pub mtime_of : String → Mtimes → ℕ
mtime_of path files = or_zero (lookup path files)

module _ (fs : FileSystem) where
  record_mtime : String → Stat → Mtimes → Mtimes
  record_mtime path (present t) files = insert path t files
  record_mtime path missing files = files
  record_mtime path unreadable files = files

  record_mtimes : List String → Mtimes → Mtimes
  unfolding record_mtime
  record_mtimes [] files = files
  record_mtimes (p ∷ ps) files = record_mtimes ps (record_mtime p (fs.stat p) files)

  init_glob : Option (List String) → Mtimes
  unfolding record_mtimes
  init_glob none = []
  init_glob (some paths) = record_mtimes paths []

  -- The map is made anew for each watch.
  init_watches : List Watch → Mtimes → Mtimes
  unfolding init_glob
  init_watches [] files = files
  init_watches (w ∷ ws) files = init_watches ws (init_glob (fs.glob w.filename))

  -- CommonJob.Init
  unfoldable pub init_job : CommonJob → CommonJob
  unfolding init_watches
  init_job job = record job {
    base = record job.base { restart = false; stop = false };
    watching_files = init_watches job.config.watches job.watching_files;
  }

  -- One path of a watch: its new entry, and whether it changed.
  check_path : String → Stat → Mtimes × Bool → Mtimes × Bool
  check_path path (present t) (files, changed) =
      if t == mtime_of path files then (files, changed) else (insert path t files, true)
  check_path path missing s = s
  check_path path unreadable s = s

  check_existing : List String → Mtimes × Bool → Mtimes × Bool
  unfolding check_path
  check_existing [] s = s
  check_existing (p ∷ ps) s = check_existing ps (check_path p (fs.stat p) s)

  abbrev pub is_missing : Stat → Bool
  is_missing missing = true
  is_missing _ = false

  -- Every entry is looked at, whichever watch it is from.
  pub check_deleted : Mtimes → Mtimes × Bool
  check_deleted [] = ([], false)
  check_deleted ((p, t) ∷ files) =
      let (kept, gone) = check_deleted files in
      if is_missing (fs.stat p) then (kept, true) else ((p, t) ∷ kept, gone)

  pub check_files : List String → Mtimes → Mtimes × Bool
  unfolding check_existing check_deleted
  check_files paths files =
      let (files', changed) = check_existing paths (files, false) in
      let (kept, gone) = check_deleted files' in (kept, changed || gone)

  execute_watch_command : Option WatchCommand → List Effect
  execute_watch_command none = []
  execute_watch_command (some c) =
      if c.command == "" then [] else run_command c.command c.args c.env ∷ []

  abbrev restart_if : Bool → BaseJob → BaseJob
  restart_if b job = if b then mark_for_restart job else job

  -- What a watch does once something changed.
  react : Watch → CommonJob → CommonJob × List Effect
  unfolding execute_watch_command mark_for_restart reset_phase signal
  react w job =
      let base = restart_if w.restart (reset_phase job.base) in
      (
        record job { base = base },
        execute_watch_command w.pre_command
            ++ (signal base w.signal ++ execute_watch_command w.post_command),
      )

  watch_one : Watch → Option (List String) → CommonJob → CommonJob × List Effect
  unfolding check_files react
  watch_one w none job = (job, [])
  watch_one w (some paths) job =
      let (files, changed) = check_files paths job.watching_files in
      let job' = record job { watching_files = files } in
      if changed then react w job' else (job', [])

  pub watch_loop : List Watch → CommonJob → List Effect → CommonJob × List Effect
  unfolding watch_one
  watch_loop [] job done = (job, done)
  watch_loop (w ∷ ws) job done =
      let (job', effects) = watch_one w (fs.glob w.filename) job in
      watch_loop ws job' (done ++ effects)

  -- CommonJob.Watch
  pub watch : CommonJob → CommonJob × List Effect
  unfolding watch_loop
  watch job = watch_loop job.config.watches job []
