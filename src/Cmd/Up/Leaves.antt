-- ===== src/Cmd/Up/Leaves.antt =====
-- How `up` leaves the pid file, and what a failed boot changes.
use mittnite.Prelude.{◌≡◌, ◌≢◌, ap, ◌∙◌, Option, none, some, arith}
use mittnite.PidFile.{World, new_pid_file, acquire, release}
use mittnite.PidFile.Laws.{holding, acquire-holding, release-holding}
use mittnite.Files.{Disk}
use mittnite.Cmd.Up.{Flags, Machine, Ended, run_e, released, acquired, up}

module _ {P T Q : Type 0} (flags : Flags) (m : Machine P T Q) where
  file-released :
      (w : World) (o : Option Ended) (v : World) (x : Ended)
      → released flags m w o ≡ some (v, x)
      → v ≡ (release (new_pid_file flags.pid_file) w).0
  unfolding released
  file-released w none v x e = ground arith
  file-released w (some y) v x e = ground arith

  -- Wherever `up` returns or crashes once it has written its pid file, at a wrong configuration,
  -- an interrupted wait, a failed job or the regular end, the file is gone afterwards; where no file
  -- was there before and the calls on it do not fail.
  pub up_removes_pid_file :
      (w : World) (d : Disk) (v : World) (x : Ended)
      → flags.pid_file ≢ ""
      → w.file ≡ none
      → w.make_directory ≡ none
      → w.open_fails ≡ none
      → w.write_fails ≡ none
      → w.remove_fails ≡ none
      → w.close_fails 0 ≡ none
      → up flags m w d ≡ some (v, x)
      → v.file ≡ none
  unfolding up acquired new_pid_file
  up_removes_pid_file w d v x named no_file directory creatable writable removable closable e =
      ap (λ u. u.file) (file-released (holding w) (run_e flags m d) v x (rw taken at e))
      ∙ ap (λ u. u.0.file)
          (release-holding (new_pid_file flags.pid_file) named w removable closable)
    where
      taken : acquire 2 (new_pid_file flags.pid_file) w ≡ some (holding w, none)
      taken =
          acquire-holding (new_pid_file flags.pid_file) named w removable 1 no_file directory
            creatable writable
