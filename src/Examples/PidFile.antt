-- ===== src/Examples/PidFile.antt =====
-- A pid file that holds the pid of a process that is gone.
use mittnite.Prelude.{
  pos, suc, ◌≡◌, ◌≢◌, refl, false, none, some, [], ◌∷◌, ◌++◌, arith, eq_iff, String,
}
use mittnite.PidFile.{World, PidFile, new_pid_file, acquire, release, closes}
use mittnite.PidFile.Laws.{Ends, acquire-Ends, release_closes_zero, holding}

abbrev stale : World
stale = record {
  file = some "17";
  own_pid = "42";
  atoi = λ text. some (pos 17);
  signals = λ pid. false;
  make_directory = none;
  find_process = λ pid. none;
  open_fails = none;
  write_fails = none;
  read_fails = none;
  remove_fails = none;
  close_fails = λ fd. none;
  fresh = 5;
  calls = [];
}

abbrev pid_file : PidFile
pid_file = record { path = "/run/pid"; fd = 0 }

pub path_given : ◌≢◌ {A = String} "/run/pid" ""
path_given = ground (arith, eq_iff "/run/pid" "")

acquire-Ends_example : Ends stale (acquire (suc (suc 0)) pid_file stale)
acquire-Ends_example = acquire-Ends pid_file path_given stale 0

abbrev pub clean : World
clean = record stale { file = none }

release_closes_zero_example :
    (acquire 1 (new_pid_file "/run/pid") clean ≡ some (holding clean, none))
    × (release (new_pid_file "/run/pid") (holding clean) ≡ (
      record (holding clean) { file = none; calls = (holding clean).calls ++ closes 0 ∷ [] },
      none,
    ))
release_closes_zero_example =
    release_closes_zero "/run/pid" clean path_given refl refl refl refl refl refl
