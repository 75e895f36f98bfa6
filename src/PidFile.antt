-- ===== src/PidFile.antt =====
-- pkg/pidfile/pidfile.go: the file that keeps a second mittnite from starting.
pub mod Laws
use mittnite.Prelude.{
  ℤ, ℕ, zero, suc, String, Bool, true, false, Option, none, some, List, [], ◌∷◌, ◌++◌, ◌==◌,
  string_eq, if◌then◌else◌,
}

-- `fd` is 0, the zero value, in what `New` returns.
pub record PidFile : Type 0 where
  pub path : String
  pub fd : ℕ

pub data Call : Type 0 where
  opens : ℕ → Call
  closes : ℕ → Call

-- The errors of the source, with the error that each wraps.
pub data PidError : Type 0 where
  cannot_make_directory cannot_open cannot_write cannot_read cannot_find cannot_remove
        cannot_close :
      String → PidError
  cannot_parse : PidError
  already_running : PidError

-- The file system and the processes. `file` is the content of the file at the path; the other
-- fields are what a call answers if it fails, `fresh` the next file descriptor, and `signals`
-- whether signal 0 reaches a process. No other process changes the file meanwhile.
pub record World : Type 0 where
  pub file : Option String
  pub own_pid : String
  pub atoi : String → Option ℤ
  pub signals : ℤ → Bool
  pub make_directory : Option String
  pub find_process : ℤ → Option String
  pub open_fails : Option String
  pub write_fails : Option String
  pub read_fails : Option String
  pub remove_fails : Option String
  pub close_fails : ℕ → Option String
  pub fresh : ℕ
  pub calls : List Call

-- New
unfoldable pub new_pid_file : String → PidFile
new_pid_file path = record { path = path; fd = 0 }

unfoldable pub removed : World → Option String → World × Option PidError
removed w (some e) = (w, some (cannot_remove e))
removed w none = (record w { file = none }, none)

unfoldable pub signalled : World → Bool → World × Option PidError
unfolding removed
signalled w true = (w, some already_running)
signalled w false = removed w w.remove_fails

unfoldable pub found : World → ℤ → Option String → World × Option PidError
unfolding signalled
found w pid (some e) = (w, some (cannot_find e))
found w pid none = signalled w (w.signals pid)

unfoldable pub parsed : World → Option ℤ → World × Option PidError
unfolding found
parsed w none = (w, some cannot_parse)
parsed w (some pid) = found w pid (w.find_process pid)

-- removePIDFileIfOutdated on the content of the file, with the answer of the read
unfoldable pub remove_pid_file_if_outdated :
    World → String → Option String → World × Option PidError
unfolding parsed
remove_pid_file_if_outdated w content (some e) = (w, some (cannot_read e))
remove_pid_file_if_outdated w content none = parsed w (w.atoi content)

unfoldable pub written : World → Option String → World × Option PidError
written w (some e) = (w, some (cannot_write e))
written w none = (record w { file = some w.own_pid }, none)

-- After open has made the file: the write of the pid. The descriptor goes into a copy of the
-- PIDFile, since `Acquire` has a value receiver, and is not kept.
unfoldable pub create_file : World → World × Option PidError
unfolding written
create_file w =
    written
      (record w { file = some ""; fresh = suc w.fresh; calls = w.calls ++ opens w.fresh ∷ [] })
      w.write_fails

-- What Acquire does once the old file is looked at: an error ends it, else it calls itself.
unfoldable pub and_then :
    (World → Option (World × Option PidError))
    → World × Option PidError
    → Option (World × Option PidError)
and_then again (w, some e) = some (w, some e)
and_then again (w, none) = again w

-- open with O_CREAT and O_EXCL: an error of its own, whether there is a file or not, or EEXIST if
-- there is one.
unfoldable pub opened :
    World
    → (World → Option (World × Option PidError))
    → Option String
    → Option String
    → Option (World × Option PidError)
unfolding and_then create_file remove_pid_file_if_outdated
opened w again (some e) file = some (w, some (cannot_open e))
opened w again none none = some (create_file w)
opened w again none (some content) =
    and_then again (remove_pid_file_if_outdated w content w.read_fails)

unfoldable pub made :
    World
    → (World → Option (World × Option PidError))
    → Option String
    → Option (World × Option PidError)
unfolding opened
made w again (some e) = some (w, some (cannot_make_directory e))
made w again none = opened w again w.open_fails w.file

-- Acquire, for as many calls of itself as the number says; `none` when they do not suffice.
unfoldable pub acquire : ℕ → PidFile → World → Option (World × Option PidError)
unfolding made
acquire zero f w = none
acquire (suc n) f w =
    let again = acquire n f in
    if f.path == "" then some (w, none) else made w again w.make_directory

unfoldable pub closed : World → ℕ → Option String → World × Option PidError
unfolding removed
closed w fd (some e) = (w, some (cannot_close e))
closed w fd none = removed (record w { calls = w.calls ++ closes fd ∷ [] }) w.remove_fails

-- Release
unfoldable pub release : PidFile → World → World × Option PidError
unfolding closed
release f w = if f.path == "" then (w, none) else closed w f.fd (w.close_fails f.fd)
