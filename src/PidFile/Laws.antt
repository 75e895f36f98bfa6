-- ===== src/PidFile/Laws.antt =====
-- What acquiring and releasing the file promise.
use mittnite.Prelude.{
  ℤ, ℕ, suc, String, ◌≡◌, ◌≢◌, refl, Bool, true, false, Option, none, some, [], ◌∷◌, ◌++◌, arith,
  eq_iff, ◌==◌, string_eq, ◌∙◌, sym, ap, subst,
}
use mittnite.PidFile.{
  PidFile, World, PidError, already_running, opens, closes, new_pid_file, acquire, and_then,
  create_file, written, removed, signalled, found, parsed, opened, made, closed,
  remove_pid_file_if_outdated, release, cannot_make_directory, cannot_open, cannot_write,
  cannot_read, cannot_find, cannot_remove, cannot_close, cannot_parse,
}

-- How Acquire may end: with the own pid in the file; because a process runs whose pid is in the
-- file, with nothing changed; or with one of the other errors.
abbrev pub Outcome : World → World × Option PidError → Type 0
Outcome w (v, none) = v.file ≡ some w.own_pid
Outcome w (v, some already_running) =
    (content : String) × (pid : ℤ) × (w.file ≡ some content)
    × (w.atoi content ≡ some pid)
    × (w.signals pid ≡ true)
    × (v ≡ w)
Outcome w (v, some (cannot_make_directory e)) = w.make_directory ≡ some e
Outcome w (v, some (cannot_open e)) = w.open_fails ≡ some e
Outcome w (v, some (cannot_write e)) = w.write_fails ≡ some e
Outcome w (v, some (cannot_read e)) = w.read_fails ≡ some e
Outcome w (v, some (cannot_find e)) = (pid : ℤ) × (w.find_process pid ≡ some e)
Outcome w (v, some (cannot_remove e)) = w.remove_fails ≡ some e
Outcome w (v, some (cannot_close e)) = w.close_fails 0 ≡ some e
Outcome w (v, some cannot_parse) = (content : String) × (w.atoi content ≡ none)

written-Outcome :
    (w v : World) (o : Option String)
    → w.write_fails ≡ o
    → v.own_pid ≡ w.own_pid
    → Outcome w (written v o)
unfolding written
written-Outcome w v (some e) eq own = eq
written-Outcome w v none eq own = ap some own

create_file-Outcome :
    (w : World) (file : Option String) → Outcome w (create_file (record w { file = file }))
unfolding create_file
create_file-Outcome w file = written-Outcome w _ w.write_fails refl refl

-- What the look at an old file comes to: it is removed, or an error ends the call.
abbrev Looked : World → World × Option PidError → Type 0
Looked w (v, none) = v ≡ record w { file = none }
Looked w (v, some e) = Outcome w (v, some e)

module _ (w : World) (content : String) (here : w.file ≡ some content) where
  removed-Looked : (o : Option String) → w.remove_fails ≡ o → Looked w (removed w o)
  unfolding removed
  removed-Looked (some e) eq = eq
  removed-Looked none eq = refl

  signalled-Looked :
      (pid : ℤ) (b : Bool)
      → w.atoi content ≡ some pid
      → w.signals pid ≡ b
      → Looked w (signalled w b)
  unfolding signalled
  signalled-Looked pid true number runs = (content, pid, here, number, runs, refl)
  signalled-Looked pid false number dead = removed-Looked w.remove_fails refl

  found-Looked :
      (pid : ℤ) (o : Option String)
      → w.atoi content ≡ some pid
      → w.find_process pid ≡ o
      → Looked w (found w pid o)
  unfolding found
  found-Looked pid (some e) number eq = (pid, eq)
  found-Looked pid none number eq = signalled-Looked pid (w.signals pid) number refl

  parsed-Looked : (o : Option ℤ) → w.atoi content ≡ o → Looked w (parsed w o)
  unfolding parsed
  parsed-Looked none eq = (content, eq)
  parsed-Looked (some pid) eq = found-Looked pid (w.find_process pid) eq refl

  look-Looked :
      (o : Option String) → w.read_fails ≡ o → Looked w (remove_pid_file_if_outdated w content o)
  unfolding remove_pid_file_if_outdated
  look-Looked (some e) eq = eq
  look-Looked none eq = parsed-Looked (w.atoi content) refl

-- The result is there, and it is of the kinds above.
abbrev pub Ends : World → Option (World × Option PidError) → Type 0
Ends w none = ⊥
Ends w (some r) = Outcome w r

module _ (f : PidFile) (named : f.path ≢ "") where
  path_given : (f.path == "") ≡ false
  path_given = ground (arith, eq_iff f.path "")

  opened-fresh :
      (w : World) (again : World → Option (World × Option PidError)) (o : Option String)
      → w.open_fails ≡ o
      → Ends w (opened (record w { file = none }) again o none)
  unfolding opened
  opened-fresh w again (some e) eq = eq
  opened-fresh w again none eq = create_file-Outcome w none

  made-fresh :
      (w : World) (again : World → Option (World × Option PidError)) (o : Option String)
      → w.make_directory ≡ o
      → Ends w (made (record w { file = none }) again o)
  unfolding made opened
  made-fresh w again (some e) eq = eq
  made-fresh w again none eq = opened-fresh w again w.open_fails refl

  acquire_round : (n : ℕ) (w : World) → acquire (suc n) f w ≡ made w (acquire n f) w.make_directory
  unfolding acquire
  acquire_round n w = rw path_given refl

  acquire-fresh : (w : World) (n : ℕ) → Ends w (acquire (suc n) f (record w { file = none }))
  unfolding acquire
  acquire-fresh w n = rw path_given (made-fresh w (acquire n f) w.make_directory refl)

  and_then-Ends :
      (w : World) (n : ℕ) (r : World × Option PidError)
      → Looked w r
      → Ends w (and_then (acquire (suc n) f) r)
  unfolding and_then
  and_then-Ends w n (v, some e) looked = looked
  and_then-Ends w n (v, none) looked =
      subst (λ u. Ends w (acquire (suc n) f u)) (sym looked) (acquire-fresh w n)

  opened-Ends :
      (w : World) (n : ℕ) (o file : Option String)
      → w.open_fails ≡ o
      → w.file ≡ file
      → Ends w (opened w (acquire (suc n) f) o file)
  unfolding opened
  opened-Ends w n (some e) file opening eq = opening
  opened-Ends w n none none opening eq = create_file-Outcome w w.file
  opened-Ends w n none (some content) opening eq =
      and_then-Ends w n (remove_pid_file_if_outdated w content w.read_fails)
        (look-Looked w content eq w.read_fails refl)

  made-Ends :
      (w : World) (n : ℕ) (o : Option String)
      → w.make_directory ≡ o
      → Ends w (made w (acquire (suc n) f) o)
  unfolding made
  made-Ends w n (some e) eq = eq
  made-Ends w n none eq = opened-Ends w n w.open_fails w.file refl refl

  -- With a path, Acquire returns after at most one call of itself. It ends in one of these ways:
  -- without an error and with mittnite's own pid in the file; with the error that a process runs,
  -- where the file holds the pid of a process that signals reach and nothing was changed; or with
  -- the error of the call that failed.
  pub acquire-Ends : (w : World) (n : ℕ) → Ends w (acquire (suc (suc n)) f w)
  acquire-Ends w n =
      subst (Ends w) (sym (acquire_round (suc n) w)) (made-Ends w n w.make_directory refl)

-- The state after an acquisition that finds no file.
abbrev pub holding : World → World
holding w = record w {
  file = some w.own_pid;
  fresh = suc w.fresh;
  calls = w.calls ++ opens w.fresh ∷ [];
}

module _ (f : PidFile) (named : f.path ≢ "") (w : World) (removable : w.remove_fails ≡ none) where
  pub acquire-holding :
      (n : ℕ)
      → w.file ≡ none
      → w.make_directory ≡ none
      → w.open_fails ≡ none
      → w.write_fails ≡ none
      → acquire (suc n) f w ≡ some (holding w, none)
  unfolding made opened create_file written
  acquire-holding n no_file directory creatable writable =
      acquire_round f named n w
      ∙ ap (made w (acquire n f)) directory
      ∙ ap (λ o. opened w (acquire n f) o w.file) creatable
      ∙ ap (opened w (acquire n f) none) no_file
      ∙ ap
          (λ o. some (
            written
              (record w {
                file = some "";
                fresh = suc w.fresh;
                calls = w.calls ++ opens w.fresh ∷ [];
              })
              o))
          writable

  pub release-holding :
      w.close_fails f.fd ≡ none
      → release f (holding w)
        ≡ (record (holding w) { file = none; calls = (holding w).calls ++ closes f.fd ∷ [] }, none)
  unfolding release closed removed
  release-holding closable = rw (path_given f named) (
      ap (closed (holding w) f.fd) closable
      ∙ ap (removed (record (holding w) { calls = (holding w).calls ++ closes f.fd ∷ [] }))
          removable)

-- Release after Acquire, with what `New` made: where no call fails and no file was there, the file
-- holds the own pid in between and is gone at the end; but the descriptor that is closed is 0, and
-- the one that Acquire opened stays open.
pub release_closes_zero :
    (path : String) (w : World)
    → path ≢ ""
    → w.file ≡ none
    → w.make_directory ≡ none
    → w.open_fails ≡ none
    → w.write_fails ≡ none
    → w.remove_fails ≡ none
    → w.close_fails 0 ≡ none
    → (acquire 1 (new_pid_file path) w ≡ some (holding w, none))
      × (release (new_pid_file path) (holding w)
          ≡ (record (holding w) { file = none; calls = (holding w).calls ++ closes 0 ∷ [] }, none))
unfolding new_pid_file
release_closes_zero path w named no_file directory creatable writable removable closable = (
  acquire-holding (record { path = path; fd = 0 }) named w removable 0 no_file directory creatable
      writable,
  release-holding (record { path = path; fd = 0 }) named w removable closable,
)
