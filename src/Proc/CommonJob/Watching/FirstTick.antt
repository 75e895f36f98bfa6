-- ===== src/Proc/CommonJob/Watching/FirstTick.antt =====
-- The first `Watch` after `Init`, while no file changes.
use mittnite.Prelude.{
  ℕ, String, ◌<◌, ◌≡◌, refl, sym, ◌∙◌, ap, subst, Bool, true, false, Option, none, some, List, [],
  ◌∷◌, arith, insert, lookup, nat_eq, string_eq, if◌then◌else◌, All, eq_iff,
}
use mittnite.Config.{Watch}
use mittnite.Proc.BaseJob.{Effect, kill_process}
use mittnite.Proc.CommonJob.{CommonJob}
use mittnite.Proc.CommonJob.Watching.{
  Stat, present, missing, unreadable, FileSystem, Mtimes, record_mtime, record_mtimes, init_glob,
  init_watches, init_job, check_deleted, check_files, react, watch_one, watch_loop, watch,
}
use mittnite.Proc.CommonJob.Watching.Files.{Current, NoneMissing, insert-Current, mtime_of-insert}
use mittnite.Proc.CommonJob.Watching.Settles.{Silent, watch_loop_settled}

module _ (fs : FileSystem) where
  record_mtime-Current :
      (p q : String) (s : Stat) (files : Mtimes)
      → fs.stat p ≡ s
      → Current fs files q
      → Current fs (record_mtime fs p s files) q
  unfolding record_mtime
  record_mtime-Current p q (present t) files e c = insert-Current fs p q t files e c
  record_mtime-Current p q missing files e c = c
  record_mtime-Current p q unreadable files e c = c

  record_mtime_self :
      (p : String) (s : Stat) (files : Mtimes)
      → fs.stat p ≡ s
      → Current fs (record_mtime fs p s files) p
  unfolding record_mtime
  record_mtime_self p (present t) files e t' e' =
      mtime_of-insert fs p p t files ∙ ground (arith, eq_iff p p)
  record_mtime_self p missing files e t e' = cc
  record_mtime_self p unreadable files e t e' = cc

  record_mtimes-Current :
      (ps : List String) (q : String) (files : Mtimes)
      → Current fs files q
      → Current fs (record_mtimes fs ps files) q
  unfolding record_mtimes
  record_mtimes-Current [] q files c = c
  record_mtimes-Current (p ∷ ps) q files c =
      record_mtimes-Current ps q (record_mtime fs p (fs.stat p) files)
        (record_mtime-Current p q (fs.stat p) files refl c)

  record_mtimes_self :
      (ps : List String) (files : Mtimes) → All (Current fs (record_mtimes fs ps files)) ps
  unfolding record_mtimes
  record_mtimes_self [] files = tt
  record_mtimes_self (p ∷ ps) files =
      let files' = record_mtime fs p (fs.stat p) files in
      (
        record_mtimes-Current ps p files' (record_mtime_self p (fs.stat p) files refl),
        record_mtimes_self ps files',
      )

  NoneMissing-tail :
      (q : String) (u : ℕ) (files : Mtimes) → NoneMissing fs ((q, u) ∷ files) → NoneMissing fs files
  unfolding check_deleted
  NoneMissing-tail q u files n = ground arith

  insert-NoneMissing :
      (p : String) (t : ℕ) (files : Mtimes)
      → fs.stat p ≡ present t
      → NoneMissing fs files
      → NoneMissing fs (insert p t files)
  unfolding check_deleted insert
  insert-NoneMissing p t [] e n = ground arith
  insert-NoneMissing p t ((q, u) ∷ files) e n =
      ground (arith, eq_iff q p, insert-NoneMissing p t files e (NoneMissing-tail q u files n))

  record_mtimes-NoneMissing :
      (ps : List String) (files : Mtimes)
      → NoneMissing fs files
      → NoneMissing fs (record_mtimes fs ps files)
  unfolding record_mtimes
  record_mtimes-NoneMissing [] files n = n
  record_mtimes-NoneMissing (p ∷ ps) files n =
      record_mtimes-NoneMissing ps (record_mtime fs p (fs.stat p) files) (go (fs.stat p) refl)
    where
      go : (s : Stat) → fs.stat p ≡ s → NoneMissing fs (record_mtime fs p s files)
      go (present t) e = unfold record_mtime in insert-NoneMissing p t files e n
      go missing e = unfold record_mtime in n
      go unreadable e = unfold record_mtime in n

  init_glob-Silent : (o : Option (List String)) → Silent fs o (init_glob fs o)
  unfolding init_glob
  init_glob-Silent none = tt
  init_glob-Silent (some ps) =
      (record_mtimes_self ps [], record_mtimes-NoneMissing ps [] (unfold check_deleted in refl))

  -- With a single watch, `Watch` after `Init` is silent while the files stay as they are.
  pub watch-init_job :
      (job : CommonJob) (w : Watch)
      → job.config.watches ≡ w ∷ []
      → watch fs (init_job fs job) ≡ (init_job fs job, [])
  unfolding watch init_job init_watches
  watch-init_job job w one =
      subst (λ ws. watch_loop fs ws (initialised ws) [] ≡ (initialised ws, [])) (sym one)
        (watch_loop_settled fs (w ∷ []) (initialised (w ∷ [])) []
          (init_glob-Silent (fs.glob w.filename), tt))
    where
      initialised : List Watch → CommonJob
      initialised ws = record job {
        base = record job.base { restart = false; stop = false };
        watching_files = init_watches fs ws job.watching_files;
      }

  check_files-new :
      (path : String) (t : ℕ)
      → fs.stat path ≡ present t
      → 0 < t
      → check_files fs (path ∷ []) [] ≡ ((path, t) ∷ [], true)
  unfolding check_files lookup insert
  check_files-new path t st pos = ground arith

  effects-react :
      (w : Watch) (job : CommonJob) (pid : ℕ)
      → job.cmd ≡ some pid
      → w.pre_command ≡ none
      → w.post_command ≡ none
      → (react fs w job).1 ≡ kill_process pid w.signal ∷ []
  unfolding react
  effects-react w job pid running pre post = ground arith

  files-react :
      (w : Watch) (job : CommonJob) → (react fs w job).0.watching_files ≡ job.watching_files
  unfolding react
  files-react w job = refl

  -- A watch that finds one new file, and after it one that finds none.
  watch_loop-two :
      (w v : Watch) (job : CommonJob) (path : String) (t : ℕ)
      → job.watching_files ≡ []
      → fs.glob w.filename ≡ some (path ∷ [])
      → fs.glob v.filename ≡ some []
      → fs.stat path ≡ present t
      → 0 < t
      → (watch_loop fs (w ∷ v ∷ []) job []).1
        ≡ (react fs w (record job { watching_files = (path, t) ∷ [] })).1
  unfolding watch_loop
  watch_loop-two w v job path t empty gw gv st pos =
      ap (λ (r : CommonJob × List Effect). (watch_loop fs (v ∷ []) r.0 r.1).1) first
      ∙ ap (λ (r : CommonJob × List Effect). r.1)
          (watch_loop_settled fs (v ∷ []) second.0 second.1 (quiet, tt))
    where
      second : CommonJob × List Effect
      second = react fs w (record job { watching_files = (path, t) ∷ [] })

      first : watch_one fs w (fs.glob w.filename) job ≡ second
      first =
          ap (λ o. watch_one fs w o job) gw
          ∙ ap
              (λ (r : Mtimes × Bool).
                if r.1
                then react fs w (record job { watching_files = r.0 })
                else (record job { watching_files = r.0 }, []))
              (ap (check_files fs (path ∷ [])) empty ∙ check_files-new path t st pos)

      quiet : Silent fs (fs.glob v.filename) second.0.watching_files
      quiet =
          subst (λ o. Silent fs o second.0.watching_files) (sym gv)
            (
              tt,
              subst (NoneMissing fs)
                  (sym (files-react w (record job { watching_files = (path, t) ∷ [] })))
                  (unfold check_deleted in ground arith),
            )

  -- With two watches, of which the first matches one file and the second none, `Watch` after `Init`
  -- signals the running process though the file did not change: `Init` forgets the files of the
  -- first watch when it comes to the second.
  pub first_tick_signals :
      (job : CommonJob) (w v : Watch) (path : String) (t pid : ℕ)
      → job.config.watches ≡ w ∷ v ∷ []
      → fs.glob w.filename ≡ some (path ∷ [])
      → fs.glob v.filename ≡ some []
      → fs.stat path ≡ present t
      → 0 < t
      → job.cmd ≡ some pid
      → w.pre_command ≡ none
      → w.post_command ≡ none
      → (watch fs (init_job fs job)).1 ≡ kill_process pid w.signal ∷ []
  unfolding watch init_job watch_loop
  first_tick_signals job w v path t pid watches gw gv st pos running pre post =
      subst (λ ws. (watch_loop fs ws (initialised ws) []).1 ≡ kill_process pid w.signal ∷ [])
        (sym watches)
        (watch_loop-two w v (initialised (w ∷ v ∷ [])) path t (ap (init_glob fs) gv) gw gv st pos
          ∙ effects-react w (record (initialised (w ∷ v ∷ [])) { watching_files = (path, t) ∷ [] })
              pid running pre post)
    where
      initialised : List Watch → CommonJob
      initialised ws = record job {
        base = record job.base { restart = false; stop = false };
        watching_files = init_watches fs ws job.watching_files;
      }
