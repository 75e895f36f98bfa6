-- ===== src/Proc/CommonJob/Watching/Settles.antt =====
-- A change of a watched file is answered once.
use mittnite.Prelude.{
  String, ◌≡◌, refl, sym, ◌∙◌, ap, subst, Bool, Option, none, some, List, [], ◌∷◌, ◌++◌, arith,
  nat_eq, string_eq, if◌then◌else◌, All,
}
use mathlib.Core.List.{append-nil}
use mittnite.Config.{Watch}
use mittnite.Proc.BaseJob.{Effect}
use mittnite.Proc.CommonJob.{CommonJob}
use mittnite.Proc.CommonJob.Watching.{
  FileSystem, Mtimes, check_files, react, watch_one, watch_loop, watch,
}
use mittnite.Proc.CommonJob.Watching.Files.{
  Current, Settled, check_files-Settled, check_files-Current, check_files_unchanged,
}

module _ (fs : FileSystem) where
  -- What a watch needs to stay silent; a watch with a bad pattern always does.
  abbrev pub Silent : Option (List String) → Mtimes → Type 0
  Silent none files = Unit
  Silent (some paths) files = Settled fs paths files

  abbrev pub AllSilent : List Watch → Mtimes → Type 0
  AllSilent ws files = All (λ w. Silent (fs.glob w.filename) files) ws

  watch_one_files :
      (w : Watch) (paths : List String) (job : CommonJob)
      → (watch_one fs w (some paths) job).0.watching_files
        ≡ (check_files fs paths job.watching_files).0
  unfolding watch_one react
  watch_one_files w paths job = ground arith

  watch_one_settled :
      (w : Watch) (o : Option (List String)) (job : CommonJob)
      → Silent o job.watching_files
      → watch_one fs w o job ≡ (job, [])
  unfolding watch_one
  watch_one_settled w none job s = refl
  watch_one_settled w (some paths) job s =
      subst
        (λ (r : Mtimes × Bool).
          (if r.1
            then react fs w (record job { watching_files = r.0 })
            else (record job { watching_files = r.0 }, []))
          ≡ (job, []))
        (sym (check_files_unchanged fs paths job.watching_files s)) refl

  watch_one-Silent_self :
      (w : Watch) (o : Option (List String)) (job : CommonJob)
      → Silent o (watch_one fs w o job).0.watching_files
  watch_one-Silent_self w none job = tt
  watch_one-Silent_self w (some paths) job =
      subst (Settled fs paths) (sym (watch_one_files w paths job))
        (check_files-Settled fs paths job.watching_files)

  All-check_files :
      (qs ps : List String) (files : Mtimes)
      → All (Current fs files) qs
      → All (Current fs (check_files fs ps files).0) qs
  All-check_files [] ps files c = tt
  All-check_files (q ∷ qs) ps files c =
      (check_files-Current fs ps q files c.0, All-check_files qs ps files c.1)

  -- A later watch leaves an earlier one settled.
  watch_one-Silent :
      (w : Watch) (o other : Option (List String)) (job : CommonJob)
      → Silent other job.watching_files
      → Silent other (watch_one fs w o job).0.watching_files
  watch_one-Silent w none other job s = unfold watch_one in s
  watch_one-Silent w (some paths) none job s = tt
  watch_one-Silent w (some paths) (some qs) job s =
      subst (Settled fs qs) (sym (watch_one_files w paths job)) (
        All-check_files qs paths job.watching_files s.0,
        (check_files-Settled fs paths job.watching_files).1,
      )

  watch_loop-Silent :
      (ws : List Watch) (other : Option (List String)) (job : CommonJob) (done : List Effect)
      → Silent other job.watching_files
      → Silent other (watch_loop fs ws job done).0.watching_files
  unfolding watch_loop
  watch_loop-Silent [] other job done s = s
  watch_loop-Silent (w ∷ ws) other job done s =
      let r = watch_one fs w (fs.glob w.filename) job in
      watch_loop-Silent ws other r.0 (done ++ r.1)
        (watch_one-Silent w (fs.glob w.filename) other job s)

  watch_loop-AllSilent :
      (ws : List Watch) (job : CommonJob) (done : List Effect)
      → AllSilent ws (watch_loop fs ws job done).0.watching_files
  unfolding watch_loop
  watch_loop-AllSilent [] job done = tt
  watch_loop-AllSilent (w ∷ ws) job done =
      let r = watch_one fs w (fs.glob w.filename) job in
      (
        watch_loop-Silent ws (fs.glob w.filename) r.0 (done ++ r.1)
            (watch_one-Silent_self w (fs.glob w.filename) job),
        watch_loop-AllSilent ws r.0 (done ++ r.1),
      )

  pub watch_loop_settled :
      (ws : List Watch) (job : CommonJob) (done : List Effect)
      → AllSilent ws job.watching_files
      → watch_loop fs ws job done ≡ (job, done)
  unfolding watch_loop
  watch_loop_settled [] job done s = refl
  watch_loop_settled (w ∷ ws) job done s =
      rw (watch_one_settled w (fs.glob w.filename) job s.0)
        (rw append-nil (watch_loop_settled ws job done s.1))

  watch_one-config :
      (w : Watch) (o : Option (List String)) (job : CommonJob)
      → (watch_one fs w o job).0.config ≡ job.config
  unfolding watch_one react
  watch_one-config w none job = refl
  watch_one-config w (some paths) job = ground arith

  watch_loop-config :
      (ws : List Watch) (job : CommonJob) (done : List Effect)
      → (watch_loop fs ws job done).0.config ≡ job.config
  unfolding watch_loop
  watch_loop-config [] job done = refl
  watch_loop-config (w ∷ ws) job done =
      let r = watch_one fs w (fs.glob w.filename) job in
      watch_loop-config ws r.0 (done ++ r.1) ∙ watch_one-config w (fs.glob w.filename) job

  -- While the files stay as they are, a second `Watch` does nothing: whatever changed, appeared or
  -- was removed is answered by the first, and no signal, command or phase change comes after it.
  pub watch_twice : (job : CommonJob) → watch fs (watch fs job).0 ≡ ((watch fs job).0, [])
  unfolding watch
  watch_twice job =
      let job' = (watch_loop fs job.config.watches job []).0 in
      ap (λ ws. watch_loop fs ws job' [])
        (ap (λ c. c.watches) (watch_loop-config job.config.watches job []))
      ∙ watch_loop_settled job.config.watches job' []
          (watch_loop-AllSilent job.config.watches job [])
