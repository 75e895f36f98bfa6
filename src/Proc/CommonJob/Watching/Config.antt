-- ===== src/Proc/CommonJob/Watching/Config.antt =====
-- Neither Init nor Watch touches the configuration of a job.
use mittnite.Prelude.{
  String, ◌≡◌, refl, ◌∙◌, Option, none, some, List, [], ◌∷◌, ◌++◌, Bool-cases, inl, inr,
}
use mittnite.Config.{Watch}
use mittnite.Proc.BaseJob.{Effect, mark_for_restart, reset_phase}
use mittnite.Proc.CommonJob.{CommonJob}
use mittnite.Proc.CommonJob.Watching.{
  FileSystem, init_job, react, watch_one, watch_loop, watch, check_files,
}

module _ (fs : FileSystem) where
  pub base_config-init_job : (job : CommonJob) → (init_job fs job).base.config ≡ job.base.config
  unfolding init_job
  base_config-init_job job = refl

  base_config-react :
      (w : Watch) (job : CommonJob) → (react fs w job).0.base.config ≡ job.base.config
  unfolding react mark_for_restart reset_phase
  base_config-react w job = elim (Bool-cases w.restart) [ inl e ↦ simp e | inr e ↦ simp e ]

  base_config-watch_one :
      (w : Watch) (o : Option (List String)) (job : CommonJob)
      → (watch_one fs w o job).0.base.config ≡ job.base.config
  unfolding watch_one
  base_config-watch_one w none job = refl
  base_config-watch_one w (some paths) job =
      elim (Bool-cases (check_files fs paths job.watching_files).1) [
        | inl changed ↦ simp changed (
            base_config-react w
              (record job { watching_files = (check_files fs paths job.watching_files).0 }))
        | inr quiet ↦ simp quiet
      ]

  base_config-watch_loop :
      (ws : List Watch) (job : CommonJob) (done : List Effect)
      → (watch_loop fs ws job done).0.base.config ≡ job.base.config
  unfolding watch_loop
  base_config-watch_loop [] job done = refl
  base_config-watch_loop (w ∷ ws) job done =
      let r = watch_one fs w (fs.glob w.filename) job in
      base_config-watch_loop ws r.0 (done ++ r.1) ∙ base_config-watch_one w (fs.glob w.filename) job

  pub base_config-watch : (job : CommonJob) → (watch fs job).0.base.config ≡ job.base.config
  unfolding watch
  base_config-watch job = base_config-watch_loop job.config.watches job []
