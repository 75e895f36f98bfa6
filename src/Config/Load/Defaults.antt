-- ===== src/Config/Load/Defaults.antt =====
-- What reading the configuration and applying the defaults of job output promise.
use mittnite.Prelude.{◌≡◌, refl, Bool, List, [], ◌∷◌, map, arith}
use mittnite.Config.{Ignition, JobConfig, BootJobConfig, BaseJobConfig}
use mittnite.Config.Load.{apply_defaults, apply_job, apply_boot, apply_job_log_defaults}

apply_defaults_twice :
    (t n t' n' : Bool) (c : BaseJobConfig)
    → apply_defaults t' n' (apply_defaults t n c) ≡ apply_defaults t n c
unfolding apply_defaults
apply_defaults_twice t n t' n' c = ground arith

map-apply_job_twice :
    (t n t' n' : Bool) (jobs : List JobConfig)
    → map (apply_job t' n') (map (apply_job t n) jobs) ≡ map (apply_job t n) jobs
unfolding apply_job
map-apply_job_twice t n t' n' [] = refl
map-apply_job_twice t n t' n' (j ∷ js) =
    rw (apply_defaults_twice, map-apply_job_twice t n t' n' js) refl

map-apply_boot_twice :
    (t n t' n' : Bool) (jobs : List BootJobConfig)
    → map (apply_boot t' n') (map (apply_boot t n) jobs) ≡ map (apply_boot t n) jobs
unfolding apply_boot
map-apply_boot_twice t n t' n' [] = refl
map-apply_boot_twice t n t' n' (j ∷ js) =
    rw (apply_defaults_twice, map-apply_boot_twice t n t' n' js) refl

-- Once the defaults are on every job and boot job, applying others changes nothing: a value that
-- is set, by the job or by an earlier default, wins.
pub apply_job_log_defaults_twice :
    {P : Type 0} (t n t' n' : Bool) (c : Ignition P)
    → apply_job_log_defaults t' n' (apply_job_log_defaults t n c) ≡ apply_job_log_defaults t n c
unfolding apply_job_log_defaults
apply_job_log_defaults_twice t n t' n' c =
    rw (map-apply_job_twice t n t' n' c.jobs, map-apply_boot_twice t n t' n' c.boot_jobs) refl
