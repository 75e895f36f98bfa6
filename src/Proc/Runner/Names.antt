-- ===== src/Proc/Runner/Names.antt =====
-- The runner holds at most one job of each name, and every entry is an allocated job.
pub mod Lists
pub mod Keeps
pub mod Init
pub mod Find
pub mod Refines
use mittnite.Prelude.{ℕ, ◌<◌, All, map}
use mathlib.Core.List.{Nodup}
use mittnite.Proc.Runner.{Runner, name_at}

-- The invariant of the runner between two calls.
pub record IsValid (r : Runner) : Type 0 where
  pub distinct : Nodup (map (name_at r) r.jobs)
  pub allocated : All (λ j. j < r.fresh) r.jobs
