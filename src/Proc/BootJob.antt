-- ===== src/Proc/BootJob.antt =====
-- pkg/proc/job_boot.go, NewBootJob (pkg/proc/types.go) and Runner.Boot (pkg/proc/runner.go): the
-- boot jobs run side by side, each once, before any other job.
pub mod Succeeds
use mittnite.Prelude.{
  ℕ, ◌*◌, ◌≡◌, String, ◌<>◌, Bool, true, false, Option, none, some, List, [], ◌∷◌, Result, ok, err,
  ◌>>=◌, ◌==◌, string_eq, if◌then◌else◌, All, map,
}
use mathlib.Core.List.{Mem}
use mittnite.Config.{BootJobConfig}
use mittnite.Proc.BackOff.{second}
use mittnite.Proc.BaseJob.{BaseJob, init}
use mittnite.Proc.BaseJob.StartOnce.{RunError, Attempt, Run, passive, start_once}

pub record BootJob : Type 0 where
  pub base : BaseJob
  pub config : BootJobConfig
  pub timeout : ℕ

boot_timeout : (String → Result String ℕ) → String → Result String ℕ
boot_timeout parse_duration text = if text == "" then ok (30 * second) else parse_duration text

-- NewBootJob
pub new_boot_job : ℕ → (String → Result String ℕ) → BootJobConfig → Result String BootJob
unfolding boot_timeout
new_boot_job now parse_duration c = boot_timeout parse_duration c.timeout >>= λ t.
    ok (record { base = init now c.base; config = c; timeout = t })

labelled_boot : String → Result String BootJob → Result String BootJob
labelled_boot name (ok j) = ok j
labelled_boot name (err e) = err ("error initializing boot job " <> name <> ": " <> e)

-- The first loop of Boot
pub new_boot_jobs :
    ℕ → (String → Result String ℕ) → List BootJobConfig → Result String (List BootJob)
unfolding labelled_boot
new_boot_jobs now parse_duration [] = ok []
new_boot_jobs now parse_duration (c ∷ cs) =
    labelled_boot c.name (new_boot_job now parse_duration c) >>= λ j.
    new_boot_jobs now parse_duration cs >>= λ js. ok (j ∷ js)

allow_failure : Bool → Option RunError → Option RunError
allow_failure can_fail none = none
allow_failure can_fail (some e) = if can_fail then none else some e

-- BootJob.Run; a timeout of 0 sets no deadline, and a deadline shows in the attempt as the end of
-- the context.
pub run_boot_job : BootJob → Attempt → Option RunError
unfolding allow_failure
run_boot_job job a = allow_failure job.config.can_fail (start_once passive job.base a).error

-- The goroutine of a boot job: `sends` blocks until Boot receives the error, and only `ended` has
-- called Done.
pub data Status : Type 0 where
  runs : Status
  sends : RunError → Status
  ended : Status

pub record Booting : Type 0 where
  pub job : BootJob
  pub attempt : Attempt
  pub status : Status

status_after : Option RunError → Status
status_after none = ended
status_after (some e) = sends e

pub run_ends : Booting → Booting
unfolding status_after
run_ends b = record b { status = status_after (run_boot_job b.job b.attempt) }

pub data Step : List Booting → List Booting → Type 0 where
  this_job : {b : Booting} {bs : List Booting} → b.status ≡ runs → Step (b ∷ bs) (run_ends b ∷ bs)
  other_job : {b : Booting} {bs cs : List Booting} → Step bs cs → Step (b ∷ bs) (b ∷ cs)

pub data Reach (s : List Booting) : List Booting → Type 0 where
  here : Reach s s
  there : {t u : List Booting} → Reach s t → Step t u → Reach s u

abbrev pub begin_boot : BootJob × Attempt → Booting
begin_boot (job, a) = record { job = job; attempt = a; status = runs }

pub data BootResult : Type 0 where
  booted : BootResult
  boot_failed : RunError → BootResult
  boot_ctx_err : BootResult

-- The select of Boot: the wait group is done, an error comes, or the context ends.
pub data Returns (s : List Booting) : BootResult → Type 0 where
  all_ended : All (λ b. b.status ≡ ended) s → Returns s booted
  error_received :
      (b : Booting) {e : RunError} → Mem b s → b.status ≡ sends e → Returns s (boot_failed e)
  cancelled : Returns s boot_ctx_err
