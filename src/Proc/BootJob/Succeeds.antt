-- ===== src/Proc/BootJob/Succeeds.antt =====
-- When Boot succeeds.
use mittnite.Prelude.{
  ◌≡◌, refl, ap, Bool, true, false, Option, none, some, List, [], ◌∷◌, All, map, arith, ◌⊎◌, inl,
  inr,
}
use mittnite.Proc.BaseJob.StartOnce.{RunError, Attempt, passive, start_once}
use mittnite.Proc.BootJob.{
  BootJob, allow_failure, run_boot_job, Status, ended, Booting, status_after, run_ends, Step,
  this_job, other_job, Reach, here, there, begin_boot, booted, Returns, all_ended,
}

-- The job ended well, or its errors do not count.
abbrev pub Succeeded : BootJob × Attempt → Type 0
Succeeded (job, a) = ((start_once passive job.base a).error ≡ none) ⊎ (job.config.can_fail ≡ true)

-- The goroutines belong to these jobs, and those that ended ended well.
data Follows : List (BootJob × Attempt) → List Booting → Type 0 where
  nothing : Follows [] []
  still :
      {job : BootJob} {a : Attempt} {s : Status} {js : List (BootJob × Attempt)} {bs : List Booting}
      → (s ≡ ended → run_boot_job job a ≡ none)
      → Follows js bs
      → Follows ((job, a) ∷ js) (record { job = job; attempt = a; status = s } ∷ bs)

status_after-ended : (o : Option RunError) → status_after o ≡ ended → o ≡ none
unfolding status_after
status_after-ended none e = refl
status_after-ended (some x) e = ground arith

begin-Follows : (js : List (BootJob × Attempt)) → Follows js (map begin_boot js)
begin-Follows [] = nothing
begin-Follows ((job, a) ∷ js) = still (λ e. ground arith) (begin-Follows js)

Step-Follows :
    {js : List (BootJob × Attempt)} {bs cs : List Booting}
    → Step bs cs
    → Follows js bs
    → Follows js cs
unfolding run_ends
Step-Follows (this_job r) (still {job} {a} f fs) =
    still (status_after-ended (run_boot_job job a)) fs
Step-Follows (other_job st) (still f fs) = still f (Step-Follows st fs)

Reach-Follows :
    {js : List (BootJob × Attempt)} {bs cs : List Booting}
    → Follows js bs
    → Reach bs cs
    → Follows js cs
Reach-Follows f here = f
Reach-Follows f (there r st) = Step-Follows st (Reach-Follows f r)

allowed :
    (can_fail : Bool) (o : Option RunError)
    → allow_failure can_fail o ≡ none
    → (o ≡ none) ⊎ (can_fail ≡ true)
unfolding allow_failure
allowed can_fail none e = inl refl
allowed true (some x) e = inr refl
allowed false (some x) e = ground arith

ended-Succeeded :
    {js : List (BootJob × Attempt)} {bs : List Booting}
    → Follows js bs
    → All (λ b. b.status ≡ ended) bs
    → All Succeeded js
unfolding run_boot_job
ended-Succeeded nothing h = tt
ended-Succeeded (still {job} {a} f fs) h = (
  allowed job.config.can_fail (start_once passive job.base a).error (f h.0),
  ended-Succeeded fs h.1,
)

-- Boot returns nil only if each boot job ended without an error or may fail, in whatever order
-- the jobs end: an error of any other job keeps its goroutine from being done.
pub booted-Succeeded :
    (js : List (BootJob × Attempt)) (bs : List Booting)
    → Reach (map begin_boot js) bs
    → Returns bs booted
    → All Succeeded js
booted-Succeeded js bs r (all_ended h) = ended-Succeeded (Reach-Follows (begin-Follows js) r) h

pub status-run_ends :
    (b : Booting)
    → (start_once passive b.job.base b.attempt).error ≡ none
    → (run_ends b).status ≡ ended
unfolding run_ends status_after run_boot_job allow_failure
status-run_ends b e = ap (λ o. status_after (allow_failure b.job.config.can_fail o)) e
