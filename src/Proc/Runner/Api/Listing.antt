-- ===== src/Proc/Runner/Api/Listing.antt =====
-- The list of jobs agrees with what the other calls accept.
use mittnite.Prelude.{
  ℕ, ◌≡◌, refl, ◌∙◌, ap, String, true, some, List, [], ◌∷◌, arith, All, All-append, Bool-cases, inl,
  inr,
}
use mathlib.Core.Logic.Or
use mathlib.Core.List.{Mem, mem-cons}
use mittnite.Proc.BaseJob.{is_controllable}
use mittnite.Proc.CommonJob.{CommonJob}
use mittnite.Proc.Runner.{
  Job, common, lazy, common_of, job_name, Runner, name_at, find_common_job_by_name, as_common,
  find_common,
}
use mittnite.Proc.Runner.Names.{IsValid}
use mittnite.Proc.Runner.Names.Lists.{find_by_name_self}
use mittnite.Proc.Runner.Api.{listed, list_jobs, api_v1_job_list}

-- A name that the middleware answers with a controllable common job of the list.
abbrev pub IsServed : Runner → String → Type 0
IsServed r n =
    (ref : ℕ) × (find_common_job_by_name r n ≡ some ref)
    × (is_controllable (common_of (r.heap ref)).base ≡ true)

as_common-common :
    (r : Runner) (ref : ℕ) (j : CommonJob) → r.heap ref ≡ common j → as_common r ref ≡ some ref
unfolding as_common
as_common-common r ref j e = ground arith

listed-IsServed :
    (r : Runner) (ref : ℕ) (j : Job)
    → r.heap ref ≡ j
    → find_common_job_by_name r (job_name j) ≡ as_common r ref
    → All (IsServed r) (listed j)
unfolding listed
listed-IsServed r ref (lazy j) e found = tt
listed-IsServed r ref (common j) e found = elim (Bool-cases (is_controllable j.base)) [
  | inl yes_it_is ↦ simp yes_it_is ((ref, found ∙ as_common-common r ref j e, rw e yes_it_is), tt)
  | inr no_it_is_not ↦ simp no_it_is_not tt
]

list_jobs-IsServed :
    (r : Runner) (js : List ℕ)
    → ((j : ℕ) → Mem j js → find_common_job_by_name r (name_at r j) ≡ as_common r j)
    → All (IsServed r) (list_jobs r js)
unfolding list_jobs
list_jobs-IsServed r [] h = tt
list_jobs-IsServed r (j ∷ js) h =
    All-append (IsServed r) (listed (r.heap j)) (list_jobs r js)
      (listed-IsServed r j (r.heap j) refl (h j (mem-cons.1 (Or.inl refl))))
      (list_jobs-IsServed r js (λ i m. h i (mem-cons.1 (Or.inr m))))

-- Every name of the job list is one that the other calls find and accept.
pub job_list-IsServed : (r : Runner) → IsValid r → All (IsServed r) (api_v1_job_list r)
unfolding api_v1_job_list
job_list-IsServed r v = list_jobs-IsServed r r.jobs λ j m.
    unfold find_common_job_by_name in
    ap (find_common r) (find_by_name_self (name_at r) r.jobs j v.distinct m)
