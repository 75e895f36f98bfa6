-- ===== src/Proc/Runner/Names/Keeps.antt =====
-- Every call of the runner keeps the names distinct.
use mittnite.Prelude.{
  ℕ, ◌<◌, ◌≡◌, refl, sym, ◌∙◌, ap, ap₂, subst, List, [], ◌∷◌, map, ◌==◌, nat_eq, string_eq,
  Bool-cases, inl, inr, Option, none, some, Result, ok, err, All, All-append, nat_beq_iff,
}
use mathlib.Core.List.{Nodup}
use mittnite.Proc.Phase.{JobPhaseReason}
use mittnite.Proc.BaseJob.{get_name, put_phase}
use mittnite.Proc.CommonJob.Watching.{FileSystem, init_job}
use mittnite.Proc.CommonJob.Watching.Config.{base_config-init_job}
use mittnite.Proc.Runner.{
  Job, common, lazy, common_of, with_common, job_name, job_phase, is_final, put_job_phase, Runner,
  update, name_at, has_name, add_job_if_not_exists, add_to_group, start_job,
}
use mittnite.Proc.Runner.Names.{IsValid}
use mittnite.Proc.Runner.Names.Lists.{Nodup-concat}

-- The state that a call leaves, also when it panics.
abbrev pub left_by : Result Runner Runner → Runner
left_by (ok r) = r
left_by (err r) = r

-- `s` has the jobs of `r`, with their names, and as many were made.
pub record SameJobs (r s : Runner) : Type 0 where
  pub jobs : s.jobs ≡ r.jobs
  pub fresh : s.fresh ≡ r.fresh
  pub names : (j : ℕ) → name_at s j ≡ name_at r j

map_name-SameJobs :
    (r s : Runner) (js : List ℕ) → SameJobs r s → map (name_at s) js ≡ map (name_at r) js
map_name-SameJobs r s [] same = refl
map_name-SameJobs r s (j ∷ js) same = cc (same.names j, map_name-SameJobs r s js same)

pub SameJobs-IsValid : {r s : Runner} → SameJobs r s → IsValid r → IsValid s
SameJobs-IsValid {r} {s} same v = record {
  distinct =
      subst Nodup (sym (ap (map (name_at s)) same.jobs ∙ map_name-SameJobs r s r.jobs same))
        v.distinct;
  allocated =
      subst (λ (p : List ℕ × ℕ). All (λ j. j < p.1) p.0)
        (sym (ap₂ (λ js n. (js, n)) same.jobs same.fresh)) v.allocated;
}

pub SameJobs-trans : {r s t : Runner} → SameJobs r s → SameJobs s t → SameJobs r t
SameJobs-trans a b = record {
  jobs = b.jobs ∙ a.jobs;
  fresh = b.fresh ∙ a.fresh;
  names = λ j. b.names j ∙ a.names j;
}

name-put_job_phase :
    (now : ℕ) (reason : JobPhaseReason) (j : Job)
    → job_name (put_job_phase now reason j) ≡ job_name j
unfolding get_name put_phase
name-put_job_phase now reason (common j) = refl
name-put_job_phase now reason (lazy j) = refl

name-init :
    (fs : FileSystem) (j : Job) → job_name (with_common (init_job fs (common_of j)) j) ≡ job_name j
unfolding get_name
name-init fs (common j) = ap (λ c. c.name) (base_config-init_job fs j)
name-init fs (lazy j) = ap (λ c. c.name) (base_config-init_job fs j.common)

-- Storing a job of the same name changes no name.
pub name_at-update :
    (r : Runner) (ref : ℕ) (j : Job) (i : ℕ)
    → job_name j ≡ name_at r ref
    → job_name (update r.heap ref j i) ≡ name_at r i
name_at-update r ref j i same = elim (Bool-cases (ref == i)) [
  | inl hit ↦ rw hit (same ∙ ap (name_at r) ((nat_beq_iff ref i).0 hit))
  | inr miss ↦ rw miss
]

add_to_group-SameJobs :
    (r : Runner) (ref : ℕ) (o : Option ℕ) → SameJobs r (left_by (add_to_group r ref o))
unfolding add_to_group
add_to_group-SameJobs r ref none = record { jobs = refl; fresh = refl; names = λ j. refl }
add_to_group-SameJobs r ref (some n) = record { jobs = refl; fresh = refl; names = λ j. refl }

pub start_job-SameJobs :
    (now : ℕ) (fs : FileSystem) (r : Runner) (ref : ℕ) (initial : JobPhaseReason)
    → SameJobs r (left_by (start_job now fs r ref initial))
unfolding start_job
start_job-SameJobs now fs r ref initial = elim (Bool-cases (is_final (job_phase j))) [
  | inl final ↦
      rw final
        (record { jobs = refl; fresh = refl; names = λ i. name_at-update r ref j i phase_name })
  | inr going ↦ rw going (
      SameJobs-trans
        (record {
          jobs = refl;
          fresh = refl;
          names = λ i. name_at-update r ref _ i (name-init fs j ∙ phase_name);
        })
        (add_to_group-SameJobs
          (record r { heap = update r.heap ref (with_common (init_job fs (common_of j)) j) }) ref
          r.wait_group))
]
  where
    j : Job
    j = put_job_phase now initial (r.heap ref)

    phase_name : job_name j ≡ name_at r ref
    phase_name = name-put_job_phase now initial (r.heap ref)

pub add_job_if_not_exists-IsValid :
    (r : Runner) (ref : ℕ) → ref < r.fresh → IsValid r → IsValid (add_job_if_not_exists r ref)
unfolding add_job_if_not_exists
add_job_if_not_exists-IsValid r ref lt v =
    elim (Bool-cases (has_name (name_at r) (name_at r ref) r.jobs)) [
      | inl there ↦ rw there v
      | inr new ↦ rw new (record {
        distinct = Nodup-concat (name_at r) r.jobs ref v.distinct new;
        allocated = All-append (λ j. j < r.fresh) r.jobs (ref ∷ []) v.allocated (lt, tt);
      })
    ]
