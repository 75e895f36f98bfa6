-- ===== src/Proc/Runner/Api/Placed.antt =====
-- Where the job that the middleware has found or made stands in the runner's list.
use mittnite.Prelude.{
  ℕ, ◌+◌, ◌≡◌, refl, sym, ◌∙◌, ap, subst, String, true, false, Option, none, some, List, [], ◌∷◌,
  arith, Bool-cases, inl, inr, Result, ok, err, ◌⊎◌, ◌==◌, string_eq, nat_eq, eq_iff, ◌&&◌, ◌>>=◌,
  beq_self,
}
use mathlib.Core.List.{Mem, mem-cons, mem-append}
use mathlib.Core.Logic.Or
use mittnite.Config.{JobConfig}
use mittnite.Proc.BaseJob.{Effect, get_name, init}
use mittnite.Proc.BaseJob.StdFiles.{validate_std_files}
use mittnite.Proc.CommonJob.{CommonJob, checked_job, new_common_job}
use mittnite.Proc.Runner.{
  common, Runner, Maker, update, name_at, has_name, allocate, find_by_name, as_common, find_common,
  find_common_job_by_name, find_config, is_none, make_configured, find_common_ignition_job_by_name,
  add_job_if_not_exists,
}
use mittnite.Proc.Runner.Names.Find.{found_of_has_name, found-Mem}
use mittnite.Proc.Runner.Api.Found.{found_at}

-- An entry of the list is a lazy job of the same name.
pub record IsShadowed (r : Runner) (ref : ℕ) : Type 0 where
  pub other : ℕ
  pub in_list : Mem other r.jobs
  pub named : name_at r other ≡ name_at r ref
  pub is_lazy : as_common r other ≡ none

-- The job is an entry of the list, or an entry of its name is a lazy job.
abbrev pub IsPlaced : Runner → ℕ → Type 0
IsPlaced r ref = Mem ref r.jobs ⊎ IsShadowed r ref

-- The middleware adds a job whose name is not there.
abbrev pub IsPlacedIfNamed : Runner → ℕ → Type 0
IsPlacedIfNamed r ref = has_name (name_at r) (name_at r ref) r.jobs ≡ true → IsPlaced r ref

pub add-IsPlaced :
    (r : Runner) (ref : ℕ) → IsPlacedIfNamed r ref → IsPlaced (add_job_if_not_exists r ref) ref
unfolding add_job_if_not_exists
add-IsPlaced r ref h = elim (Bool-cases (has_name (name_at r) (name_at r ref) r.jobs)) [
  | inl there ↦ rw there (h there)
  | inr new ↦ rw new (inl (mem-append.1 (Or.inr (mem-cons.1 (Or.inl refl)))))
]

pub found-IsPlaced :
    (r : Runner) (n : String) (ref : ℕ)
    → find_common_job_by_name r n ≡ some ref
    → IsPlacedIfNamed r ref
unfolding find_common_job_by_name find_common
found-IsPlaced r n ref e h = go (find_by_name (name_at r) n r.jobs) refl e
  where
    go :
        (o : Option ℕ)
        → find_by_name (name_at r) n r.jobs ≡ o
        → find_common r o ≡ some ref
        → IsPlaced r ref
    go none e f = ground arith
    go (some j) e f = inl (
        subst (λ k. Mem k r.jobs) (sym (found_at r j ref f)) (found-Mem (name_at r) n r.jobs j e).0)

module _ (r : Runner) (c : CommonJob) where
  -- The runner with the new job in its store, and not yet in its list.
  allocated : Runner
  allocated = record r { heap = update r.heap r.fresh (common c); fresh = r.fresh + 1 }

  -- The new job is in the list already, or a search gives what it gave before.
  search_same :
      (n : String) (js : List ℕ)
      → Mem r.fresh js ⊎ (find_by_name (name_at r) n js ≡ find_by_name (name_at allocated) n js)
  unfolding find_by_name allocated
  search_same n [] = inr refl
  search_same n (j ∷ js) = elim (Bool-cases (r.fresh == j)) [
    | inl hit ↦ let same : r.fresh ≡ j = ground arith in inl (mem-cons.1 (Or.inl same))
    | inr miss ↦ rw miss (elim (Bool-cases (name_at r j == n)) [
      | inl here ↦ rw here (inr refl)
      | inr not_here ↦ rw not_here (elim (search_same n js) [
        | inl there ↦ inl (mem-cons.1 (Or.inr there))
        | inr same ↦ inr same
      ])
    ])
  ]

  as_common-allocated : (i : ℕ) → (r.fresh == i) ≡ false → as_common allocated i ≡ as_common r i
  unfolding as_common allocated
  as_common-allocated i other = rw (other, as_common) refl

  -- A job that was made because the search found none of its name.
  fresh-IsPlaced :
      (n : String)
      → name_at allocated r.fresh ≡ n
      → find_common_job_by_name r n ≡ none
      → IsPlacedIfNamed allocated r.fresh
  unfolding find_common_job_by_name find_common allocated
  fresh-IsPlaced n named nowhere h =
      let (i, found) =
        found_of_has_name (name_at allocated) n r.jobs
          (subst (λ m. has_name (name_at allocated) m r.jobs ≡ true) named h) in
      let (there, its_name) = found-Mem (name_at allocated) n r.jobs i found in
      elim (Bool-cases (r.fresh == i)) [
        | inl hit ↦
            let same : r.fresh ≡ i = ground arith in
            inl (subst (λ k. Mem k r.jobs) (sym same) there)
        | inr miss ↦ elim (search_same n r.jobs) [
          | inl in_list ↦ inl in_list
          | inr same ↦ inr (record {
            other = i;
            in_list = there;
            named = its_name ∙ sym named;
            is_lazy =
                as_common-allocated i miss
                ∙ subst (λ o. find_common r o ≡ none) (same ∙ found) nowhere;
          })
        ]
      ]

name-find_config :
    (n : String) (cs : List JobConfig) (c : JobConfig) → find_config n cs ≡ some c → c.name ≡ n
unfolding find_config
name-find_config n [] c e = ground arith
name-find_config n (d ∷ ds) c e = elim (Bool-cases (d.name == n && is_none d.laziness)) [
  | inl hit ↦
      let same : d ≡ c = ground arith in
      let named : (d.name == n) ≡ true = ground arith in
      subst (λ (x : JobConfig). x.name ≡ n) same ((eq_iff d.name n).0 named)
  | inr miss ↦ name-find_config n ds c (rw miss at e)
]

checked_job-same :
    (job j : CommonJob) (x : List Effect × Option String) → checked_job job x ≡ ok j → job ≡ j
unfolding checked_job
checked_job-same job j (effects, none) e = ground arith
checked_job-same job j (effects, some error) e = ground arith

named_job :
    (m : Maker) (c : JobConfig) (j : CommonJob)
    → new_common_job m.now m.prepare c ≡ ok j
    → get_name j.base ≡ c.name
unfolding new_common_job get_name init
named_job m c j e = sym (
    ap (λ (k : CommonJob). k.base.config.name)
      (checked_job-same _ j (validate_std_files m.prepare c.base) e))

name_at-allocated : (r : Runner) (j : CommonJob) → name_at (allocated r j) r.fresh ≡ get_name j.base
unfolding allocated
name_at-allocated r j = rw (beq_self r.fresh) refl

abbrev IsPlacedResult : Result String (ℕ × Runner) → Type 0
IsPlacedResult (err e) = Unit
IsPlacedResult (ok (ref, r)) = IsPlacedIfNamed r ref

-- The job of the middleware that is made from the configuration, if one is.
pub configured-IsPlaced :
    (m : Maker) (r r' : Runner) (n : String) (ref : ℕ)
    → find_common_job_by_name r n ≡ none
    → find_common_ignition_job_by_name m r n ≡ ok (ref, r')
    → IsPlacedIfNamed r' ref
unfolding find_common_ignition_job_by_name allocate allocated
configured-IsPlaced m r r' n ref nowhere e = by_config (find_config n r.job_configs) refl e
  where
    by_job :
        (c : JobConfig) (x : Result String CommonJob)
        → new_common_job m.now m.prepare c ≡ x
        → c.name ≡ n
        → (x >>= λ j. ok (allocate r (common j))) ≡ ok (ref, r')
        → IsPlacedIfNamed r' ref
    by_job c (err message) made named f = ground arith
    by_job c (ok j) made named f =
        subst IsPlacedResult f
          (fresh-IsPlaced r j n (name_at-allocated r j ∙ named_job m c j made ∙ named) nowhere)

    by_config :
        (o : Option JobConfig)
        → find_config n r.job_configs ≡ o
        → make_configured m r n o ≡ ok (ref, r')
        → IsPlacedIfNamed r' ref
    by_config none found f = ground arith
    by_config (some c) found f =
        by_job c (new_common_job m.now m.prepare c) refl (name-find_config n r.job_configs c found)
          (unfold make_configured in f)
