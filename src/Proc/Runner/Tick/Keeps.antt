-- ===== src/Proc/Runner/Tick/Keeps.antt =====
-- A tick neither loses a job nor adds one.
use mittnite.Prelude.{
  ℕ, ◌<◌, ◌≡◌, refl, sym, ◌∙◌, ap, subst, false, List, [], ◌∷◌, ◌++◌, map, Bool-cases, inl, inr,
  Result, ok, err, ◌>>=◌, All,
}
use mathlib.Core.Logic.Or
use mathlib.Core.List.{Perm, Mem, Nodup, Nodup-cons, mem-cons, perm_middle, append-nil, not-mem-nil}
use mathlib.Core.List.Perm
use native.Mathlib.Bridge.{le_prop}
use mittnite.Proc.Phase.{unknown}
use mittnite.Proc.BaseJob.{get_name}
use mittnite.Proc.CommonJob.Watching.{FileSystem, watch}
use mittnite.Proc.CommonJob.Watching.Config.{base_config-watch}
use mittnite.Proc.Runner.{
  Job, common, lazy, common_of, with_common, job_name, Runner, name_at, has_name,
  add_job_if_not_exists, remove_job, swap_remove,
}
use mittnite.Proc.Runner.Names.{IsValid}
use mittnite.Proc.Runner.Names.Lists.{swap_remove-perm, find_by_name_self, has_name_of_not-mem}
use mittnite.Proc.Runner.Names.Keeps.{
  left_by, SameJobs, SameJobs-IsValid, SameJobs-trans, name_at-update, start_job-SameJobs,
}
use mittnite.Proc.Runner.Tick.{
  watch_all, needs_restart, to_restart, bring_back, bring_all_back, tick,
}

-- The same jobs in another order, with the same names.
pub record Reordered (r s : Runner) : Type 0 where
  pub jobs : Perm r.jobs s.jobs
  pub fresh : s.fresh ≡ r.fresh
  pub names : (j : ℕ) → name_at s j ≡ name_at r j

Reordered-trans : {r s t : Runner} → Reordered r s → Reordered s t → Reordered r t
Reordered-trans a b = record {
  jobs = Perm.trans a.jobs b.jobs;
  fresh = b.fresh ∙ a.fresh;
  names = λ j. b.names j ∙ a.names j;
}

SameJobs-Reordered : {r s : Runner} → SameJobs r s → Reordered r s
SameJobs-Reordered {r} {s} same = record {
  jobs = subst (Perm r.jobs) (sym same.jobs) (Perm.refl r.jobs);
  fresh = same.fresh;
  names = same.names;
}

map_name :
    (r s : Runner) (js : List ℕ)
    → ((j : ℕ) → name_at s j ≡ name_at r j)
    → map (name_at s) js ≡ map (name_at r) js
map_name r s [] same = refl
map_name r s (j ∷ js) same = cc (same j, map_name r s js same)

All-of_mem : {n : ℕ} (xs : List ℕ) → ((j : ℕ) → Mem j xs → j < n) → All (λ j. j < n) xs
All-of_mem [] h = tt
All-of_mem (x ∷ xs) h =
    (h x (mem-cons.1 (Or.inl refl)), All-of_mem xs (λ j m. h j (mem-cons.1 (Or.inr m))))

mem_of_All : {n : ℕ} (xs : List ℕ) → All (λ j. j < n) xs → (j : ℕ) → Mem j xs → j < n
mem_of_All [] h j m = absurd (not-mem-nil m)
mem_of_All (x ∷ xs) h j m =
    Or.elim le_prop (mem-cons.0 m) (λ (e : j ≡ x). rw e h.0) (mem_of_All xs h.1 j)

Reordered-IsValid : {r s : Runner} → Reordered r s → IsValid r → IsValid s
Reordered-IsValid {r} {s} re v = record {
  distinct =
      subst Nodup (sym (map_name r s s.jobs re.names))
        (Perm.nodup (Perm.map (name_at r) re.jobs) v.distinct);
  allocated =
      subst (λ n. All (λ j. j < n) s.jobs) (sym re.fresh)
        (All-of_mem s.jobs
          (λ j m. mem_of_All r.jobs v.allocated j (Perm.subset (Perm.symm re.jobs) j m)));
}

watch_all-SameJobs : (fs : FileSystem) (js : List ℕ) (r : Runner) → SameJobs r (watch_all fs js r)
unfolding watch_all
watch_all-SameJobs fs [] r = record { jobs = refl; fresh = refl; names = λ j. refl }
watch_all-SameJobs fs (j ∷ js) r =
    SameJobs-trans
      (record { jobs = refl; fresh = refl; names = λ i. name_at-update r j _ i (named (r.heap j)) })
      (watch_all-SameJobs fs js _)
  where
    named : (k : Job) → job_name (with_common (watch fs (common_of k)).0 k) ≡ job_name k
    named (common k) = unfold get_name in ap (λ c. c.name) (base_config-watch fs k)
    named (lazy k) = unfold get_name in ap (λ c. c.name) (base_config-watch fs k.common)

-- The job leaves the list and comes back at its end.
remove_add :
    (r : Runner) (j : ℕ)
    → IsValid r
    → Mem j r.jobs
    → Reordered r (add_job_if_not_exists (remove_job r j) j)
unfolding add_job_if_not_exists remove_job
remove_add r j v m = rw gone (record {
  jobs = Perm.trans moved (
      Perm.symm
        (subst (λ js. Perm (rest ++ j ∷ []) (j ∷ js)) (append-nil rest) (perm_middle rest [])));
  fresh = refl;
  names = λ i. refl;
})
  where
    rest : List ℕ
    rest = swap_remove (name_at r) (name_at r j) r.jobs

    moved : Perm r.jobs (j ∷ rest)
    moved =
        swap_remove-perm (name_at r) (name_at r j) r.jobs j
          (find_by_name_self (name_at r) r.jobs j v.distinct m)

    gone : has_name (name_at r) (name_at r j) rest ≡ false
    gone =
        has_name_of_not-mem (name_at r) (name_at r j) rest
          (Nodup-cons.0 (Perm.nodup (Perm.map (name_at r) moved) v.distinct)).0

bring_back-Reordered :
    (now : ℕ) (fs : FileSystem) (r : Runner) (j : ℕ)
    → IsValid r
    → Mem j r.jobs
    → Reordered r (left_by (bring_back now fs r j))
unfolding bring_back
bring_back-Reordered now fs r j v m = Reordered-trans (remove_add r j v m) (
    SameJobs-Reordered
      (start_job-SameJobs now fs (add_job_if_not_exists (remove_job r j) j) j unknown))

bring_all_back-Reordered :
    (now : ℕ) (fs : FileSystem) (js : List ℕ) (r : Runner)
    → IsValid r
    → ((j : ℕ) → Mem j js → Mem j r.jobs)
    → Reordered r (left_by (bring_all_back now fs js r))
unfolding bring_all_back
bring_all_back-Reordered now fs [] r v sub = record {
  jobs = Perm.refl r.jobs;
  fresh = refl;
  names = λ j. refl;
}
bring_all_back-Reordered now fs (j ∷ js) r v sub =
    go (bring_back now fs r j)
      (bring_back-Reordered now fs r j v (sub j (mem-cons.1 (Or.inl refl))))
      (λ s. bring_all_back-Reordered now fs js s)
  where
    go :
        (x : Result Runner Runner)
        → Reordered r (left_by x)
        → ((s : Runner)
            → IsValid s
            → ((i : ℕ) → Mem i js → Mem i s.jobs)
            → Reordered s (left_by (bring_all_back now fs js s)))
        → Reordered r (left_by (x >>= bring_all_back now fs js))
    go (err s) re rest = re
    go (ok s) re rest = Reordered-trans re (
        rest s (Reordered-IsValid re v)
          (λ i m. Perm.subset re.jobs i (sub i (mem-cons.1 (Or.inr m)))))

to_restart-mem : (r : Runner) (js : List ℕ) (j : ℕ) → Mem j (to_restart r js) → Mem j js
unfolding to_restart
to_restart-mem r [] j m = m
to_restart-mem r (x ∷ xs) j m = elim (Bool-cases (needs_restart (r.heap x))) [
  | inl yes_restart ↦
      Or.elim squash₁ (mem-cons.0 (rw yes_restart at m)) (λ (e : j ≡ x). mem-cons.1 (Or.inl e))
        (λ (m' : Mem j (to_restart r xs)). mem-cons.1 (Or.inr (to_restart-mem r xs j m')))
  | inr not_restart ↦ mem-cons.1 (Or.inr (to_restart-mem r xs j (rw not_restart at m)))
]

-- A tick, whatever it finds to restart and whether or not a start panics, leaves the runner with
-- the same jobs under the same names, in another order at most, and so valid.
pub tick-IsValid :
    (now : ℕ) (fs : FileSystem) (r : Runner)
    → IsValid r
    → IsValid (left_by (tick now fs r)) × Perm r.jobs (left_by (tick now fs r)).jobs
unfolding tick
tick-IsValid now fs r v = elim (Bool-cases r'.keep_running) [
  | inl keeps ↦
      let re = Reordered-trans watched (
        bring_all_back-Reordered now fs (to_restart r' r'.jobs) r' valid
          (to_restart-mem r' r'.jobs)) in
      simp keeps (Reordered-IsValid re v, re.jobs)
  | inr once ↦ simp once (valid, watched.jobs)
]
  where
    r' : Runner
    r' = watch_all fs r.jobs r

    watched : Reordered r r'
    watched = SameJobs-Reordered (watch_all-SameJobs fs r.jobs r)

    valid : IsValid r'
    valid = SameJobs-IsValid (watch_all-SameJobs fs r.jobs r) v
