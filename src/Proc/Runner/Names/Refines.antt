-- ===== src/Proc/Runner/Names/Refines.antt =====
-- The list of jobs is a map from names to jobs: what any sequence of additions and removals comes
-- to, seen by the search for a name.
use mittnite.Prelude.{
  ℕ, ◌≡◌, refl, ◌∙◌, ap, ap₂, subst, String, Option, none, some, List, [], ◌∷◌, map, ◌==◌,
  string_eq, if◌then◌else◌, Bool-cases, inl, inr, eq_iff,
}
use mathlib.Core.Path.{fun_ext}
use mathlib.Core.List.{Nodup}
use mittnite.Proc.Runner.{
  Runner, name_at, job_name, has_name, find_by_name, add_job_if_not_exists, remove_job,
}
use mittnite.Proc.Runner.Names.Lists.{Nodup-concat}
use mittnite.Proc.Runner.Names.Find.{
  first_of, find-concat, found_of_has_name, find-swap_remove, swap_remove-Nodup,
}

-- The calls that change the list, for a job of the store.
pub data Change : Type 0 where
  adds removes : ℕ → Change

pub apply : List Change → Runner → Runner
apply [] r = r
apply (adds j ∷ cs) r = apply cs (add_job_if_not_exists r j)
apply (removes j ∷ cs) r = apply cs (remove_job r j)

-- The abstract map.
abbrev pub Names : Type 0
Names = String → Option ℕ

abbrev pub bind_new : String → ℕ → Names → Names
bind_new name j f n = first_of (f n) (if name == n then some j else none)

abbrev pub unbind : String → Names → Names
unbind name f n = if name == n then none else f n

-- The same calls on the map: a name that is bound stays bound to the job it has.
pub replay : (ℕ → String) → List Change → Names → Names
replay name [] f = f
replay name (adds j ∷ cs) f = replay name cs (bind_new (name j) j f)
replay name (removes j ∷ cs) f = replay name cs (unbind (name j) f)

abbrev pub names_of : Runner → Names
names_of r n = find_by_name (name_at r) n r.jobs

abbrev pub IsDistinct : Runner → Type 0
IsDistinct r = Nodup (map (name_at r) r.jobs)

names_of-add :
    (r : Runner) (j : ℕ)
    → names_of (add_job_if_not_exists r j) ≡ bind_new (name_at r j) j (names_of r)
unfolding add_job_if_not_exists
names_of-add r j = fun_ext λ n. elim (Bool-cases (has_name (name_at r) (name_at r j) r.jobs)) [
  | inl there ↦ rw there (kept n (found_of_has_name (name_at r) (name_at r j) r.jobs there))
  | inr new ↦ rw new (find-concat (name_at r) n r.jobs j)
]
  where
    kept :
        (n : String)
        → (k : ℕ) × (names_of r (name_at r j) ≡ some k)
        → names_of r n ≡ bind_new (name_at r j) j (names_of r) n
    kept n (k, e) = elim (Bool-cases (name_at r j == n)) [
      | inl same ↦
          let found : names_of r n ≡ some k =
            subst (λ i. names_of r i ≡ some k) ((eq_iff (name_at r j) n).0 same) e in
          rw found refl
      | inr other ↦ rw other (by_case (names_of r n))
    ]
      where
        by_case : (o : Option ℕ) → o ≡ first_of o none
        by_case none = refl
        by_case (some i) = refl

names_of-remove :
    (r : Runner) (j : ℕ)
    → IsDistinct r
    → names_of (remove_job r j) ≡ unbind (name_at r j) (names_of r)
unfolding remove_job
names_of-remove r j d = fun_ext λ n. find-swap_remove (name_at r) (name_at r j) n r.jobs d

add-IsDistinct : (r : Runner) (j : ℕ) → IsDistinct r → IsDistinct (add_job_if_not_exists r j)
unfolding add_job_if_not_exists
add-IsDistinct r j d = elim (Bool-cases (has_name (name_at r) (name_at r j) r.jobs)) [
  | inl there ↦ rw there d
  | inr new ↦ rw new (Nodup-concat (name_at r) r.jobs j d new)
]

remove-IsDistinct : (r : Runner) (j : ℕ) → IsDistinct r → IsDistinct (remove_job r j)
unfolding remove_job
remove-IsDistinct r j d = swap_remove-Nodup (name_at r) (name_at r j) r.jobs d

heap-add : (r : Runner) (j : ℕ) → (add_job_if_not_exists r j).heap ≡ r.heap
unfolding add_job_if_not_exists
heap-add r j = elim (Bool-cases (has_name (name_at r) (name_at r j) r.jobs)) [
  | inl there ↦ rw there refl
  | inr new ↦ rw new refl
]

-- Any sequence of additions and removals on a list of distinct names leaves distinct names, and the
-- search for a name in the resulting list answers as the abstract map does after the same calls:
-- an addition binds its name unless it is bound, a removal unbinds it and no other, though the code
-- moves the last job into the gap.
pub apply-replay :
    (cs : List Change) (r : Runner)
    → IsDistinct r
    → IsDistinct (apply cs r) × (names_of (apply cs r) ≡ replay (name_at r) cs (names_of r))
unfolding apply replay remove_job
apply-replay [] r d = (d, refl)
apply-replay (adds j ∷ cs) r d =
    let (distinct, same) = apply-replay cs (add_job_if_not_exists r j) (add-IsDistinct r j d) in
    (
      distinct,
      same ∙ ap₂ (λ h f. replay (λ i. job_name (h i)) cs f) (heap-add r j) (names_of-add r j),
    )
apply-replay (removes j ∷ cs) r d =
    let (distinct, same) = apply-replay cs (remove_job r j) (remove-IsDistinct r j d) in
    (distinct, same ∙ ap (replay (name_at r) cs) (names_of-remove r j d))
