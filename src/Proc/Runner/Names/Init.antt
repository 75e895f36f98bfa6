-- ===== src/Proc/Runner/Names/Init.antt =====
-- Runner.Init on a new runner.
use mittnite.Prelude.{
  ℕ, ◌+◌, ◌<◌, ◌≡◌, refl, sym, subst, String, Bool, List, [], ◌∷◌, map, Result, ok, err, ◌>>=◌, All,
  Bool-cases, inl, inr, arith, ◌==◌, nat_eq,
}
use mathlib.Core.List.{Nodup, Nodup-nil}
use mittnite.Config.{JobConfig}
use mittnite.Proc.Runner.{
  Job, job_name, Runner, update, name_at, allocate, new_runner, Maker, make_job, labelled, add_new,
  init_loop, init_runner,
}
use mittnite.Proc.Runner.Names.{IsValid}
use mittnite.Proc.Runner.Names.Keeps.{add_job_if_not_exists-IsValid}

module _ (r : Runner) (j : Job) where
  name_below : (i : ℕ) → i < r.fresh → job_name (update r.heap r.fresh j i) ≡ name_at r i
  name_below i lt = elim (Bool-cases (r.fresh == i)) [
    | inl hit ↦ ground (arith, hit)
    | inr miss ↦ rw miss refl
  ]

  map-name_below :
      (is : List ℕ)
      → All (λ i. i < r.fresh) is
      → map (λ i. job_name (update r.heap r.fresh j i)) is ≡ map (name_at r) is
  map-name_below [] h = refl
  map-name_below (i ∷ is) h = cc (name_below i h.0, map-name_below is h.1)

  below_more : (is : List ℕ) → All (λ i. i < r.fresh) is → All (λ i. i < r.fresh + 1) is
  below_more [] h = tt
  below_more (i ∷ is) h = (omega (arith, h.0), below_more is h.1)

  pub allocate-IsValid : IsValid r → IsValid (allocate r j).1
  unfolding allocate
  allocate-IsValid v = record {
    distinct = subst Nodup (sym (map-name_below r.jobs v.allocated)) v.distinct;
    allocated = below_more r.jobs v.allocated;
  }

  add_new-IsValid : IsValid r → IsValid (add_new r j)
  unfolding add_new
  add_new-IsValid v =
      add_job_if_not_exists-IsValid (allocate r j).1 r.fresh (unfold allocate in omega arith)
        (allocate-IsValid v)

-- What a call that may fail leaves is valid.
abbrev IsValidResult : Result String Runner → Type 0
IsValidResult (ok r) = IsValid r
IsValidResult (err e) = Unit

bind-IsValidResult :
    (x : Result String Job) (f : Job → Result String Runner)
    → ((j : Job) → IsValidResult (f j))
    → IsValidResult (x >>= f)
bind-IsValidResult (ok j) f h = h j
bind-IsValidResult (err e) f h = tt

init_loop-IsValid :
    (m : Maker) (cs : List JobConfig) (r : Runner) → IsValid r → IsValidResult (init_loop m cs r)
unfolding init_loop
init_loop-IsValid m [] r v = v
init_loop-IsValid m (c ∷ cs) r v =
    bind-IsValidResult (labelled c.name (make_job m c c.laziness))
      (λ j. init_loop m cs (add_new r j))
      (λ j. init_loop-IsValid m cs (add_new r j) (add_new-IsValid r j v))

new_runner-IsValid :
    (nothing : ℕ → Job) (keep : Bool) (cs : List JobConfig) → IsValid (new_runner nothing keep cs)
unfolding new_runner
new_runner-IsValid nothing keep cs = record { distinct = Nodup-nil; allocated = tt }

-- The runner that Init leaves when it succeeds holds allocated jobs only, and at most one of each
-- name, also where the configuration has a name twice.
pub init_runner-IsValid :
    (m : Maker) (nothing : ℕ → Job) (keep : Bool) (cs : List JobConfig) (r : Runner)
    → init_runner m (new_runner nothing keep cs) ≡ ok r
    → IsValid r
unfolding init_runner
init_runner-IsValid m nothing keep cs r e = subst IsValidResult e (
    init_loop-IsValid m (new_runner nothing keep cs).job_configs (new_runner nothing keep cs)
      (new_runner-IsValid nothing keep cs))
