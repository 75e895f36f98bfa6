-- ===== src/Config/Load/Deprecated.antt =====
-- What becomes of the deprecated `max_attempts` option when the configuration is read.
use mittnite.Prelude.{String, ◌≡◌, none, some, List, [], ◌∷◌, ◌++◌, arith, subst, sym}
use mathlib.Core.List.{append-nil, append_assoc}
use mittnite.Config.{Ignition, JobConfig}
use mittnite.Config.Load.{
  Source, Loaded, load_files, deprecation_loop, after_load, after_find, generate_from_config_dir,
  find_in_path,
}
use mittnite.Config.Text.{trim_right}

-- The jobs that set `max_attempts`, in order.
abbrev pub uses_deprecated : List JobConfig → List String
uses_deprecated [] = []
uses_deprecated (j ∷ js) = elim j.max_attempts_deprecated [
  | none ↦ uses_deprecated js
  | some n ↦ j.name ∷ uses_deprecated js
]

module _ {P : Type 0} (source : Source P) where
  deprecation_loop_lem :
      (jobs : List JobConfig) (warnings : List String)
      → deprecation_loop source jobs warnings ≡ warnings ++ uses_deprecated jobs
  unfolding deprecation_loop
  deprecation_loop_lem [] warnings = rw append-nil
  deprecation_loop_lem (j ∷ js) warnings = ground (
    arith,
    deprecation_loop_lem js warnings,
    deprecation_loop_lem js (warnings ++ j.name ∷ []),
    append_assoc warnings (j.name ∷ []) (uses_deprecated js),
  )

  -- When every file is found, read and decoded, the configuration is the decoder's, unchanged,
  -- and one warning stands for each job that sets the deprecated option, in order.
  pub generate_succeeds :
      (config_dir : String) (c d : Ignition P) (matches : List String)
      → find_in_path source.walk (trim_right b'/' config_dir) ≡ (matches, none)
      → load_files source matches c ≡ (d, none)
      → generate_from_config_dir source config_dir c
        ≡ record { config = d; error = none; warnings = uses_deprecated d.jobs }
  unfolding generate_from_config_dir after_find after_load
  generate_succeeds config_dir c d matches found loaded =
      subst (λ p. after_find source p c ≡ loaded_ok) (sym found)
        (subst (λ q. after_load source q ≡ loaded_ok) (sym loaded)
          (rw (deprecation_loop_lem d.jobs [])))
    where
      loaded_ok : Loaded P
      loaded_ok = record { config = d; error = none; warnings = uses_deprecated d.jobs }
