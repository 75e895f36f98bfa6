-- ===== src/Cmd/Env/Warned.antt =====
-- What a warning about the environment says.
use mittnite.Prelude.{
  String, ◌≡◌, refl, ap, ◌∙◌, Bool, Option, none, some, List, [], ◌∷◌, All, All-append,
}
use mittnite.Config.Text.{parse_bool}
use mittnite.Cmd.Env.{
  value_or_empty, parsed_or, env_bool, Warning, unless_parsed, warning_of, warning_loop,
  env_job_log_timestamps, env_job_log_name_prefix, warn_unparsable_env_bools,
}

-- The warning is about a variable that is set to its text; and the variable leaves its switch at
-- the default, whatever that is.
pub record Tells (env : String → Option String) (w : Warning) : Type 0 where
  pub is_set : env w.key ≡ some w.text
  pub ignored : (default_value : Bool) → env_bool env w.key default_value ≡ default_value

module _ (env : String → Option String) where
  ignored_unparsed :
      (key v : String) (default_value : Bool)
      → env key ≡ some v
      → parse_bool v ≡ none
      → env_bool env key default_value ≡ default_value
  unfolding env_bool value_or_empty parsed_or
  ignored_unparsed key v default_value here bad =
      ap (λ o. parsed_or default_value (parse_bool (value_or_empty o))) here
      ∙ ap (parsed_or default_value) bad

  unless_parsed-Tells :
      (key v : String) (effective : Bool) (o : Option Bool)
      → env key ≡ some v
      → parse_bool v ≡ o
      → All (Tells env) (unless_parsed key v effective o)
  unfolding unless_parsed
  unless_parsed-Tells key v effective none here bad =
      (record { is_set = here; ignored = λ b. ignored_unparsed key v b here bad }, tt)
  unless_parsed-Tells key v effective (some b) here good = tt

  warning_of-Tells :
      (key : String) (effective : Bool) (o : Option String)
      → env key ≡ o
      → All (Tells env) (warning_of key effective o)
  unfolding warning_of
  warning_of-Tells key effective none here = tt
  warning_of-Tells key effective (some v) here =
      unless_parsed-Tells key v effective (parse_bool v) here refl

  warning_loop-Tells :
      (switches : List (String × Bool)) → All (Tells env) (warning_loop env switches)
  unfolding warning_loop
  warning_loop-Tells [] = tt
  warning_loop-Tells ((key, effective) ∷ rest) =
      All-append (Tells env) (warning_of key effective (env key)) (warning_loop env rest)
        (warning_of-Tells key effective (env key) refl) (warning_loop-Tells rest)

  -- Each warning about the environment is true: it names a variable that is set, to the text that
  -- it quotes, and this variable leaves its switch at the built-in default, whatever that is.
  pub warnings-Tells :
      (timestamps name_prefix : Bool)
      → All (Tells env) (warn_unparsable_env_bools env timestamps name_prefix)
  unfolding warn_unparsable_env_bools
  warnings-Tells timestamps name_prefix =
      warning_loop-Tells
        ((env_job_log_timestamps, timestamps) ∷ (env_job_log_name_prefix, name_prefix) ∷ [])
