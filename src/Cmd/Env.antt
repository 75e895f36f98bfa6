-- ===== src/Cmd/Env.antt =====
-- The switches that up.go reads from the environment; `env` is os.LookupEnv.
pub mod Warned
use mittnite.Prelude.{String, Bool, true, false, Option, none, some, List, [], ◌∷◌, ◌++◌}
use mittnite.Config.Text.{parse_bool}

-- os.Getenv, from what os.LookupEnv answers
value_or_empty : Option String → String
value_or_empty none = ""
value_or_empty (some v) = v

parsed_or : Bool → Option Bool → Bool
parsed_or default_value none = default_value
parsed_or default_value (some v) = v

-- envBool
pub env_bool : (String → Option String) → String → Bool → Bool
unfolding parse_bool value_or_empty parsed_or
env_bool env key default_value = parsed_or default_value (parse_bool (value_or_empty (env key)))

pub record Warning : Type 0 where
  pub key : String
  pub text : String
  pub effective : Bool

unless_parsed : String → String → Bool → Option Bool → List Warning
unless_parsed key v effective none = record { key = key; text = v; effective = effective } ∷ []
unless_parsed key v effective (some b) = []

warning_of : String → Bool → Option String → List Warning
unfolding unless_parsed parse_bool
warning_of key effective none = []
warning_of key effective (some v) = unless_parsed key v effective (parse_bool v)

warning_loop : (String → Option String) → List (String × Bool) → List Warning
unfolding warning_of
warning_loop env [] = []
warning_loop env ((key, effective) ∷ rest) =
    warning_of key effective (env key) ++ warning_loop env rest

abbrev pub env_job_log_timestamps : String
env_job_log_timestamps = "MITTNITE_JOB_LOG_TIMESTAMPS"

abbrev pub env_job_log_name_prefix : String
env_job_log_name_prefix = "MITTNITE_JOB_LOG_NAME_PREFIX"

-- warnUnparsableEnvBools; the source goes through a map, in any order.
pub warn_unparsable_env_bools : (String → Option String) → Bool → Bool → List Warning
unfolding warning_loop
warn_unparsable_env_bools env job_log_timestamps job_log_name_prefix = warning_loop env (
    (env_job_log_timestamps, job_log_timestamps)
    ∷ (env_job_log_name_prefix, job_log_name_prefix)
    ∷ [])

-- A flag of `init`: what the command line gives, else the default from the environment.
flag_or : Bool → Option Bool → Bool
flag_or default_value none = default_value
flag_or default_value (some v) = v

-- The flag --job-log-timestamps
pub job_log_timestamps_flag : (String → Option String) → Option Bool → Bool
unfolding env_bool flag_or
job_log_timestamps_flag env given = flag_or (env_bool env env_job_log_timestamps true) given

-- The flag --job-log-name-prefix
pub job_log_name_prefix_flag : (String → Option String) → Option Bool → Bool
unfolding env_bool flag_or
job_log_name_prefix_flag env given = flag_or (env_bool env env_job_log_name_prefix true) given
