-- ===== src/Probes/Kinds/Addresses.antt =====
-- What the constructors of probes make of a configuration.
use mittnite.Prelude.{
  ℕ, ◌≡◌, ◌≢◌, ◌≤◌, ◌<◌, refl, String, ◌&&◌, Result, ok, err, string_eq, eq_iff, arith, leb, ltb,
  Bool-cases, inl, inr,
}
use mittnite.Config.{Redis, Smtp, Amqp}
use mittnite.Probes.{alive, fails}
use mittnite.Probes.Kinds.{
  resolve_env, set_default_string_if_empty, resolve_host, new_redis_probe, new_smtp_probe,
  new_amqp_probe, HttpGetProbe, exec_http, exec_within, answered, http_timeout,
}

default_given : (s d : String) → d ≢ "" → set_default_string_if_empty s d ≢ ""
unfolding set_default_string_if_empty
default_given s d h = ground (arith, eq_iff s "", h)

-- The probes that have a default port never get an empty one, whatever the configuration and the
-- environment hold, and the virtual host of AMQP is not empty either.
pub ports_given :
    (getenv : String → String) (redis : Redis) (smtp : Smtp) (amqp : Amqp)
    → ((new_redis_probe getenv redis).0.port ≢ "")
      × ((new_smtp_probe getenv smtp).0.port ≢ "")
      × ((new_amqp_probe getenv amqp).1.port ≢ "")
      × ((new_amqp_probe getenv amqp).1.virtual_host ≢ "")
unfolding new_redis_probe new_smtp_probe new_amqp_probe resolve_host
ports_given getenv redis smtp amqp = (
  default_given (resolve_env getenv redis.port) "6379" (ground (arith, eq_iff "6379" "")),
  default_given (resolve_env getenv smtp.port) "25" (ground (arith, eq_iff "25" "")),
  default_given (resolve_env getenv amqp.port) "5672" (ground (arith, eq_iff "5672" "")),
  default_given (resolve_env getenv amqp.virtual_host) "/" (ground (arith, eq_iff "/" "")),
)

abbrev AnswersWell : (ℕ → Result String ℕ) → Type 0
AnswersWell get = (timeout : ℕ) × (code : ℕ) × (get timeout ≡ ok code) × (200 ≤ code) × (code < 400)

code-AnswersWell :
    (describe : ℕ → String) (get : ℕ → Result String ℕ) (timeout : ℕ) (x : Result String ℕ)
    → get timeout ≡ x
    → answered describe x ≡ alive
    → AnswersWell get
unfolding answered
code-AnswersWell describe get timeout (err m) here e = ground arith
code-AnswersWell describe get timeout (ok code) here e =
    elim (Bool-cases (leb 200 code && ltb code 400)) [
      | inl good ↦ (timeout, code, here, ground (arith, good), ground (arith, good))
      | inr bad ↦ absurd (never (rw bad at e))
    ]
  where
    never : ¬ (fails (describe code) ≡ alive)
    never e = ground arith

within-AnswersWell :
    (describe : ℕ → String) (get : ℕ → Result String ℕ) (t : Result String ℕ)
    → exec_within describe get t ≡ alive
    → AnswersWell get
unfolding exec_within
within-AnswersWell describe get (err m) e = ground arith
within-AnswersWell describe get (ok timeout) e =
    code-AnswersWell describe get timeout (get timeout) refl e

-- The HTTP probe is alive only if the service answers within some timeout with a status from 200 to
-- 399.
pub http-AnswersWell :
    (describe : ℕ → String) (parse_duration : String → Result String ℕ) (get : ℕ → Result String ℕ)
    (p : HttpGetProbe)
    → exec_http describe parse_duration get p ≡ alive
    → (timeout : ℕ) × (code : ℕ) × (get timeout ≡ ok code) × (200 ≤ code) × (code < 400)
unfolding exec_http
http-AnswersWell describe parse_duration get p e =
    within-AnswersWell describe get (http_timeout parse_duration p.timeout) e
