-- ===== src/Probes/Kinds.antt =====
-- internal/helper/helper.go, and in pkg/probe the constructors of the probes that connect to an
-- address, with the answer of the HTTP probe. A constructor writes what it resolved back into the
-- configuration, so it returns that too. `getenv` is os.Getenv.
pub mod Addresses
pub mod Databases
use Prim.Native.Char.{code}
use Prim.Native.String.{len, slice}
use mittnite.Prelude.{
  ℕ, ◌*◌, String, ◌<>◌, Bool, true, false, ◌&&◌, Option, none, some, Result, ok, err, leb, ltb,
  ◌==◌, string_eq, nat_eq, if◌then◌else◌,
}
use mittnite.Config.{Credentials, Host, Redis, Smtp, Amqp, HttpGet}
use mittnite.Proc.BackOff.{second}
use mittnite.Probes.{Exec, alive, fails}

-- ResolveEnv
unfoldable pub resolve_env : (String → String) → String → String
resolve_env getenv text =
    if leb 4 (len text) && slice text 0 4 == "ENV:" then getenv (slice text 4 (len text)) else text

-- SetDefaultStringIfEmpty
unfoldable pub set_default_string_if_empty : String → String → String
set_default_string_if_empty current fallback = if current == "" then fallback else current

pub record RedisProbe : Type 0 where
  pub addr : String
  pub password : String

pub record SmtpProbe : Type 0 where
  pub addr : String

pub record AmqpProbe : Type 0 where
  pub user : String
  pub password : String
  pub hostname : String
  pub virtual_host : String
  pub port : String

pub record HttpGetProbe : Type 0 where
  pub scheme : String
  pub host : String
  pub path : String
  pub timeout : String

-- An address is the host and the port with a colon between them.
abbrev pub host_port : Host → String
host_port h = h.hostname <> ":" <> h.port

has_colon : String → Bool
has_colon String.[] = false
has_colon (String.◌∷◌ c s) = if code c == b':' then true else has_colon s

-- net.JoinHostPort
join_host_port : Host → String
unfolding has_colon
join_host_port h = if has_colon h.hostname then "[" <> h.hostname <> "]:" <> h.port else host_port h

module _ (getenv : String → String) where
  resolve_host : Host → String → Host
  unfolding resolve_env set_default_string_if_empty
  resolve_host h default = record {
    hostname = resolve_env getenv h.hostname;
    port = set_default_string_if_empty (resolve_env getenv h.port) default;
  }

  resolve_credentials : Credentials → Credentials
  unfolding resolve_env
  resolve_credentials c = record {
    user = resolve_env getenv c.user;
    password = resolve_env getenv c.password;
  }

  -- NewRedisProbe
  pub new_redis_probe : Redis → Redis × RedisProbe
  unfolding resolve_host
  new_redis_probe c =
      let c' : Redis = record {
        host = resolve_host c.host "6379";
        password = resolve_env getenv c.password;
      } in
      (c', record { addr = host_port c'.host; password = c'.password })

  -- NewSmtpProbe
  pub new_smtp_probe : Smtp → Smtp × SmtpProbe
  unfolding resolve_host join_host_port
  new_smtp_probe c =
      let c' : Smtp = record { host = resolve_host c.host "25" } in
      (c', record { addr = join_host_port c'.host })

  -- NewAmqpProbe
  pub new_amqp_probe : Amqp → Amqp × AmqpProbe
  unfolding resolve_host
  new_amqp_probe c =
      let v = resolve_env getenv c.virtual_host in
      let c' : Amqp = record {
        credentials = record {
          user = resolve_env getenv c.user;
          password = resolve_env getenv c.password;
        };
        host = resolve_host c.host "5672";
        virtual_host = if v == "" then "/" else v;
      } in
      (
        c',
        record {
          user = c'.user;
          password = c'.password;
          hostname = c'.hostname;
          virtual_host = c'.virtual_host;
          port = c'.port;
        },
      )

  -- NewHttpProbe: no default port.
  pub new_http_probe : HttpGet → HttpGet × HttpGetProbe
  unfolding resolve_env
  new_http_probe c =
      let scheme = resolve_env getenv c.scheme in
      let c' : HttpGet = record {
        scheme = if scheme == "" then "http" else scheme;
        host = record {
          hostname = resolve_env getenv c.hostname;
          port = resolve_env getenv c.port;
        };
        path = resolve_env getenv c.path;
        timeout = resolve_env getenv c.timeout;
      } in
      (
        c',
        record {
          scheme = c'.scheme;
          host = if c'.port == "" then c'.hostname else host_port c'.host;
          path = c'.path;
          timeout = c'.timeout;
        },
      )

-- The timeout of the HTTP probe, or the error of an unreadable one.
http_timeout : (String → Result String ℕ) → String → Result String ℕ
http_timeout parse_duration text = if text == "" then ok (5 * second) else parse_duration text

answered : (ℕ → String) → Result String ℕ → Exec
answered describe (err e) = fails e
answered describe (ok code) = if leb 200 code && ltb code 400 then alive else fails (describe code)

exec_within : (ℕ → String) → (ℕ → Result String ℕ) → Result String ℕ → Exec
unfolding answered
exec_within describe get (err e) = fails ("invalid timeout duration: " <> e)
exec_within describe get (ok timeout) = answered describe (get timeout)

-- httpGetProbe.Exec: `get` is the request with a timeout, and answers with a status code;
-- `describe` is the message for a bad code, which names the URL and the code.
unfoldable pub exec_http :
    (ℕ → String) → (String → Result String ℕ) → (ℕ → Result String ℕ) → HttpGetProbe → Exec
unfolding http_timeout exec_within
exec_http describe parse_duration get p =
    exec_within describe get (http_timeout parse_duration p.timeout)
