-- ===== src/Examples/Kinds.antt =====
-- Probes from configurations that leave out what has a default.
use mittnite.Prelude.{ℕ, ◌≡◌, refl, String, Result, ok, string_eq}
use mittnite.Config.{Redis, Smtp, Amqp}
use mittnite.Probes.{alive}
use mittnite.Probes.Kinds.{HttpGetProbe, exec_http}

abbrev no_variables : String → String
no_variables name = ""

abbrev redis : Redis
redis = record { host = record { hostname = "db"; port = "ENV:PORT" }; password = "" }

abbrev smtp : Smtp
smtp = record { host = record { hostname = "mail"; port = "" } }

abbrev amqp : Amqp
amqp = record {
  credentials = record { user = "u"; password = "p" };
  host = record { hostname = "mq"; port = "" };
  virtual_host = "";
}

abbrev page : HttpGetProbe
page = record { scheme = "http"; host = "web:80"; path = "/"; timeout = "" }

abbrev get : ℕ → Result String ℕ
get timeout = ok 204

is_alive : exec_http (λ code. "") (λ text. ok 1) get page ≡ alive
unfolding exec_http
is_alive = refl
