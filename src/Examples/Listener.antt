-- ===== src/Examples/Listener.antt =====
-- A lazy job with two listeners, where the port of the second is taken.
use mittnite.Prelude.{
  ◌≡◌, refl, String, Option, none, some, [], ◌∷◌, false, ◌==◌, string_eq, if◌then◌else◌, arith,
}
use mittnite.Config
use mittnite.Proc.LazyJob.{LazyJob}
use mittnite.Proc.Listener.{lazy_run, returned}
use mittnite.Proc.Listener.Binds.{lazy_run-waits}
use mittnite.Examples.{web}

abbrev listener_at : String → Config.Listener
listener_at address = record {
  address = address;
  listen_protocol = "tcp";
  forward = "localhost:80";
  forward_protocol = "";
  protocol = "";
}

abbrev two_listeners : LazyJob
two_listeners = record {
  common = record web {
    config = record web.config { listeners = listener_at ":81" ∷ listener_at ":82" ∷ [] };
  };
  process = none;
  active_connections = 0;
  spin_up_timeout = 5;
  cool_down_timeout = 10;
  last_connection_closed = 0;
}

abbrev taken_port : String → String → Option String
taken_port proto address = if address == ":82" then some "address already in use" else none

lazy_run-waits_example :
    ((lazy_run taken_port two_listeners).result ≡ some "address already in use")
    × ((lazy_run taken_port two_listeners).watches_idle ≡ false)
    × (returned (lazy_run taken_port two_listeners) 0 ≡ none)
lazy_run-waits_example =
    lazy_run-waits taken_port two_listeners (listener_at ":81" ∷ []) [] (listener_at ":82")
      "address already in use" 0 refl (refl, tt) refl (omega arith)
