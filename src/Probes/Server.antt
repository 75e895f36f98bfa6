-- ===== src/Probes/Server.antt =====
-- RunProbeServer of pkg/probe/server.go.
use mittnite.Prelude.{String, ℕ, Option, none, some, List, [], ◌∷◌, if◌then◌else◌}
use mittnite.Probes.{stops}

-- How ListenAndServe ends: ErrServerClosed after a shutdown, or another error.
pub data Served : Type 0 where
  server_closed : Served
  serve_error : String → Served

-- The goroutine that shuts the server down: at each SIGINT or SIGTERM among the signals.
pub shutdowns : List ℕ → List ℕ
shutdowns [] = []
shutdowns (sig ∷ sigs) = let rest = shutdowns sigs in if stops sig then sig ∷ rest else rest

-- The error of RunProbeServer.
pub run_probe_server : Served → Option String
run_probe_server server_closed = none
run_probe_server (serve_error e) = some e
