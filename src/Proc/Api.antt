-- ===== src/Proc/Api.antt =====
-- pkg/proc/api.go and NewApi of types.go: where the HTTP server listens, and how it starts and ends.
use Prim.Native.String.{String, len, slice}
use mittnite.Prelude.{
  ℕ, zero, suc, ◌-◌, Bool, true, false, ◌&&◌, Option, none, some, List, [], ◌∷◌, ◌==◌, string_eq,
  leb, if◌then◌else◌, ◌<>◌,
}

-- `server` is whether the HTTP server was made.
pub record Api : Type 0 where
  pub listen_addr : String
  pub server : Bool

-- NewApi
pub new_api : String → Api
new_api listen_address = record { listen_addr = listen_address; server = false }

has_prefix : String → String → Bool
has_prefix s t = leb (len t) (len s) && slice s 0 (len t) == t

-- strings.Split at a text that is not empty; the number says how many characters of a separator are
-- still to be passed over.
split_loop : String → ℕ → String → String → List String
unfolding has_prefix
split_loop separator n part String.[] = part ∷ []
split_loop separator (suc n) part (String.◌∷◌ c s) = split_loop separator n part s
split_loop separator zero part (String.◌∷◌ c s) =
    let next = split_loop separator (len separator - 1) "" s in
    let more = split_loop separator zero (part <> String.◌∷◌ c String.[]) s in
    if has_prefix (String.◌∷◌ c s) separator then part ∷ next else more

-- Where the server listens.
pub data Endpoint : Type 0 where
  on_port : String → Endpoint
  on_unix_socket : String → Endpoint

listen_at : String → List String → Endpoint
listen_at addr (front ∷ socket ∷ rest) = on_unix_socket socket
listen_at addr parts = on_port addr

-- The choice in `listen`.
unfoldable pub listen : Api → Endpoint
unfolding split_loop listen_at
listen api = listen_at api.listen_addr (split_loop "unix://" zero "" api.listen_addr)

-- How serving ends.
pub data ServeError : Type 0 where
  server_closed : ServeError
  cannot_prepare : String → ServeError
  other_error : String → ServeError

unless_closed : ServeError → Option ServeError
unless_closed server_closed = none
unless_closed (cannot_prepare e) = some (cannot_prepare e)
unless_closed (other_error e) = some (other_error e)

serving : Option String → (Endpoint → ServeError) → Endpoint → ServeError
serving unprepared serve (on_port addr) = serve (on_port addr)
serving none serve (on_unix_socket path) = serve (on_unix_socket path)
serving (some e) serve (on_unix_socket path) = cannot_prepare e

-- Start; `unprepared` is the error of making the socket's folder.
pub start_api : Option String → (Endpoint → ServeError) → Api → Api × Option ServeError
unfolding listen serving unless_closed
start_api unprepared serve api =
    (record api { server = true }, unless_closed (serving unprepared serve (listen api)))

-- startAPIV1 after the routes: without an API there is nothing to start.
pub start_api_v1 :
    Option String → (Endpoint → ServeError) → Option Api → Option Api × Option ServeError
unfolding start_api
start_api_v1 unprepared serve none = (none, none)
start_api_v1 unprepared serve (some api) =
    let (api', e) = start_api unprepared serve api in (some api', e)

-- Shutdown, with the answer of the HTTP server.
pub shutdown : Option String → Api → Option String
shutdown answer api = if api.server then answer else none
