-- ===== src/Proc/Runner/Api/Routed.antt =====
-- No request that the server gets breaks the runner's list of jobs.
use mittnite.Prelude.{ℕ, String, Bool, true, false, Option, none, some, List, ok, err}
use mittnite.Proc.Runner.{Runner}
use mittnite.Proc.Runner.Names.{IsValid}
use mittnite.Proc.Runner.Api.{
  Body, empty, text, job_status, job_names, log_stream, Answer, api_v1_start_job,
  api_v1_restart_job, api_v1_stop_job, api_v1_job_status, api_v1_job_middleware,
}
use mittnite.Proc.Runner.Api.Keeps.{
  runner_after, KeepsValid, middleware-IsValid, start_handler-KeepsValid,
  restart_handler-KeepsValid, stop_handler-KeepsValid, status_handler-KeepsValid,
}
use mittnite.Proc.Runner.Api.Logs.{LogSource, serve_logs}
use mittnite.Proc.Runner.Api.Http.{
  Codec, Server, Endpoint, starts, restarts, stops, shows_status, shows_logs, lists, handle, write,
  routes, dispatched, serve_request, streaming, streamed, upgraded, serve_handshake,
}

serve_logs-KeepsValid : (upgrades : Bool) → KeepsValid (serve_logs upgrades)
unfolding serve_logs
serve_logs-KeepsValid true r ref v = v
serve_logs-KeepsValid false r ref v = v

write-IsValid : (codec : Codec) (a : Answer) → IsValid (runner_after a) → IsValid (write codec a).0
unfolding write
write-IsValid codec (err r) v = v
write-IsValid codec (ok (r, reply)) v = v

module _ (s : Server) where
  handle-IsValid :
      (endpoint : Endpoint) (n : Option String) (r : Runner)
      → IsValid r
      → IsValid (runner_after (handle s endpoint n r))
  unfolding handle
  handle-IsValid starts n r v =
      middleware-IsValid (api_v1_start_job s.system) (start_handler-KeepsValid s.system) s.system r
        n v
  handle-IsValid restarts n r v =
      middleware-IsValid (api_v1_restart_job s.system) (restart_handler-KeepsValid s.system)
        s.system r n v
  handle-IsValid stops n r v =
      middleware-IsValid (api_v1_stop_job s.system) (stop_handler-KeepsValid s.system) s.system r n
        v
  handle-IsValid shows_status n r v =
      middleware-IsValid (api_v1_job_status s.system) (status_handler-KeepsValid s.system) s.system
        r n v
  handle-IsValid shows_logs n r v =
      middleware-IsValid (serve_logs false) (serve_logs-KeepsValid false) s.system r n v
  handle-IsValid lists n r v = v

  dispatched-IsValid :
      (route : Option (Endpoint × Option String)) (r : Runner)
      → IsValid r
      → IsValid (dispatched s route r).0
  unfolding dispatched
  dispatched-IsValid none r v = v
  dispatched-IsValid (some (endpoint, n)) r v =
      write-IsValid s.codec (handle s endpoint n r) (handle-IsValid endpoint n r v)

  module _ (src : LogSource) (query : List (String × String)) where
    streaming-IsValid :
        (r : Runner) (code : ℕ) (b : Body) → IsValid r → IsValid (streaming s src query r code b).0
    unfolding streaming
    streaming-IsValid r code empty v = v
    streaming-IsValid r code (text t) v = v
    streaming-IsValid r code (job_status x) v = v
    streaming-IsValid r code (job_names ns) v = v
    streaming-IsValid r code (log_stream ref) v = v

    streamed-IsValid : (a : Answer) → IsValid (runner_after a) → IsValid (streamed s src query a).0
    unfolding streamed
    streamed-IsValid (err r) v = v
    streamed-IsValid (ok (r, reply)) v = streaming-IsValid r reply.code reply.body v

    upgraded-IsValid :
        (route : Option (Endpoint × Option String)) (r : Runner)
        → IsValid r
        → IsValid (upgraded s src query route r).0
    unfolding upgraded
    upgraded-IsValid none r v = dispatched-IsValid none r v
    upgraded-IsValid (some (starts, n)) r v = dispatched-IsValid (some (starts, n)) r v
    upgraded-IsValid (some (restarts, n)) r v = dispatched-IsValid (some (restarts, n)) r v
    upgraded-IsValid (some (stops, n)) r v = dispatched-IsValid (some (stops, n)) r v
    upgraded-IsValid (some (shows_status, n)) r v = dispatched-IsValid (some (shows_status, n)) r v
    upgraded-IsValid (some (lists, n)) r v = dispatched-IsValid (some (lists, n)) r v
    upgraded-IsValid (some (shows_logs, n)) r v =
        streamed-IsValid (api_v1_job_middleware s.system (serve_logs true) r n)
          (middleware-IsValid (serve_logs true) (serve_logs-KeepsValid true) s.system r n v)

  -- Every request to the server, with whatever method and path and however the router dispatches
  -- it, and every websocket handshake for a path and a query, leaves a valid runner valid: with
  -- allocated jobs only and at most one of each name; also where the job is made from the
  -- configuration for the request, and where the request ends in a panic.
  pub serve_request-IsValid :
      (src : LogSource) (method path stream_path : String) (query : List (String × String))
      (r : Runner)
      → IsValid r
      → IsValid (serve_request s method path r).0
        × IsValid (serve_handshake s src stream_path query r).0
  unfolding serve_request serve_handshake
  serve_request-IsValid src method path stream_path query r v = (
    dispatched-IsValid (s.dispatch routes method path) r v,
    upgraded-IsValid src query (s.dispatch routes "GET" stream_path) r v,
  )
