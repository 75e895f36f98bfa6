-- ===== src/Proc/Listener.antt =====
-- pkg/proc/job_listener.go: a listener of a lazy job. What the network and the goroutines answer
-- comes as a list of events, in their order.
pub mod Binds
use mittnite.Prelude.{
  ℕ, ◌+◌, String, Bool, true, false, Option, none, some, List, [], ◌∷◌, Result, ok, err, ◌==◌,
  string_eq, nat_eq, if◌then◌else◌,
}
use mittnite.Config
use mittnite.Proc.BaseJob.StartOnce.{RunError}
use mittnite.Proc.LazyJob.{LazyJob, Started, assert_started}

pub record Listener : Type 0 where
  pub config : Config.Listener
  pub spin_up_timeout : ℕ

-- getProto
unfoldable pub get_proto : String → String
get_proto proto = if proto == "" then "tcp" else proto

-- The deprecated field `protocol`: it stands in for an unset forwardProtocol, with a warning in
-- either case.
data Deprecation : Type 0 where
  unused replaces ignored : Deprecation

deprecation : Config.Listener → Deprecation
deprecation c =
    if c.protocol == "" then unused else (if c.forward_protocol == "" then replaces else ignored)

undeprecated : Config.Listener → Deprecation → Config.Listener
undeprecated c unused = c
undeprecated c replaces = record c { forward_protocol = c.protocol }
undeprecated c ignored = c

listening : LazyJob → Config.Listener → Option String → Result String Listener
listening job c (some e) = err e
listening job c none = ok (record { config = c; spin_up_timeout = job.spin_up_timeout })

-- NewListener; `listen` is the error of net.Listen for a protocol and an address.
pub new_listener :
    (String → String → Option String) → LazyJob → Config.Listener → Result String Listener
unfolding deprecation undeprecated listening
new_listener listen job c =
    let c' = undeprecated c (deprecation c) in
    listening job c' (listen (get_proto c'.listen_protocol) c'.address)

-- What the loop of provideUpstreamConnection sees: a tick, with what Dial answers for a protocol
-- and an address then, or the end of the timeout.
pub data DialEvent (C : Type 0) : Type 0 where
  ticks : (String → String → Result String C) → DialEvent C
  times_out : DialEvent C

module _ {C : Type 0} where
  after_dial : Option (Option C) → Result String C → Option (Option C)
  after_dial later (ok conn) = some (some conn)
  after_dial later (err e) = later

  -- provideUpstreamConnection: no connection is the error of the timeout; `none` while it tries.
  pub provide_upstream_connection : Listener → List (DialEvent C) → Option (Option C)
  unfolding after_dial get_proto
  provide_upstream_connection l [] = none
  provide_upstream_connection l (times_out ∷ es) = some none
  provide_upstream_connection l (ticks dial ∷ es) =
      let later = provide_upstream_connection l es in
      after_dial later (dial (get_proto l.config.forward_protocol) l.config.forward)

-- What a round of `run` sees: the context is done, or Accept answers, with what starting the job
-- comes to then.
pub data AcceptEvent : Type 0 where
  shuts_down : AcceptEvent
  accept_fails : String → AcceptEvent
  accepts : Started → AcceptEvent

pub data ListenError : Type 0 where
  accept_error : String → ListenError
  start_error : RunError → ListenError

-- The job, the number of connections that were handed to a goroutine, and how the loop ended: not
-- yet, by closing the socket, or with an error for errChan.
pub data Ending : Type 0 where
  accepting closed : Ending
  reports : ListenError → Ending

pub record Accepting : Type 0 where
  pub job : LazyJob
  pub handed_over : ℕ
  pub ending : Ending

started_connection : ℕ → (LazyJob → Accepting) → LazyJob × Option RunError → Accepting
started_connection n again (job, some e) = record {
  job = job;
  handed_over = n;
  ending = reports (start_error e);
}
started_connection n again (job, none) = again job

-- The goroutine of `run`. An error of AssertStarted ends it; the accepted connection stays open.
pub accept_loop : List AcceptEvent → ℕ → LazyJob → Accepting
unfolding started_connection
accept_loop [] n job = record { job = job; handed_over = n; ending = accepting }
accept_loop (shuts_down ∷ es) n job = record { job = job; handed_over = n; ending = closed }
accept_loop (accept_fails e ∷ es) n job = record {
  job = job;
  handed_over = n;
  ending = reports (accept_error e);
}
accept_loop (accepts outcome ∷ es) n job =
    started_connection n (accept_loop es (n + 1)) (assert_started job outcome)

-- What Listener.Run returns: the first error of the goroutine, or that of the context.
pub data ListenerResult : Type 0 where
  fails_with : ListenError → ListenerResult
  context_error : ListenerResult

-- Listener.Run, where the goroutine has ended.
pub listener_run : Ending → Option ListenerResult
listener_run accepting = none
listener_run closed = some context_error
listener_run (reports e) = some (fails_with e)

next_listener : ℕ → ℕ × Option String → Result String Listener → ℕ × Option String
next_listener n rest (err e) = (n, some e)
next_listener n rest (ok l) = rest

-- The loop of LazyJob.Run: how many listeners run, and the error that ends it.
start_listeners :
    (Config.Listener → Result String Listener) → List Config.Listener → ℕ → ℕ × Option String
unfolding next_listener
start_listeners make [] n = (n, none)
start_listeners make (c ∷ cs) n =
    let rest = start_listeners make cs (n + 1) in next_listener n rest (make c)

-- LazyJob.Run after some of its listeners have ended: the deferred Wait holds the result back until
-- all have.
pub record LazyRun : Type 0 where
  pub listeners : ℕ
  pub watches_idle : Bool
  pub result : Option String

is_none : Option String → Bool
is_none none = true
is_none (some e) = false

after_loop : ℕ × Option String → LazyRun
unfolding is_none
after_loop (n, e) = record { listeners = n; watches_idle = is_none e; result = e }

pub lazy_run : (String → String → Option String) → LazyJob → LazyRun
unfolding start_listeners new_listener after_loop
lazy_run listen job = after_loop (start_listeners (new_listener listen job) job.config.listeners 0)

pub returned : LazyRun → ℕ → Option (Option String)
returned run ended = if ended == run.listeners then some run.result else none
