-- ===== src/Probes.antt =====
-- pkg/probe/server.go: which probes are made from the configuration, the wait for readiness before
-- jobs start, and the status request. The constructors of the probes are a parameter.
pub mod Ready
pub mod Status
pub mod Nil
pub mod Kinds
pub mod Server
use mittnite.Prelude.{
  ℕ, zero, suc, String, Bool, true, false, ◌&&◌, ◌||◌, Option, none, some, List, [], ◌∷◌, ◌++◌,
  Result, ok, err, lookup, insert, ◌==◌, nat_eq, string_eq, if◌then◌else◌, map, length,
}
use mittnite.Config.{Probe, MySql, Amqp, MongoDb, Redis, Smtp, HttpGet}

-- The constructors; that of MongoDB returns a probe and may return an error with it.
pub record Makers (P : Type 0) : Type 0 where
  pub filesystem : String → P
  pub my_sql : MySql → P
  pub redis : Redis → P
  pub mongo_db : MongoDb → P × Option String
  pub amqp : Amqp → P
  pub http : HttpGet → P
  pub smtp : Smtp → P

module _ {P : Type 0} (make : Makers P) where
  or_else : Option (P × Option String) → Option (P × Option String) → Option (P × Option String)
  or_else (some p) other = some p
  or_else none other = other

  -- The probe of a kind, if the entry has it.
  of_kind : {C : Type 0} → (C → P) → Option C → Option (P × Option String)
  of_kind new none = none
  of_kind new (some c) = some (new c, none)

  of_mongo_db : Option MongoDb → Option (P × Option String)
  of_mongo_db none = none
  of_mongo_db (some c) = some (make.mongo_db c)

  -- The chain of tests in buildProbesFromConfig; an entry of no kind makes no probe.
  make_probe : Probe → Option (P × Option String)
  unfolding or_else of_kind of_mongo_db
  make_probe c =
      if c.filesystem == ""
      then (or_else (of_kind make.my_sql c.my_sql) (
          or_else (of_kind make.redis c.redis) (
            or_else (of_mongo_db c.mongo_db) (
              or_else (of_kind make.amqp c.amqp)
                (or_else (of_kind make.http c.http) (of_kind make.smtp c.smtp))))))
      else some (make.filesystem c.filesystem, none)

  add_error : List String → Option String → List String
  add_error errs none = errs
  add_error errs (some e) = errs ++ e ∷ []

  add_probe :
      String
      → Option (P × Option String)
      → List (String × P) × List String
      → List (String × P) × List String
  unfolding add_error
  add_probe name none s = s
  add_probe name (some (p, e)) (probes, errs) = (insert name p probes, add_error errs e)

  unfoldable pub build_loop :
      List Probe → List (String × P) × List String → List (String × P) × List String
  unfolding make_probe add_probe
  build_loop [] s = s
  build_loop (c ∷ cs) s = build_loop cs (add_probe c.name (make_probe c) s)

  -- buildProbesFromConfig; the errors are printed as one.
  unfoldable pub build_probes_from_config : List Probe → List (String × P) × List String
  unfolding build_loop
  build_probes_from_config cs = build_loop cs ([], [])

  unfoldable pub filter_loop :
      List (String × P) → List Probe → List (String × Option P) → List (String × Option P)
  filter_loop probes [] waits = waits
  filter_loop probes (c ∷ cs) waits =
      filter_loop probes cs (if c.wait then insert c.name (lookup c.name probes) waits else waits)

  -- filterWaitProbes; `none` is the nil interface that the map gives for a missing name.
  unfoldable pub filter_wait_probes : List Probe → List (String × P) → List (String × Option P)
  unfolding filter_loop
  filter_wait_probes cs probes = filter_loop probes cs []

-- What Exec of a probe comes to.
pub data Exec : Type 0 where
  alive : Exec
  path_error : Exec
  fails : String → Exec

-- One round over the probes to wait for: whether all are ready, a call of log.Fatal with `return
-- nil` behind it, or the call of a nil probe.
pub data Round : Type 0 where
  ready : Bool → Round
  fatal : Round
  nil_probe : Round

-- What the loop of Wait sees: a tick, with what the probes answer then, or a signal.
pub data Event (P : Type 0) : Type 0 where
  ticks : (P → Exec) → Event P
  signals : ℕ → Event P

pub data WaitResult : Type 0 where
  done : WaitResult
  interrupted : WaitResult
  exited : WaitResult
  panicked : WaitResult

abbrev pub stops : ℕ → Bool
stops sig = sig == 15 || sig == 2

unfoldable pub after_round : Round → Option WaitResult → Option WaitResult
after_round (ready true) later = some done
after_round (ready false) later = later
after_round fatal later = some exited
after_round nil_probe later = some panicked

module _ {P : Type 0} where
  unfoldable pub probe_round : (P → Exec) → List (String × Option P) → Bool → Round
  probe_round exec [] so_far = ready so_far
  probe_round exec ((name, none) ∷ ps) so_far = nil_probe
  probe_round exec ((name, some p) ∷ ps) so_far = elim (exec p) [
    | alive ↦ probe_round exec ps so_far
    | path_error ↦ fatal
    | fails e ↦ probe_round exec ps false
  ]

  -- Handler.Wait, for as many events as there are; `none` while it waits.
  unfoldable pub wait : List (String × Option P) → List (Event P) → Option WaitResult
  unfolding probe_round after_round
  wait ps [] = none
  wait ps (ticks exec ∷ es) = let later = wait ps es in after_round (probe_round exec ps true) later
  wait ps (signals sig ∷ es) =
      let later = wait ps es in if stops sig then some interrupted else later

pub record ProbeResult : Type 0 where
  pub name : String
  pub ok : Bool
  pub message : String

-- What the select in HandleStatus sees: the result of a probe, or the timer, which fires once.
pub data StatusEvent : Type 0 where
  result : ProbeResult → StatusEvent
  timeout : StatusEvent

unanswered : String → String × ProbeResult
unanswered name = (name, record { name = name; ok = false; message = "timed out" })

-- The loop over the number of probes. A `break` in the select only leaves the select.
gather :
    ℕ
    → List StatusEvent
    → Bool
    → List (String × ProbeResult)
    → Option (Bool × List (String × ProbeResult))
gather zero es success probes = some (success, probes)
gather (suc n) [] success probes = none
gather (suc n) (result r ∷ es) success probes =
    gather n es (success && r.ok) (insert r.name r probes)
gather (suc n) (timeout ∷ es) success probes = gather n es false probes

pub record StatusReply : Type 0 where
  pub code : ℕ
  pub probes : List (String × ProbeResult)

reply : Option (Bool × List (String × ProbeResult)) → Option StatusReply
reply none = none
reply (some (success, probes)) =
    some (record { code = if success then 200 else 503; probes = probes })

-- HandleStatus for the given names of probes; `none` while it blocks.
unfoldable pub handle_status : List String → List StatusEvent → Option StatusReply
unfolding unanswered gather reply
handle_status names es = reply (gather (length names) es true (map unanswered names))
