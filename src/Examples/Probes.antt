-- ===== src/Examples/Probes.antt =====
-- Probes: a wait that succeeds at its second tick, and status requests.
use mittnite.Prelude.{
  ℕ, ◌≡◌, refl, String, true, none, some, List, [], ◌∷◌, Option, arith, insert, nat_eq,
}
use mittnite.Config.{Probe}
use mittnite.Probes.{
  Makers, alive, fails, Event, ticks, signals, done, wait, ProbeResult, result, timeout,
  StatusEvent, StatusReply, handle_status,
}
use mittnite.Probes.Ready.{Readied, wait-Readied}
use mittnite.Probes.Status.{GoodResults, status_200-GoodResults, status_blocks}

abbrev waits_for : List (String × Option ℕ)
waits_for = ("db", some 1) ∷ []

abbrev events : List (Event ℕ)
events = ticks (λ p. fails "refused") ∷ signals 1 ∷ ticks (λ p. alive) ∷ []

ends : wait waits_for events ≡ some done
unfolding wait
ends = refl

wait-Readied_example : Readied waits_for events
wait-Readied_example = wait-Readied waits_for events ends

abbrev good : ProbeResult
good = record { name = "db"; ok = true; message = "" }

abbrev one_answer : List StatusEvent
one_answer = result good ∷ timeout ∷ []

abbrev all_good : StatusReply
all_good = record { code = 200; probes = ("db", good) ∷ [] }

answer : handle_status ("db" ∷ []) one_answer ≡ some all_good
unfolding handle_status insert
answer = refl

status_200-GoodResults_example : GoodResults 1 one_answer
status_200-GoodResults_example = status_200-GoodResults ("db" ∷ []) one_answer all_good answer refl

status_blocks_example : handle_status ("db" ∷ "mq" ∷ []) (timeout ∷ []) ≡ none
status_blocks_example = status_blocks ("db" ∷ "mq" ∷ []) (timeout ∷ []) (omega arith)

-- Probes that are their own configuration, counted by kind.
abbrev pub makers : Makers ℕ
makers = record {
  filesystem = λ c. 1;
  my_sql = λ c. 2;
  redis = λ c. 3;
  mongo_db = λ c. (4, none);
  amqp = λ c. 5;
  http = λ c. 6;
  smtp = λ c. 7;
}

abbrev no_kind_given : Probe
no_kind_given = record {
  name = "db";
  wait = true;
  filesystem = "";
  my_sql = none;
  redis = none;
  mongo_db = none;
  amqp = none;
  http = none;
  smtp = none;
}
