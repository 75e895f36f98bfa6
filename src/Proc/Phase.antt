-- ===== src/Proc/Phase.antt =====
-- pkg/proc/types_status.go, and the phase methods of pkg/proc/basejob.go.
pub mod Laws
use mittnite.Prelude.{ℕ, Bool, if◌then◌else◌, nat_beq}

-- `unset` is the empty string of the zero JobPhase, which `Reset` stores.
pub data JobPhaseReason : Type 0 where
  unset unknown awaiting_readiness awaiting_connection started stopped completed failed :
      JobPhaseReason
  crash_looping : JobPhaseReason

abbrev pub reason_index : JobPhaseReason → ℕ
reason_index unset = 0
reason_index unknown = 1
reason_index awaiting_readiness = 2
reason_index awaiting_connection = 3
reason_index started = 4
reason_index stopped = 5
reason_index completed = 6
reason_index failed = 7
reason_index crash_looping = 8

abbrev pub same_reason : JobPhaseReason → JobPhaseReason → Bool
same_reason a b = nat_beq (reason_index a) (reason_index b)

-- A time is the number of nanoseconds since the zero time.
pub record JobPhase : Type 0 where
  pub reason : JobPhaseReason
  pub last_change : ℕ

-- JobPhase.Is
abbrev pub is_phase : JobPhase → JobPhaseReason → Bool
is_phase p reason = same_reason p.reason reason

-- baseJob.SetPhase at the time `now`; the mutex makes it one step.
unfoldable pub set_phase : ℕ → JobPhaseReason → JobPhase → JobPhase
set_phase now reason phase =
    if same_reason phase.reason reason then phase else record { reason = reason; last_change = now }

-- baseJob.Reset
unfoldable pub reset : JobPhase
reset = record { reason = unset; last_change = 0 }
