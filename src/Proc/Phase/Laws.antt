-- ===== src/Proc/Phase/Laws.antt =====
-- What callers rely on when they set a phase.
use mittnite.Prelude.{ℕ, ◌≡◌, arith}
use mittnite.Proc.Phase.{JobPhaseReason, reason_index, JobPhase, set_phase}

pub reason_index-injective : (a b : JobPhaseReason) → reason_index a ≡ reason_index b → a ≡ b
reason_index-injective a b h = ground arith

pub reason-set_phase :
    (now : ℕ) (r : JobPhaseReason) (p : JobPhase) → (set_phase now r p).reason ≡ r
unfolding set_phase
reason-set_phase now r p = ground (arith, reason_index-injective p.reason r)

-- Setting phases one after the other: only a change of reason moves the time of the last change.
pub set_phase_twice :
    (now later : ℕ) (r : JobPhaseReason) (p : JobPhase)
    → set_phase later r (set_phase now r p) ≡ set_phase now r p
unfolding set_phase
set_phase_twice now later r p = ground arith
