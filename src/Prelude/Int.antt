-- ===== src/Prelude/Int.antt =====
-- Go's signed `int`, as an integer.
use Prim.Native.Nat.{ℕ}
use mathlib.Core.Bool.{Bool, true, false}
use mittnite.Prelude.Tests.{ltb, nat_beq}

-- `negsuc n` is -(n + 1).
pub data ℤ : Type 0 where
  pos : ℕ → ℤ
  negsuc : ℕ → ℤ

abbrev pub ltb_ℤ : ℤ → ℤ → Bool
ltb_ℤ (pos a) (pos b) = ltb a b
ltb_ℤ (pos a) (negsuc b) = false
ltb_ℤ (negsuc a) (pos b) = true
ltb_ℤ (negsuc a) (negsuc b) = ltb b a

abbrev pub beq_ℤ : ℤ → ℤ → Bool
beq_ℤ (pos a) (pos b) = nat_beq a b
beq_ℤ (negsuc a) (negsuc b) = nat_beq a b
beq_ℤ _ _ = false
