-- ===== src/Proc/BackOff/Laws.antt =====
-- The wait between two restarts grows, and never past its maximum.
use mittnite.Prelude.{ℕ, zero, suc, ◌*◌, ◌^◌, ◌≤◌, ◌<◌, ◌≡◌, refl, ap, arith}
use Prim.Native.Nat.{min}
use native.Mathlib.Nat.{pow-suc}
use mittnite.Proc.BackOff.{second, max_back_off, calculate_next_back_off}

-- The wait stays between one second and the maximum, and below the maximum it grows.
pub calculate_next_back_off_bounds :
    (curr : ℕ)
    → second ≤ curr
    → curr ≤ max_back_off
    → (second ≤ calculate_next_back_off curr max_back_off)
      × (calculate_next_back_off curr max_back_off ≤ max_back_off)
      × (curr < max_back_off → curr < calculate_next_back_off curr max_back_off)
unfolding calculate_next_back_off
calculate_next_back_off_bounds curr lo hi = ground arith

-- Whole seconds stay whole: the wait doubles up to the maximum.
pub calculate_next_back_off_doubles :
    (n : ℕ) → 0 < n → calculate_next_back_off (n * second) max_back_off ≡ min (2 * n) 300 * second
unfolding calculate_next_back_off
calculate_next_back_off_doubles n h = ground arith

-- The wait after `k` restarts in a row.
unfoldable pub nth_back_off : ℕ → ℕ
nth_back_off zero = second
nth_back_off (suc k) = calculate_next_back_off (nth_back_off k) max_back_off

pow_pos : (k : ℕ) → 0 < 2 ^ k
pow_pos zero = omega arith
pow_pos (suc k) = omega (arith, pow-suc 2 k, pow_pos k)

pow_capped : (k : ℕ) → min (2 * min (2 ^ k) 300) 300 ≡ min (2 ^ suc k) 300
pow_capped k = omega (arith, pow-suc 2 k)

-- After `k` restarts in a row the wait is 2^k seconds, and 300 seconds from the ninth on.
pub nth_back_off_lem : (k : ℕ) → nth_back_off k ≡ min (2 ^ k) 300 * second
unfolding nth_back_off
nth_back_off_lem zero = refl
nth_back_off_lem (suc k) =
    rw
      (
        nth_back_off_lem k,
        calculate_next_back_off_doubles (min (2 ^ k) 300) (omega (arith, pow_pos k)),
      )
      (ap (λ (n : ℕ). n * second) (pow_capped k))

pub nth_back_off-bounds : (k : ℕ) → (second ≤ nth_back_off k) × (nth_back_off k ≤ max_back_off)
unfolding nth_back_off
nth_back_off-bounds zero = omega arith
nth_back_off-bounds (suc k) = omega (
  arith,
  nth_back_off-bounds k,
  calculate_next_back_off_bounds (nth_back_off k) (nth_back_off-bounds k).0
      (nth_back_off-bounds k).1,
)
