-- ===== src/Proc/BackOff.antt =====
-- pkg/proc/crashloopbackoff.go. A duration is its number of nanoseconds. The source computes with
-- the seconds as a float64, which is exact for the whole seconds that the restart loop passes.
pub mod Laws
use mittnite.Prelude.{ℕ, ◌*◌, ◌/◌, ltb, leb, if◌then◌else◌}

abbrev pub second : ℕ
second = 1_000_000_000

-- pkg/proc/job_common.go: the longest duration between two restarts.
abbrev pub max_back_off : ℕ
max_back_off = 300 * second

-- `time.Duration(2 * seconds)` cuts the fraction off.
unfoldable pub calculate_next_back_off : ℕ → ℕ → ℕ
calculate_next_back_off curr maximum =
    if leb curr second
    then 2 * second
    else (let next = 2 * curr / second * second in if ltb maximum next then maximum else next)
