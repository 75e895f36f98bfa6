-- ===== src/Proc/WaitStatus.antt =====
-- pkg/proc/wait_status.go, over the encoding of a wait status on Linux (Go's syscall.WaitStatus).
pub mod Laws
use mittnite.Prelude.{
  ℕ, String, ◌/◌, ◌%◌, Bool, true, false, not, ◌&&◌, Option, none, some, ◌==◌, nat_eq,
  if◌then◌else◌,
}

-- syscall.WaitStatus: bits 0-6 are the signal, bit 7 the core flag, bits 8-15 the exit code.
abbrev pub exited : ℕ → Bool
exited w = w % 128 == 0

abbrev pub signaled : ℕ → Bool
signaled w = not (w % 128 == 127) && not (w % 128 == 0)

abbrev pub exit_status : ℕ → ℕ
exit_status w = w / 256 % 256

abbrev pub signal_of : ℕ → ℕ
signal_of w = w % 128

abbrev pub core_dump : ℕ → Bool
core_dump w = signaled w && not (w / 128 % 2 == 0)

-- The log fields of `decodeWaitStatus`; the signal is kept as its number.
pub data Fields : Type 0 where
  exit_code : ℕ → Fields
  exit_signal : ℕ → Bool → Fields
  raw_status : ℕ → Fields

unfoldable pub decode_wait_status : ℕ → Fields
decode_wait_status s =
    if exited s
    then exit_code (exit_status s)
    else (if signaled s then exit_signal (signal_of s) (core_dump s) else raw_status s)

-- The error of cmd.Wait: an exec.ExitError with its status, or another error.
pub data WaitError : Type 0 where
  exit_error : ℕ → WaitError
  other_error : String → WaitError

unfoldable pub terminated_by_signal : WaitError → ℕ → Bool
terminated_by_signal (exit_error ws) sig = signaled ws && signal_of ws == sig
terminated_by_signal (other_error _) sig = false
