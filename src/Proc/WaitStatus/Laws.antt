-- ===== src/Proc/WaitStatus/Laws.antt =====
-- The decoding of a wait status against the way the kernel encodes one.
use mittnite.Prelude.{ℕ, ◌+◌, ◌*◌, ◌<◌, ◌≡◌, Bool, true, false, arith, if◌then◌else◌}
use mittnite.Proc.WaitStatus.{
  decode_wait_status, exit_code, exit_signal, exit_error, terminated_by_signal,
}

-- An exit with a code below 256, and a death by a signal from 1 to 126 with or without a core dump,
-- are read back as what they were; and only the latter counts as death by that signal.
pub decode_wait_status-encode :
    (code sig : ℕ) (core : Bool)
    → code < 256
    → 0 < sig
    → sig < 127
    → let died = (if core then sig + 128 else sig) in
      (decode_wait_status (code * 256) ≡ exit_code code)
      × (decode_wait_status died ≡ exit_signal sig core)
      × (terminated_by_signal (exit_error died) sig ≡ true)
      × (terminated_by_signal (exit_error (code * 256)) sig ≡ false)
unfolding decode_wait_status terminated_by_signal
decode_wait_status-encode code sig core c s t = ground arith
