-- ===== src/Proc/BaseJob/Tail.antt =====
-- pkg/proc/basejob.go, seekTail: the last lines of a log file, before the rest is streamed.
pub mod Last
pub mod Cancelled
use mittnite.Prelude.{
  ℕ, zero, suc, Bool, true, false, List, [], ◌∷◌, ◌++◌, map, length, drop, leb, if◌then◌else◌,
  ltb_ℤ, beq_ℤ, ℤ, pos, negsuc,
}

module _ {A : Type 0} where
  -- One line read by the scanner.
  push_line : ℕ → List A → A → List A
  push_line n buffer line = (if leb n (length buffer) then drop 1 buffer else buffer) ++ line ∷ []

  scan_lines : ℕ → List A → List A → List A
  unfolding push_line
  scan_lines n [] buffer = buffer
  scan_lines n (line ∷ lines) buffer = scan_lines n lines (push_line n buffer line)

  -- The sending loop; `done` tells at each line whether the context is cancelled.
  send_lines : (ℕ → Bool) → ℕ → List A → List A
  send_lines done i [] = []
  send_lines done i (line ∷ lines) =
      let rest = send_lines done (suc i) lines in if done i then [] else line ∷ rest

  -- The lines that the scanner finds, each with its number in the file.
  unfoldable pub numbered : ℕ → List A → List (ℕ × A)
  numbered i [] = []
  numbered i (line ∷ lines) = (i, line) ∷ numbered (suc i) lines

-- What is sent to outChan. The buffer holds slices of the scanner's memory, which later calls of
-- Scan may overwrite: `held i` is what the slice of the i-th line of the file reads once the whole
-- file was scanned, for what the line was.
module _ {A : Type 0} where
  as_held : (ℕ → A → A) → ℕ × A → A
  as_held held (i, line) = held i line

  scan_tail : ℕ → (ℕ → A → A) → (ℕ → Bool) → List A → List A
  unfolding scan_lines send_lines numbered as_held
  scan_tail n held done lines =
      send_lines done 0 (map (as_held held) (scan_lines n (numbered 0 lines) []))

  -- For a negative count nothing is read; for 0 the file is only moved to its end.
  pub seek_tail : ℤ → (ℕ → A → A) → (ℕ → Bool) → List A → List A
  unfolding scan_tail
  seek_tail (negsuc n) held done lines = []
  seek_tail (pos n) held done lines = elim n [
    | zero ↦ []
    | suc m ↦ scan_tail (suc m) held done lines
  ]
