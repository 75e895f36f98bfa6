-- ===== src/Examples/Output.antt =====
-- Decorated output, the tail of a log file, and a watch command.
use mittnite.Prelude.{ℕ, suc, ◌≡◌, refl, true, false, none, some, List, [], ◌∷◌, pos, ok}
use mittnite.Proc.BaseJob.Output.{Style, Forwarder, at_start, forward_output_of}
use mittnite.Proc.BaseJob.Output.Lines.{Line, chunks_of, forward_output_of-lines}
use mittnite.Proc.BaseJob.Tail.{seek_tail, numbered}
use mittnite.Proc.BaseJob.Tail.Last.{seek_tail-last_lines}
use mittnite.Proc.BaseJob.Commands.{Command}

abbrev style : Style
style = record { has_layout = true; name_prefix = b'w' ∷ [] }

-- "abc" in two pieces, and an empty line.
abbrev two_lines : List Line
two_lines =
    record { pieces = (b'a' ∷ b'b' ∷ [], b'1' ∷ []) ∷ []; last = b'c' ∷ []; last_time = b'2' ∷ [] }
    ∷ record { pieces = []; last = []; last_time = b'3' ∷ [] }
    ∷ []

forward_output_of-lines_example :
    (forward_output_of style (chunks_of two_lines)).target
    ≡ b'[' ∷ b'1' ∷ b']' ∷ b' ' ∷ b'w' ∷ b'a' ∷ b'b' ∷ b'c' ∷ 10 ∷ b'[' ∷ b'3' ∷ b']' ∷ b' ' ∷ b'w'
      ∷ 10 ∷ []
forward_output_of-lines_example = forward_output_of-lines style two_lines

abbrev closed_target : Forwarder
closed_target = record at_start { discards = true; target = b'x' ∷ [] }

seek_tail-last_lines_example :
    seek_tail {A = ℕ} (pos (suc 1)) (λ i line. line) (λ i. false) (1 ∷ 2 ∷ 3 ∷ []) ≡ 2 ∷ 3 ∷ []
unfolding numbered
seek_tail-last_lines_example =
    seek_tail-last_lines {A = ℕ} (λ i line. line) 1 (λ i. false) (1 ∷ 2 ∷ 3 ∷ []) (λ i. refl)
      (refl, (refl, (refl, tt)))

abbrev command : Command
command = record {
  stdout_pipe = none;
  stderr_pipe = none;
  start = ok 50;
  wait = some "exit status 1";
}
