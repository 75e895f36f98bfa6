-- ===== src/Proc/BaseJob/Output.antt =====
-- pkg/proc/basejob.go, forwardOutput and runCommandWithJobDecoration: decorated output, line by
-- line. A text is the list of its bytes.
pub mod Lines
use mittnite.Prelude.{ℕ, suc, Bool, true, false, List, [], ◌∷◌, ◌++◌, if◌then◌else◌}

-- What a write to the log target comes to: done, the file is closed, or another error.
pub data Outcome : Type 0 where
  written file_closed broken : Outcome

-- One ReadLine: the bytes, whether the line goes on, the formatted time at that moment, and the
-- answer of the write that follows, if the target is asked.
pub record Chunk : Type 0 where
  pub line : List ℕ
  pub is_prefix : Bool
  pub time : List ℕ
  pub outcome : Outcome

-- How lines are decorated: whether there is a timestamp layout, and the prefix of the name.
pub record Style : Type 0 where
  pub has_layout : Bool
  pub name_prefix : List ℕ

-- `discards` stands for w = io.Discard; `target` is what the log target got, `errors` the number
-- of errors that were logged.
pub record Forwarder : Type 0 where
  pub continuation : Bool
  pub write_failed : Bool
  pub discards : Bool
  pub target : List ℕ
  pub errors : ℕ

abbrev pub at_start : Forwarder
at_start = record {
  continuation = false;
  write_failed = false;
  discards = false;
  target = [];
  errors = 0;
}

-- "[time] name"
abbrev pub decoration : Style → List ℕ → List ℕ
decoration s time = (if s.has_layout then b'[' ∷ time ++ b']' ∷ b' ' ∷ [] else []) ++ s.name_prefix

line_buffer : Style → Bool → Chunk → List ℕ
line_buffer s continuation c =
    (if continuation then [] else decoration s c.time)
    ++ (c.line ++ (if c.is_prefix then [] else 10 ∷ []))

write_to : Forwarder → List ℕ → Outcome → Forwarder
write_to f bytes written = record f { target = f.target ++ bytes; write_failed = false }
write_to f bytes file_closed = record f { discards = true }
write_to f bytes broken =
    if f.write_failed then f else record f { write_failed = true; errors = suc f.errors }

-- A write to io.Discard always succeeds.
write_line : Forwarder → List ℕ → Outcome → Forwarder
unfolding write_to
write_line f bytes outcome =
    if f.discards then record f { write_failed = false } else write_to f bytes outcome

forward_chunk : Style → Forwarder → Chunk → Forwarder
unfolding line_buffer write_line
forward_chunk s f c =
    write_line (record f { continuation = c.is_prefix }) (line_buffer s f.continuation c) c.outcome

-- forwardOutput from some state on, until ReadLine has an error.
pub forward_output_from : Style → Forwarder → List Chunk → Forwarder
unfolding forward_chunk
forward_output_from s f [] = f
forward_output_from s f (c ∷ cs) = forward_output_from s (forward_chunk s f c) cs

-- forwardOutput
pub forward_output_of : Style → List Chunk → Forwarder
unfolding forward_output_from
forward_output_of s cs = forward_output_from s at_start cs
