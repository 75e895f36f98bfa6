-- ===== src/Proc/BaseJob/Streams.antt =====
-- pkg/proc/basejob.go: readStdFile and the three methods that stream the log files of a job to the
-- API. What is sent to the channels is a list, in the order of sending.
pub mod Follows
pub mod Once
use mittnite.Prelude.{
  ℕ, String, Bool, true, false, Option, none, some, List, [], ◌∷◌, ◌++◌, map, ℤ, ◌==◌, string_eq,
  if◌then◌else◌,
}
use mittnite.Config.{BaseJobConfig}
use mittnite.Proc.BaseJob.Tail.{seek_tail}

-- The three channels: lines, and the errors of each file.
pub data Item : Type 0 where
  line : String → Item
  stdout_error stderr_error : Option String → Item

-- What the select around a send comes to: a receiver waits, the context is done, or neither.
pub data Offer : Type 0 where
  taken context_ended nobody_waits : Offer

-- One call of `read`: the lines that the scanner finds, and the error that it stops with, if any.
-- A line is a slice of the scanner's memory, and stands here as its receiver reads it.
pub record Pass : Type 0 where
  pub lines : List (String × Offer)
  pub failure : Option (String × Offer)

-- The loop behind it: the default case, or the end of the context.
pub data Turn : Type 0 where
  reads : Pass → Turn
  context_done : Turn

-- A log file: the error of opening it, what seekTail finds, and the turns of the loop.
pub record StdFile : Type 0 where
  pub open_fails : Option String
  pub present : List String
  pub held : ℕ → String → String
  pub cancelled : ℕ → Bool
  pub turns : List Turn

-- What a goroutine sent, and whether it has returned.
pub record Stream : Type 0 where
  pub sent : List Item
  pub returned : Bool

read_failure : (Option String → Item) → Option (String × Offer) → List Item
read_failure error none = []
read_failure error (some (e, taken)) = error (some e) ∷ []
read_failure error (some (e, context_ended)) = []
read_failure error (some (e, nobody_waits)) = []

-- `read`: a line that nobody waits for is dropped, and ends the call unless it follows the file.
read_lines : Bool → List Item → List (String × Offer) → List Item
read_lines follow at_end [] = at_end
read_lines follow at_end ((l, taken) ∷ ls) = line l ∷ read_lines follow at_end ls
read_lines follow at_end ((l, context_ended) ∷ ls) = []
read_lines true at_end ((l, nobody_waits) ∷ ls) = read_lines true at_end ls
read_lines false at_end ((l, nobody_waits) ∷ ls) = []

read_pass : (Option String → Item) → Bool → Pass → List Item
unfolding read_lines read_failure
read_pass error follow p = read_lines follow (read_failure error p.failure) p.lines

-- io.EOF is the error without a text.
read_loop : (Option String → Item) → Bool → List Turn → Stream
unfolding read_pass
read_loop error follow [] = record { sent = []; returned = false }
read_loop error follow (context_done ∷ ts) = record { sent = []; returned = true }
read_loop error false (reads p ∷ ts) = record {
  sent = read_pass error false p ++ error none ∷ [];
  returned = true;
}
read_loop error true (reads p ∷ ts) =
    let rest = read_loop error true ts in record rest { sent = read_pass error true p ++ rest.sent }

opened_file : (Option String → Item) → Bool → ℤ → StdFile → Option String → Stream
unfolding read_loop
opened_file error follow tail_len f (some e) = record {
  sent = error (some e) ∷ [];
  returned = true;
}
opened_file error follow tail_len f none =
    let rest = read_loop error follow f.turns in
    record rest { sent = map line (seek_tail tail_len f.held f.cancelled f.present) ++ rest.sent }

-- readStdFile
read_std_file : (Option String → Item) → Bool → ℤ → StdFile → Stream
unfolding opened_file
read_std_file error follow tail_len f = opened_file error follow tail_len f f.open_fails

unless_empty : String → Stream → Stream
unless_empty path s = if path == "" then record { sent = []; returned = true } else s

-- StreamStdOut
pub stream_std_out : BaseJobConfig → Bool → ℤ → StdFile → Stream
unfolding read_std_file unless_empty
stream_std_out c follow tail_len f =
    unless_empty c.stdout (read_std_file stdout_error follow tail_len f)

-- StreamStdErr
pub stream_std_err : BaseJobConfig → Bool → ℤ → StdFile → Stream
unfolding read_std_file unless_empty
stream_std_err c follow tail_len f =
    unless_empty c.stderr (read_std_file stderr_error follow tail_len f)

-- A call that comes after another in the same goroutine.
and_then : Stream → Stream → Stream
and_then first next =
    if first.returned
    then record { sent = first.sent ++ next.sent; returned = next.returned }
    else first

-- StreamStdOutAndStdErr
pub stream_std_out_and_std_err : BaseJobConfig → Bool → ℤ → StdFile → StdFile → Stream
unfolding and_then
stream_std_out_and_std_err c follow tail_len out_file err_file =
    let first = stream_std_out c follow tail_len out_file in
    if c.stdout == c.stderr
    then first
    else and_then first (stream_std_err c follow tail_len err_file)
