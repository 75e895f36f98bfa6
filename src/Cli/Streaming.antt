-- ===== src/Cli/Streaming.antt =====
-- api_response_streaming.go, with the handler that JobLogs hands to it.
use mittnite.Prelude.{String, Bool, Option, none, some, List, [], ◌∷◌, if◌then◌else◌}

-- What the handler's loop reads from the connection: a message, or an error and whether that is a
-- close with the code for a normal or an abnormal closure.
pub data Received : Type 0 where
  message : String → Received
  read_error : String → Bool → Received

pub data Streamed : Type 0 where
  waits : Streamed
  returns : Option String → Streamed

-- The printed lines, and whether Print has returned. The channels have no buffer: each message is
-- printed before the next is read. Only Print itself cancels the stream's context.
unfoldable pub print_loop : List Received → List String × Streamed
print_loop [] = ([], waits)
print_loop (message m ∷ rs) = let (lines, end) = print_loop rs in (m ∷ lines, end)
print_loop (read_error e closes ∷ rs) = ([], returns (if closes then none else some e))

-- StreamingAPIResponse.Print, with the answer of Dial.
unfoldable pub print_stream : Option String → List Received → List String × Streamed
unfolding print_loop
print_stream (some e) rs = ([], returns (some e))
print_stream none rs = print_loop rs
