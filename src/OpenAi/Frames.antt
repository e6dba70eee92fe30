-- ===== src/OpenAi/Frames.antt =====
-- The frames of a streamed chat completion, internal/adapter/openai/sse.go, by the delta of their one
-- choice, and the client of the protocol: a role, then content or tool calls, then a finish reason,
-- then the end marker.
use otto_gateway.Base.{
  ℕ, String, Option, none, some, List, [], ◌∷◌, ◌++◌, length, ◌==◌, str_eq, if◌then◌else◌,
}

pub data Frame : Type 0 where
  role_delta : Frame
  content_delta : String → Frame
  -- index, id and name, with empty arguments
  call_header : ℕ → String → String → Frame
  call_arguments : ℕ → String → Frame
  finish : String → Frame
  error_frame : String → Frame
  done_frame : Frame

-- A call as a client reads it: the id, the name and the text of the arguments.
pub record ReadCall : Type 0 where
  pub id : String
  pub name : String
  pub arguments : String

-- What a client has read: nothing; the role; calls, and the id and the name of one whose arguments
-- are to come; calls; the finish reason, with the calls; an error; or the end.
pub data Client : Type 0 where
  fresh speaking : Client
  in_call : List ReadCall → String → String → Client
  called : List ReadCall → Client
  finished closed : String → List ReadCall → Client
  failed aborted : Client

unfoldable pub accept : Client → Frame → Option Client
accept fresh role_delta = some speaking
accept fresh (error_frame s) = some failed
accept speaking (content_delta s) = some speaking
accept speaking (call_header i id name) = if i == 0 then some (in_call [] id name) else none
accept speaking (finish r) = if str_eq r "tool_calls" then none else some (finished r [])
accept speaking (error_frame s) = some failed
accept (in_call cs id name) (call_arguments i s) =
    if i == length cs
    then some (called (cs ++ (record { id = id; name = name; arguments = s } ∷ [])))
    else none
accept (called cs) (call_header i id name) =
    if i == length cs then some (in_call cs id name) else none
accept (called cs) (finish r) = if str_eq r "tool_calls" then some (finished r cs) else none
accept (finished r cs) done_frame = some (closed r cs)
accept failed done_frame = some aborted
accept c f = none

unfoldable pub reads : Client → List Frame → Option Client
unfolding accept
reads c [] = some c
reads c (f ∷ fs) = elim (accept c f) [ none ↦ none | some d ↦ reads d fs ]
