-- ===== src/Anthropic/Frames.antt =====
-- The events of internal/adapter/anthropic/sse.go, and the protocol that a client reads: blocks are
-- numbered from 0, one is open at a time, its deltas are of its kind, and a block of a tool call has
-- its arguments in exactly one delta.
use otto_gateway.Base.{
  ℕ, suc, String, Bool, true, false, not, ◌&&◌, Option, none, some, List, [], ◌∷◌, ◌==◌,
  if◌then◌else◌,
}

-- The kinds of chunk that a block can be of.
pub data Kind : Type 0 where
  text_kind thought_kind tool_kind : Kind

abbrev pub same_kind : Kind → Kind → Bool
same_kind text_kind text_kind = true
same_kind thought_kind thought_kind = true
same_kind tool_kind tool_kind = true
same_kind _ _ = false

pub data Header : Type 0 where
  text_header thinking_header : Header
  tool_header : String → String → Header

abbrev pub header_kind : Header → Kind
header_kind text_header = text_kind
header_kind thinking_header = thought_kind
header_kind (tool_header id name) = tool_kind

pub data Frame : Type 0 where
  message_start : String → Frame
  block_start : ℕ → Header → Frame
  text_delta thinking_delta json_delta : ℕ → String → Frame
  block_stop : ℕ → Frame
  ping : Frame
  message_delta : Option String → Frame
  message_stop : Frame
  error : String → Frame

-- What a client knows: the next block's number; in a block, its number and kind, and whether it may
-- end.
pub data Client : Type 0 where
  waiting : Client
  between : ℕ → Client
  inside : ℕ → Kind → Bool → Client
  ending finished : Client

abbrev is_tool : Kind → Bool
is_tool tool_kind = true
is_tool _ = false

-- The client after a frame, none where the frame breaks the protocol.
unfoldable pub accept : Client → Frame → Option Client
accept waiting (message_start id) = some (between 0)
accept (between n) (block_start m h) =
    if n == m then some (inside n (header_kind h) (not (is_tool (header_kind h)))) else none
accept (inside n text_kind done) (text_delta m s) =
    if n == m then some (inside n text_kind done) else none
accept (inside n thought_kind done) (thinking_delta m s) =
    if n == m then some (inside n thought_kind done) else none
accept (inside n tool_kind done) (json_delta m s) =
    if n == m && not done then some (inside n tool_kind true) else none
accept (inside n k done) (block_stop m) = if n == m && done then some (between (suc n)) else none
accept (between n) ping = some (between n)
accept (inside n k done) ping = some (inside n k done)
accept (between n) (message_delta stop) = some ending
accept ending message_stop = some finished
accept (between n) (error s) = some finished
accept (inside n k done) (error s) = some finished
accept _ _ = none

unfoldable pub reads : Client → List Frame → Option Client
unfolding accept
reads c [] = some c
reads c (f ∷ fs) = elim (accept c f) [ none ↦ none | some d ↦ reads d fs ]
