-- ===== src/Anthropic/Emitter.antt =====
-- `sseEmitter` of internal/adapter/anthropic/sse.go and the functions that write one block. The
-- arguments of a tool call are opaque values of JSON. The connection takes a number of writes, and
-- from the first that fails on it takes none.
use otto_gateway.Base.{
  ℕ, zero, suc, String, Bool, true, false, not, ◌&&◌, Option, none, some, List, [], ◌∷◌, ◌++◌,
  concat, is_blank, if◌then◌else◌,
}
pub use otto_gateway.Base.{Step, ◌>>◌, pass, modify, ignore}
use otto_gateway.Engine.ToolCalls.{ToolCall}
use otto_gateway.Anthropic.Frames.{
  Kind, tool_kind, same_kind, Header, text_header, tool_header, header_kind, Frame, block_start,
  text_delta, thinking_delta, json_delta, block_stop,
}

-- What a request fixes: its tools and their aliases; `json.Marshal`, none where it fails; and
-- `engine.ExtractToolCallWrappers`.
pub record Request (J : Type 0) : Type 0 where
  pub tools : List String
  pub aliases : List (String × String)
  pub marshal : List (String × J) → Option String
  pub extract : String → List String → List (ToolCall J)

pub record Emitter (J : Type 0) : Type 0 where
  -- the writes that the connection still takes, and the events that it has taken
  pub budget : ℕ
  pub sent : List Frame
  pub block_index : ℕ
  pub current_kind : Kind
  pub block_open : Bool
  pub buffering : Bool
  pub buffer_decided : Bool
  pub buffer_consumed : Bool
  pub buffered_text : String
  pub tool_use_emitted : Bool
  pub pending_tool_use_flush : Bool
  pub agg_text : String
  pub agg_thought : String
  -- `aggToolParts` and `aggToolCalls`, which hold the same calls
  pub agg_tool_calls : List (ToolCall J)

-- A step of the emitter; false is an error, and ends a sequence of steps.
abbrev pub Emit : Type 0 → Type 0
Emit J = Step (Emitter J)

module _ {J : Type 0} where
  abbrev pub when : Bool → Emit J → Emit J
  when b m e = if b then m e else (e, true)

  unfoldable pub write_event : Frame → Emit J
  write_event f e = elim e.budget [
    | zero ↦ (e, false)
    | suc left ↦ (record e { budget = left; sent = e.sent ++ (f ∷ []) }, true)
  ]

  -- The delta "{}" of a tool call that had no arguments.
  unfoldable pub flush_pending : Emit J
  unfolding write_event
  flush_pending e =
      let e' = record e { pending_tool_use_flush = false } in
      if not e.pending_tool_use_flush
      then (e, true)
      else if not (same_kind e.current_kind tool_kind)
      then (e', true)
      else write_event (json_delta e.block_index "{}") e'

  unfoldable pub write_stop : Emit J
  unfolding write_event
  write_stop e = write_event (block_stop e.block_index) e

  abbrev pub advanced : Emitter J → Emitter J
  advanced e = record e { block_index = suc e.block_index; block_open = false }

  unfoldable pub close_block : Emit J
  unfolding flush_pending write_stop
  close_block = flush_pending >> write_stop >> modify advanced

  abbrev pub opened_by : Header → Emitter J → Emitter J
  opened_by h e =
      let tool = same_kind (header_kind h) tool_kind in
      record e {
        current_kind = header_kind h;
        block_open = true;
        tool_use_emitted = if tool then true else e.tool_use_emitted;
        pending_tool_use_flush = if tool then true else e.pending_tool_use_flush;
      }

  unfoldable pub start_block : Header → Emit J
  unfolding write_event
  start_block h e = (write_event (block_start e.block_index h) >> modify (opened_by h)) e

  -- Closes a block of another kind, and opens one where none is open.
  unfoldable pub open_block : Header → Emit J
  unfolding close_block start_block
  open_block h e =
      (when (e.block_open && not (same_kind (header_kind h) e.current_kind)) close_block
          >> (λ e'. when (not e'.block_open) (start_block h) e'))
        e

  abbrev pub with_text : String → Emitter J → Emitter J
  with_text s e = record e { agg_text = concat e.agg_text s }

  abbrev pub with_thought : String → Emitter J → Emitter J
  with_thought s e = record e { agg_thought = concat e.agg_thought s }

  unfoldable pub deliver_text : String → Emit J
  unfolding write_event
  deliver_text s e = (write_event (text_delta e.block_index s) >> modify (with_text s)) e

  unfoldable pub deliver_thought : String → Emit J
  unfolding write_event
  deliver_thought s e = (write_event (thinking_delta e.block_index s) >> modify (with_thought s)) e

  unfoldable pub emit_text_raw : String → Emit J
  unfolding open_block deliver_text
  emit_text_raw text = open_block text_header >> deliver_text text

  abbrev pub consumed : Emitter J → Emitter J
  consumed e = record e { buffered_text = ""; buffer_consumed = true; buffering = false }

  unfoldable pub flush_buffered_text : Emit J
  unfolding emit_text_raw
  flush_buffered_text e =
      if is_blank e.buffered_text
      then (record e { buffering = false }, true)
      else (emit_text_raw e.buffered_text >> modify consumed) e

  -- The text of a call's arguments: "{}" for none, and where they cannot be written.
  unfoldable pub partial_json : Request J → List (String × J) → String
  partial_json v [] = "{}"
  partial_json v (a ∷ args) = elim (v.marshal (a ∷ args)) [ none ↦ "{}" | some s ↦ s ]

  abbrev pub with_call : ToolCall J → Emitter J → Emitter J
  with_call call e = record e { agg_tool_calls = e.agg_tool_calls ++ (call ∷ []) }

  abbrev pub after_call : ToolCall J → Emitter J → Emitter J
  after_call call e = record (with_call call e) { block_index = suc e.block_index }

  unfoldable pub emit_coerced : Request J → ToolCall J → Emit J
  unfolding write_event partial_json write_stop
  emit_coerced v call e =
      (write_event (block_start e.block_index (tool_header call.id call.name))
          >> write_event (json_delta e.block_index (partial_json v call.arguments))
          >> write_stop
          >> modify (after_call call))
        e

  unfoldable pub emit_all : Request J → List (ToolCall J) → Emit J
  unfolding emit_coerced
  emit_all v [] = pass
  emit_all v (call ∷ calls) = emit_coerced v call >> emit_all v calls
