-- ===== src/Anthropic/Stream.antt =====
-- applyChunk, finalizeBufferedText, finalizeStream and the loop of
-- internal/adapter/anthropic/sse.go.
use otto_gateway.Base.{
  ℕ, ◌+◌, ◌^◌, String, Bool, true, false, not, ◌&&◌, Option, none, some, List, [], ◌∷◌, concat,
  is_blank, byte_length, leb, if◌then◌else◌,
}
use otto_gateway.Engine.ToolCalls.{ToolCall, resolve_native_tool_name}
use otto_gateway.Anthropic.Frames.{
  text_kind, text_header, thinking_header, tool_header, Frame, message_start, json_delta, ping,
  message_delta, message_stop, error,
}
use otto_gateway.Anthropic.Emitter.{
  Request, Emitter, Emit, ◌>>◌, pass, modify, when, ignore, write_event, flush_pending, write_stop,
  close_block, open_block, deliver_text, deliver_thought, consumed, with_call, flush_buffered_text,
  emit_all,
}

pub record ToolChunk (J : Type 0) : Type 0 where
  pub id : String
  pub name : String
  pub args : List (String × J)

-- A chunk; none stands for a payload that is nil.
pub data Chunk (J : Type 0) : Type 0 where
  text thought : Option String → Chunk J
  tool_call : Option (ToolChunk J) → Chunk J
  plan : Chunk J

pub data StopReason : Type 0 where
  unknown end_turn max_tokens max_turn_requests refusal cancelled stop_error : StopReason

unfoldable pub map_stop_reason : StopReason → Option String
map_stop_reason end_turn = some "end_turn"
map_stop_reason max_tokens = some "max_tokens"
map_stop_reason max_turn_requests = some "max_tokens"
map_stop_reason refusal = some "refusal"
map_stop_reason cancelled = some "end_turn"
map_stop_reason _ = none

-- What the loop's `select` receives: a chunk, a tick, the end of the request's context, the idle
-- timer, or the end of the chunks with the stream's result, none for an error.
pub data Signal (J : Type 0) : Type 0 where
  chunk : Chunk J → Signal J
  tick disconnects idles : Signal J
  ends : Option StopReason → Signal J

abbrev pub max_streaming_coerce_bytes : ℕ
max_streaming_coerce_bytes = 2 ^ 20

module _ {J : Type 0} where
  abbrev pub has_tools : Request J → Bool
  has_tools v = elim v.tools [ [] ↦ false | t ∷ ts ↦ true ]

  abbrev pub some_calls : List (ToolCall J) → Bool
  some_calls [] = false
  some_calls (c ∷ cs) = true

  -- The calls that the buffered text holds.
  abbrev pub wrapped : Request J → String → List (ToolCall J)
  wrapped v s = if has_tools v then v.extract s v.tools else []

  abbrev pub emitted : Emitter J → Emitter J
  emitted e = record e { tool_use_emitted = true }

  -- The calls as blocks, where no call has been written before.
  unfoldable pub emit_calls : Request J → List (ToolCall J) → Emit J
  unfolding emit_all
  emit_calls v calls e =
      (when (not e.tool_use_emitted) (emit_all v calls >> modify emitted) >> modify consumed) e

  unfoldable pub finalize_buffered_text : Request J → Emit J
  unfolding close_block emit_calls flush_buffered_text
  finalize_buffered_text v e =
      let calls = wrapped v e.buffered_text in
      if not e.buffering
      then (e, true)
      else if is_blank e.buffered_text
      then (e, true)
      else (when e.block_open close_block
            >> (if some_calls calls then emit_calls v calls else flush_buffered_text))
          e

  -- Whether a text is held back for the extraction of tool calls.
  unfoldable pub holds_text : Request J → Emitter J → String → Bool
  unfolding byte_length
  holds_text v e s =
      has_tools v
      && not e.buffer_decided
      && leb (byte_length e.buffered_text + byte_length s) max_streaming_coerce_bytes

  abbrev pub stop_buffering : Emitter J → Emitter J
  stop_buffering e = record e { buffering = false }

  abbrev pub has_buffer : Emitter J → Bool
  has_buffer e = e.buffering && not (is_blank e.buffered_text)

  -- Before a thought, and before a tool call: the text that is held back is settled. Where it
  -- repeats a native call as a wrapper, it is dropped.
  unfoldable pub settle_for_thought : Request J → Emit J
  unfolding finalize_buffered_text
  settle_for_thought v e = when (has_buffer e) (finalize_buffered_text v >> modify stop_buffering) e

  unfoldable pub settle_for_call : Request J → Emit J
  unfolding finalize_buffered_text
  settle_for_call v e =
      when (has_buffer e)
        ((if some_calls (v.extract e.buffered_text v.tools)
            then modify consumed
            else finalize_buffered_text v)
          >> modify stop_buffering)
        e

  abbrev pub delivered : ToolChunk J → Emitter J → Emitter J
  delivered t e = record (with_call (record { id = t.id; name = t.name; arguments = t.args }) e) {
    pending_tool_use_flush = false;
  }

  -- The arguments of a call, once for a block.
  unfoldable pub deliver_call : Request J → ToolChunk J → Emit J
  unfolding write_event
  deliver_call v t e = elim t.args [
    | [] ↦ (e, true)
    | a ∷ args ↦ if not e.pending_tool_use_flush then (e, true) else elim (v.marshal t.args) [
      | none ↦ (e, true)
      | some s ↦ (write_event (json_delta e.block_index s) >> modify (delivered t)) e
    ]
  ]

  abbrev pub decided : Emitter J → Emitter J
  decided e = record e { buffer_decided = true }

  unfoldable pub apply_text : Request J → String → Emit J
  unfolding holds_text concat flush_buffered_text open_block deliver_text
  apply_text v s e =
      if holds_text v e s
      then (record e { buffering = true; buffered_text = concat e.buffered_text s }, true)
      else (when e.buffering (flush_buffered_text >> modify decided)
            >> open_block text_header
            >> deliver_text s)
          e

  unfoldable pub apply_chunk : Request J → Chunk J → Emit J
  unfolding apply_text settle_for_thought settle_for_call open_block deliver_thought deliver_call
      resolve_native_tool_name
  apply_chunk v (text none) = open_block text_header
  apply_chunk v (text (some s)) = apply_text v s
  apply_chunk v (thought none) = open_block thinking_header
  apply_chunk v (thought (some s)) =
      settle_for_thought v >> open_block thinking_header >> deliver_thought s
  apply_chunk v (tool_call none) = pass
  apply_chunk v (tool_call (some t)) = elim (resolve_native_tool_name t.name v.tools v.aliases) [
    | none ↦ pass
    | some name ↦
        settle_for_call v
        >> open_block (tool_header t.id name)
        >> deliver_call v (record t { name = name })
  ]
  apply_chunk v plan = pass

  -- The flush and the stop of the last block, whose errors are ignored.
  unfoldable pub stop_last : Emit J
  unfolding flush_pending write_stop
  stop_last e = when e.block_open (ignore flush_pending >> ignore write_stop) e

  -- The stop reason that the client is told.
  abbrev pub last_delta : StopReason → Emitter J → Frame
  last_delta stop e =
      message_delta (if e.tool_use_emitted then some "tool_use" else map_stop_reason stop)

  unfoldable pub finalize_stream : Request J → Option StopReason → Emit J
  unfolding stop_last write_event finalize_buffered_text map_stop_reason
  finalize_stream v none =
      stop_last >> ignore (write_event (error "stream terminated")) >> (λ e. (e, false))
  finalize_stream v (some stop) =
      finalize_buffered_text v
      >> stop_last
      >> (λ e. write_event (last_delta stop e) e)
      >> write_event message_stop

  -- The loop. No signal left is a loop that still waits.
  unfoldable pub loop : Request J → List (Signal J) → Emit J
  unfolding apply_chunk finalize_stream write_event
  loop v [] = pass
  loop v (chunk c ∷ xs) = apply_chunk v c >> loop v xs
  loop v (tick ∷ xs) = write_event ping >> loop v xs
  loop v (disconnects ∷ xs) = λ e. (e, false)
  loop v (idles ∷ xs) = ignore (write_event (error "upstream stream idle")) >> (λ e. (e, false))
  loop v (ends result ∷ xs) = finalize_stream v result

  abbrev pub new_emitter : ℕ → Emitter J
  new_emitter budget = record {
    budget = budget;
    sent = [];
    block_index = 0;
    current_kind = text_kind;
    block_open = false;
    buffering = false;
    buffer_decided = false;
    buffer_consumed = false;
    buffered_text = "";
    tool_use_emitted = false;
    pending_tool_use_flush = false;
    agg_text = "";
    agg_thought = "";
    agg_tool_calls = [];
  }

  unfoldable pub run_emitter : Request J → String → List (Signal J) → ℕ → Emitter J × Bool
  unfolding write_event loop
  run_emitter v id xs budget = (write_event (message_start id) >> loop v xs) (new_emitter budget)
