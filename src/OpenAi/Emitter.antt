-- ===== src/OpenAi/Emitter.antt =====
-- `sseEmitter` of internal/adapter/openai/sse.go, with mapFinishReason of render.go. The connection
-- takes a number of writes, and none from the first that fails on. `json.Marshal`,
-- `engine.ExtractToolCallWrappers`, `engine.CoerceToolCall` and the ids that the clock gives are
-- parameters.
use otto_gateway.Base.{
  ℕ, zero, suc, ◌+◌, String, Bool, true, false, not, ◌&&◌, Option, none, some, List, [], ◌∷◌, ◌++◌,
  length, concat, is_blank, byte_length, leb, if◌then◌else◌, Step, ◌>>◌, pass, fail, modify, ignore,
}
use otto_gateway.Engine.ToolCalls.{ToolCall, resolve_native_tool_name, dedup_tool_calls}
use otto_gateway.Anthropic.Stream.{
  ToolChunk, Chunk, text, thought, tool_call, plan, StopReason, unknown, end_turn, max_tokens,
  max_turn_requests, refusal, cancelled, max_streaming_coerce_bytes,
}
use otto_gateway.OpenAi.Frames.{
  Frame, role_delta, content_delta, call_header, call_arguments, finish, error_frame, done_frame,
}

unfoldable pub map_finish_reason : StopReason → String
map_finish_reason end_turn = "stop"
map_finish_reason max_tokens = "length"
map_finish_reason max_turn_requests = "length"
map_finish_reason refusal = "content_filter"
map_finish_reason cancelled = "stop"
map_finish_reason _ = "stop"

-- What a request fixes: its tools and their aliases; `json.Marshal`, none where it fails; the calls
-- that a text wraps; the calls that a text is coerced to, none where it is not; and the id for a call
-- that has none, by the number of calls before it.
pub record ChatRequest (J : Type 0) : Type 0 where
  pub model : String
  pub tools : List String
  pub aliases : List (String × String)
  pub marshal : List (String × J) → Option String
  pub extract : String → List String → List (ToolCall J)
  pub coerce : String → Option (List (ToolCall J))
  pub fresh_id : ℕ → String

pub record SseEmitter (J : Type 0) : Type 0 where
  -- the writes that the connection still takes, and the frames that it has taken
  pub budget : ℕ
  pub sent : List Frame
  pub role_sent : Bool
  pub text_buffer : String
  pub buffering : Bool
  pub saw_native_call : Bool
  pub text_flushed : Bool
  pub aggregated_text : String
  pub native_calls : List (ToolCall J)
  -- what aggregatedResponse is given where the run ends
  pub stop : StopReason
  pub synthetic_calls : List (ToolCall J)

-- What the loop's `select` receives: a chunk, the end of the request's context, the idle timer, or
-- the end of the chunks with the stream's result, none for an error.
pub data SseSignal (J : Type 0) : Type 0 where
  arrives : Chunk J → SseSignal J
  leaves times_out : SseSignal J
  closes : Option StopReason → SseSignal J

pub record ChatResponse (J : Type 0) : Type 0 where
  pub model : String
  pub content : String
  pub tool_calls : List (ToolCall J)
  pub stop_reason : StopReason

abbrev pub has_any {ℓ} : {A : Type ℓ} → List A → Bool
has_any [] = false
has_any (x ∷ xs) = true

abbrev pub json_or_empty : Option String → String
json_or_empty none = "{}"
json_or_empty (some s) = s

module _ {J : Type 0} where
  unfoldable pub write_data : Frame → Step (SseEmitter J)
  write_data f e = elim e.budget [
    | zero ↦ (e, false)
    | suc left ↦ (record e { budget = left; sent = e.sent ++ (f ∷ []) }, true)
  ]

  abbrev pub with_role : SseEmitter J → SseEmitter J
  with_role e = record e { role_sent = true }

  unfoldable pub ensure_role_sent : Step (SseEmitter J)
  unfolding write_data
  ensure_role_sent e =
      if e.role_sent then (e, true) else (write_data role_delta >> modify with_role) e

  abbrev pub unbuffered : SseEmitter J → SseEmitter J
  unbuffered e = record e { text_buffer = ""; buffering = false }

  unfoldable pub flush_text_buffer : Step (SseEmitter J)
  unfolding write_data
  flush_text_buffer e =
      if is_blank e.text_buffer
      then (unbuffered e, true)
      else (write_data (content_delta e.text_buffer) >> modify unbuffered) e

  abbrev pub buffers : String → SseEmitter J → SseEmitter J
  buffers s e = record e {
    buffering = true;
    text_buffer = concat e.text_buffer s;
    aggregated_text = concat e.aggregated_text s;
  }

  abbrev pub passes_text : SseEmitter J → SseEmitter J
  passes_text e = record e { text_flushed = true }

  abbrev pub aggregates : String → SseEmitter J → SseEmitter J
  aggregates s e = record e { aggregated_text = concat e.aggregated_text s }

  -- Whether a text waits for the end of the stream.
  unfoldable pub is_held : ChatRequest J → String → SseEmitter J → Bool
  unfolding byte_length
  is_held v s e =
      has_any v.tools
      && not e.text_flushed
      && leb (byte_length e.text_buffer + byte_length s) max_streaming_coerce_bytes

  unfoldable pub deliver_fragment : ChatRequest J → String → Step (SseEmitter J)
  unfolding is_held flush_text_buffer write_data concat
  deliver_fragment v s e =
      if is_held v s e
      then (buffers s e, true)
      else ((λ e'. if e'.buffering then flush_text_buffer e' else (e', true))
            >> modify passes_text
            >> write_data (content_delta s)
            >> modify (aggregates s))
          e

  unfoldable pub apply_text_chunk : ChatRequest J → Option String → Step (SseEmitter J)
  unfolding ensure_role_sent deliver_fragment
  apply_text_chunk v none = pass
  apply_text_chunk v (some s) = ensure_role_sent >> deliver_fragment v s

  abbrev pub surfaces : ChatRequest J → ToolChunk J → String → SseEmitter J → SseEmitter J
  surfaces v t name e = record e {
    saw_native_call = true;
    native_calls =
        e.native_calls
        ++ (record {
          id = if is_blank t.id then v.fresh_id (length e.native_calls) else t.id;
          name = name;
          arguments = t.args;
        }
            ∷ []);
  }

  unfoldable pub apply_tool_call_chunk : ChatRequest J → Option (ToolChunk J) → Step (SseEmitter J)
  unfolding resolve_native_tool_name ensure_role_sent
  apply_tool_call_chunk v none = pass
  apply_tool_call_chunk v (some t) = elim (resolve_native_tool_name t.name v.tools v.aliases) [
    | none ↦ pass
    | some name ↦ ensure_role_sent >> modify (surfaces v t name)
  ]

  unfoldable pub apply_sse_chunk : ChatRequest J → Chunk J → Step (SseEmitter J)
  unfolding apply_text_chunk apply_tool_call_chunk
  apply_sse_chunk v (text o) = apply_text_chunk v o
  apply_sse_chunk v (tool_call o) = apply_tool_call_chunk v o
  apply_sse_chunk v (thought o) = pass
  apply_sse_chunk v plan = pass

  -- The frames of the calls, from an index on.
  unfoldable pub emit_tool_call_frames : ChatRequest J → ℕ → List (ToolCall J) → Step (SseEmitter J)
  unfolding write_data
  emit_tool_call_frames v i [] = pass
  emit_tool_call_frames v i (c ∷ cs) =
      write_data (call_header i c.id c.name)
      >> write_data (call_arguments i (json_or_empty (v.marshal c.arguments)))
      >> emit_tool_call_frames v (suc i) cs

  unfoldable pub emit_terminal_frame : StopReason → Step (SseEmitter J)
  unfolding write_data map_finish_reason
  emit_terminal_frame stop = write_data (finish (map_finish_reason stop))

  abbrev pub reports : List (ToolCall J) → SseEmitter J → SseEmitter J
  reports calls e = record e { synthetic_calls = calls }

  abbrev pub stops : StopReason → SseEmitter J → SseEmitter J
  stops stop e = record e { stop = stop }

  -- Native calls were seen: a text that wraps calls repeats them, and is dropped.
  unfoldable pub end_with_native : ChatRequest J → Step (SseEmitter J)
  unfolding flush_text_buffer emit_tool_call_frames write_data dedup_tool_calls
  end_with_native v e =
      let calls = dedup_tool_calls v.marshal e.native_calls in
      ((if has_any (v.extract e.text_buffer v.tools) then modify unbuffered else flush_text_buffer)
          >> modify (reports calls)
          >> emit_tool_call_frames v 0 calls
          >> write_data (finish "tool_calls"))
        e

  unfoldable pub end_with_calls :
      ChatRequest J → StopReason → List (ToolCall J) → Step (SseEmitter J)
  unfolding emit_tool_call_frames emit_terminal_frame write_data
  end_with_calls v stop [] = emit_terminal_frame stop
  end_with_calls v stop (c ∷ cs) =
      emit_tool_call_frames v 0 (c ∷ cs)
      >> write_data (finish "tool_calls")
      >> modify (reports (c ∷ cs))

  unfoldable pub try_streaming_coerce : ChatRequest J → StopReason → Step (SseEmitter J)
  unfolding flush_text_buffer emit_terminal_frame end_with_calls
  try_streaming_coerce v stop e = elim (v.coerce e.text_buffer) [
    | none ↦ (flush_text_buffer >> emit_terminal_frame stop) e
    | some calls ↦ (modify unbuffered >> end_with_calls v stop calls) e
  ]

  unfoldable pub triage : ChatRequest J → StopReason → Step (SseEmitter J)
  unfolding end_with_native emit_terminal_frame try_streaming_coerce
  triage v stop e =
      if e.saw_native_call
      then end_with_native v e
      else if not e.buffering
      then emit_terminal_frame stop e
      else try_streaming_coerce v stop e

  -- An error frame and the end marker, whose errors are ignored.
  unfoldable pub abort : String → Step (SseEmitter J)
  unfolding write_data
  abort s = ignore (write_data (error_frame s)) >> ignore (write_data done_frame) >> fail

  unfoldable pub finalize_sse : ChatRequest J → Option StopReason → Step (SseEmitter J)
  unfolding abort ensure_role_sent triage write_data
  finalize_sse v none = abort "worker terminated mid-stream"
  finalize_sse v (some stop) =
      ensure_role_sent >> modify (stops stop) >> triage v stop >> write_data done_frame

  -- The loop. No signal left is a loop that still waits.
  unfoldable pub sse_loop : ChatRequest J → List (SseSignal J) → Step (SseEmitter J)
  unfolding apply_sse_chunk finalize_sse abort
  sse_loop v [] = pass
  sse_loop v (arrives c ∷ xs) = apply_sse_chunk v c >> sse_loop v xs
  sse_loop v (leaves ∷ xs) = fail
  sse_loop v (times_out ∷ xs) = abort "stream idle timeout"
  sse_loop v (closes result ∷ xs) = finalize_sse v result

  abbrev pub new_sse_emitter : ℕ → SseEmitter J
  new_sse_emitter budget = record {
    budget = budget;
    sent = [];
    role_sent = false;
    text_buffer = "";
    buffering = false;
    saw_native_call = false;
    text_flushed = false;
    aggregated_text = "";
    native_calls = [];
    stop = unknown;
    synthetic_calls = [];
  }

  unfoldable pub aggregated_response : ChatRequest J → SseEmitter J → ChatResponse J
  aggregated_response v e = record {
    model = v.model;
    content = if has_any v.tools && has_any e.synthetic_calls then "" else e.aggregated_text;
    tool_calls = e.synthetic_calls;
    stop_reason = e.stop;
  }
