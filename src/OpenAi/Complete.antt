-- ===== src/OpenAi/Complete.antt =====
-- A stream of internal/adapter/openai/sse.go whose chunks end is a complete answer to its client.
use otto_gateway.Base.{
  ◌≡◌, refl, String, Bool, true, none, some, List, [], ◌∷◌, ◌++◌, inr, if◌then◌else◌, if-Holds,
  Step, ◌>>◌, pass, modify, Post, Post-map, then-Post, concat,
}
use otto_gateway.Engine.ToolCalls.{ToolCall, resolve_native_tool_name}
use otto_gateway.Anthropic.Stream.{ToolChunk, Chunk, text, thought, tool_call, plan, StopReason}
use otto_gateway.OpenAi.Frames.{content_delta, done_frame, fresh, finished, closed, accept, reads}
use otto_gateway.OpenAi.Emitter.{
  ChatRequest, SseEmitter, has_any, write_data, ensure_role_sent, flush_text_buffer, passes_text,
  aggregates, is_held, deliver_fragment, apply_text_chunk, surfaces, apply_tool_call_chunk,
  apply_sse_chunk, stops, triage, finalize_sse, aggregated_response,
}
use otto_gateway.OpenAi.Legal.{
  Broken, write_data-Post, Good, Speaks, Speaks-Good, ensure_role_sent-Post, content-Post,
  flush_text_buffer-Post,
}
use otto_gateway.OpenAi.Calls.{written_calls}
use otto_gateway.OpenAi.Endings.{told, Finished, triage-Post}

module _ {J : Type 0} where
  -- A change of the fields that hold text.
  retext :
      (e : SseEmitter J) (held : String) (on flushed : Bool) (all : String)
      → Speaks e
      → Speaks (record e {
        text_buffer = held;
        buffering = on;
        text_flushed = flushed;
        aggregated_text = all;
      })
  retext e held on flushed all s = record {
    at = s.at;
    role = s.role;
    native = s.native;
    calls = s.calls;
  }

  deliver_fragment-Post :
      (v : ChatRequest J) (s : String) (e : SseEmitter J)
      → Speaks e
      → Post Broken Speaks (deliver_fragment v s e)
  unfolding deliver_fragment
  deliver_fragment-Post v s e g =
      let release : Step (SseEmitter J) =
        λ e'. if e'.buffering then flush_text_buffer e' else (e', true) in
      if-Holds (Post Broken Speaks) (is_held v s e) _ _
        (λ h. retext e (concat e.text_buffer s) true e.text_flushed (concat e.aggregated_text s) g)
        (λ h.
          then-Post Broken Speaks Speaks
            (release >> modify passes_text >> write_data (content_delta s)) (modify (aggregates s))
            e
            (then-Post Broken Speaks Speaks (release >> modify passes_text)
              (write_data (content_delta s)) e
              (then-Post Broken Speaks Speaks release (modify passes_text) e
                (if-Holds (Post Broken Speaks) e.buffering (flush_text_buffer e) (e, true)
                  (λ b. flush_text_buffer-Post e g) (λ b. g))
                (λ e' g'. retext e' e'.text_buffer e'.buffering true e'.aggregated_text g'))
              (λ e' g'. content-Post s e' g'))
            (λ e' g'.
              retext e' e'.text_buffer e'.buffering e'.text_flushed (concat e'.aggregated_text s)
                g'))

  kept_call : (calls : List (ToolCall J)) (c : ToolCall J) → has_any (calls ++ (c ∷ [])) ≡ true
  kept_call [] c = refl
  kept_call (x ∷ xs) c = refl

  surfaces-Speaks :
      (v : ChatRequest J) (t : ToolChunk J) (name : String) (e : SseEmitter J)
      → Speaks e
      → Speaks (surfaces v t name e)
  surfaces-Speaks v t name e s = record {
    at = s.at;
    role = s.role;
    native = inr (kept_call e.native_calls _);
    calls = s.calls;
  }

  spoken_Good : (r : SseEmitter J × Bool) → Post Broken Speaks r → Post Broken Good r
  spoken_Good r h = Post-map Broken Speaks Good r h Speaks-Good

  pub apply_sse_chunk-Post :
      (v : ChatRequest J) (c : Chunk J) (e : SseEmitter J)
      → Good e
      → Post Broken Good (apply_sse_chunk v c e)
  unfolding apply_sse_chunk apply_text_chunk apply_tool_call_chunk
  apply_sse_chunk-Post v (text none) e g = g
  apply_sse_chunk-Post v (text (some s)) e g = spoken_Good _ (
      then-Post Broken Speaks Speaks ensure_role_sent (deliver_fragment v s) e
        (ensure_role_sent-Post e g) (deliver_fragment-Post v s))
  apply_sse_chunk-Post v (tool_call none) e g = g
  apply_sse_chunk-Post v (tool_call (some t)) e g =
      elim (resolve_native_tool_name t.name v.tools v.aliases)
        as (λ o. Post Broken Good (
          (elim o as (λ _. Step (SseEmitter J)) [
            | none ↦ pass
            | some name ↦ ensure_role_sent >> modify (surfaces v t name)
          ])
            e)) [
              | none ↦ g
              | some name ↦ spoken_Good _ (
                  then-Post Broken Speaks Speaks ensure_role_sent (modify (surfaces v t name)) e
                    (ensure_role_sent-Post e g) (surfaces-Speaks v t name))
            ]
  apply_sse_chunk-Post v (thought o) e g = g
  apply_sse_chunk-Post v plan e g = g

  -- The client has read a whole answer, and the response that the hooks are given agrees with it: its
  -- stop reason is the stream's, its tool calls are those read, by id, name and encoded arguments, and
  -- the finish reason is "tool_calls" if it has any, else that of the stop reason.
  pub record Complete (v : ChatRequest J) (reason : StopReason) (e : SseEmitter J) : Type 0 where
    pub whole :
        reads fresh e.sent
        ≡ some (
            closed
              (told reason (aggregated_response v e).tool_calls)
              (written_calls v (aggregated_response v e).tool_calls))
    pub stop : (aggregated_response v e).stop_reason ≡ reason

  done-Complete :
      (v : ChatRequest J) (reason : StopReason) (e : SseEmitter J)
      → Finished v reason e
      → Post Broken (Complete v reason) (write_data done_frame e)
  unfolding aggregated_response
  done-Complete v reason e f =
      let r = told reason e.synthetic_calls in
      let n = written_calls v e.synthetic_calls in
      write_data-Post (Complete v reason) e done_frame (finished r n) (closed r n) f.at
        (unfold accept in refl) (λ left at. record { whole = at; stop = f.stop })

  pub finalize_sse-Post :
      (v : ChatRequest J) (reason : StopReason) (e : SseEmitter J)
      → Good e
      → Post Broken (Complete v reason) (finalize_sse v (some reason) e)
  unfolding finalize_sse
  finalize_sse-Post v reason e g =
      let Stopped : SseEmitter J → Type 0 = λ e'. Speaks e' × (e'.stop ≡ reason) in
      then-Post Broken (Finished v reason) (Complete v reason)
        (ensure_role_sent >> modify (stops reason) >> triage v reason) (write_data done_frame) e
        (then-Post Broken Stopped (Finished v reason) (ensure_role_sent >> modify (stops reason))
          (triage v reason) e
          (then-Post Broken Speaks Stopped ensure_role_sent (modify (stops reason)) e
            (ensure_role_sent-Post e g)
            (λ e' s.
              (record { at = s.at; role = s.role; native = s.native; calls = s.calls }, refl)))
          (λ e' (s, same). triage-Post v reason e' s same))
        (done-Complete v reason)
