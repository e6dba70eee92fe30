-- ===== src/OpenAi/Endings.antt =====
-- The frames that end a stream of internal/adapter/openai/sse.go, read by the client of the protocol.
use otto_gateway.Base.{
  ◌≡◌, refl, ◌∙◌, sym, String, Bool, true, false, not, none, some, List, [], ◌∷◌, arith,
  if◌then◌else◌, if-Holds, Step, subst, ◌>>◌, modify, Post, Post-map, assoc_Post, then-Post,
}
use otto_gateway.Engine.ToolCalls.{ToolCall, dedup_tool_calls}
use otto_gateway.Anthropic.Stream.{
  StopReason, unknown, end_turn, max_tokens, max_turn_requests, refusal, cancelled, stop_error,
}
use otto_gateway.OpenAi.Frames.{finish, speaking, finished, accept}
use otto_gateway.OpenAi.Emitter.{
  ChatRequest, SseEmitter, has_any, write_data, unbuffered, flush_text_buffer,
  emit_tool_call_frames, emit_terminal_frame, map_finish_reason, reports, end_with_native,
  end_with_calls, try_streaming_coerce, triage,
}
use otto_gateway.OpenAi.Legal.{
  At, Broken, write_data-Post, Speaks, flush_text_buffer-Post, unbuffered-Speaks,
}
use otto_gateway.OpenAi.Calls.{dedup-some, written_calls, CallsOut, calls_finished}

not_calls :
    (reason : StopReason)
    → accept speaking (finish (map_finish_reason reason))
      ≡ some (finished (map_finish_reason reason) [])
unfolding accept map_finish_reason
not_calls unknown = refl
not_calls end_turn = refl
not_calls max_tokens = refl
not_calls max_turn_requests = refl
not_calls refusal = refl
not_calls cancelled = refl
not_calls stop_error = refl

module _ {J : Type 0} where
  -- The reason that the client must be told, for the calls that are reported.
  abbrev pub told : StopReason → List (ToolCall J) → String
  told stop calls = if has_any calls then "tool_calls" else map_finish_reason stop

  -- The finish reason is out, with the calls before it that are reported.
  pub record Finished (v : ChatRequest J) (reason : StopReason) (e : SseEmitter J) : Type 0 where
    pub at : At e (finished (told reason e.synthetic_calls) (written_calls v e.synthetic_calls))
    pub stop : e.stop ≡ reason

  emit_terminal_frame-Post :
      (v : ChatRequest J) (reason : StopReason) (e : SseEmitter J)
      → Speaks e
      → e.stop ≡ reason
      → Post Broken (Finished v reason) (emit_terminal_frame reason e)
  unfolding emit_terminal_frame
  emit_terminal_frame-Post v reason e s same =
      write_data-Post (Finished v reason) e (finish (map_finish_reason reason)) speaking
        (finished (map_finish_reason reason) []) s.at (not_calls reason)
        (λ left at. record { at = simp s.calls at; stop = same })

  Post-pair :
      (B P Q : SseEmitter J → Type 0) (r : SseEmitter J × Bool)
      → Post B P r
      → Q r.0
      → Post B (λ e. P e × Q e) r
  Post-pair B P Q (e, true) h q = (h, q)
  Post-pair B P Q (e, false) h q = h

  flush_kept :
      (reason : StopReason) (e : SseEmitter J)
      → e.stop ≡ reason
      → (flush_text_buffer e).0.stop ≡ reason
  unfolding flush_text_buffer write_data
  flush_kept reason e same = ground arith

  -- A flush keeps the reports.
  flush-stop :
      (reason : StopReason) (e : SseEmitter J)
      → Speaks e
      → e.stop ≡ reason
      → Post Broken (λ e'. Speaks e' × (e'.stop ≡ reason)) (flush_text_buffer e)
  flush-stop reason e s same =
      Post-pair Broken Speaks (λ e'. e'.stop ≡ reason) (flush_text_buffer e)
        (flush_text_buffer-Post e s) (flush_kept reason e same)

  flush-Ready :
      (reason : StopReason) (e : SseEmitter J)
      → Speaks e
      → e.stop ≡ reason
      → Post Broken (λ e'. At e' speaking × (e'.stop ≡ reason)) (flush_text_buffer e)
  flush-Ready reason e s same =
      Post-map Broken (λ e'. Speaks e' × (e'.stop ≡ reason))
        (λ e'. At e' speaking × (e'.stop ≡ reason)) (flush_text_buffer e)
        (flush-stop reason e s same) (λ e' (s', stop). (s'.at, stop))

  -- Native calls: they are reported, and then written.
  end_with_native-Post :
      (v : ChatRequest J) (reason : StopReason) (e : SseEmitter J)
      → Speaks e
      → has_any e.native_calls ≡ true
      → e.stop ≡ reason
      → Post Broken (Finished v reason) (end_with_native v e)
  unfolding end_with_native
  end_with_native-Post v reason e s native same =
      let calls = dedup_tool_calls v.marshal e.native_calls in
      let written = emit_tool_call_frames v 0 calls >> write_data (finish "tool_calls") in
      let Ready : SseEmitter J → Type 0 = λ e'. At e' speaking × (e'.stop ≡ reason) in
      let Reported : SseEmitter J → Type 0 =
        λ e'. At e' speaking × (e'.stop ≡ reason) × (e'.synthetic_calls ≡ calls) in
      let settle : Step (SseEmitter J) =
        if has_any (v.extract e.text_buffer v.tools)
        then modify unbuffered
        else flush_text_buffer in
      assoc_Post Broken (Finished v reason) (settle >> modify (reports calls))
        (emit_tool_call_frames v 0 calls) (write_data (finish "tool_calls")) e
        (then-Post Broken Reported (Finished v reason) (settle >> modify (reports calls)) written e
          (then-Post Broken Ready Reported settle (modify (reports calls)) e
            (if-Holds (λ (m : Step (SseEmitter J)). Post Broken Ready (m e))
              (has_any (v.extract e.text_buffer v.tools)) (modify unbuffered) flush_text_buffer
              (λ h. (s.at, same)) (λ h. flush-Ready reason e s same))
            (λ e' (at, stop). (at, stop, refl)))
          (λ e' (at, stop, known).
            Post-map Broken (CallsOut (written_calls v calls) e') (Finished v reason) (written e')
              (calls_finished v calls e' (dedup-some v.marshal e.native_calls native) at)
              (λ e'' (at', calls', stop'). record {
                at =
                    subst (λ l. At e'' (finished (told reason l) (written_calls v l)))
                      (sym (calls' ∙ known))
                      (subst
                        (λ b. At e'' (
                          finished (if b then "tool_calls" else map_finish_reason reason)
                            (written_calls v calls)))
                        (sym (dedup-some v.marshal e.native_calls native)) at');
                stop = stop' ∙ stop;
              })))

  -- Calls that the text is coerced to: they are written, and then reported.
  end_with_calls-Post :
      (v : ChatRequest J) (reason : StopReason) (calls : List (ToolCall J)) (e : SseEmitter J)
      → Speaks e
      → e.stop ≡ reason
      → Post Broken (Finished v reason) (end_with_calls v reason calls e)
  unfolding end_with_calls
  end_with_calls-Post v reason [] e s same = emit_terminal_frame-Post v reason e s same
  end_with_calls-Post v reason (c ∷ cs) e s same =
      then-Post Broken (CallsOut (written_calls v (c ∷ cs)) e) (Finished v reason)
        (emit_tool_call_frames v 0 (c ∷ cs) >> write_data (finish "tool_calls"))
        (modify (reports (c ∷ cs))) e (calls_finished v (c ∷ cs) e refl s.at)
        (λ e' (at, calls, stop). record { at = at; stop = stop ∙ same })

  try_streaming_coerce-Post :
      (v : ChatRequest J) (reason : StopReason) (e : SseEmitter J)
      → Speaks e
      → e.stop ≡ reason
      → Post Broken (Finished v reason) (try_streaming_coerce v reason e)
  unfolding try_streaming_coerce
  try_streaming_coerce-Post v reason e s same =
      elim (v.coerce e.text_buffer)
        as (λ o. Post Broken (Finished v reason) (elim o [
          | none ↦ (flush_text_buffer >> emit_terminal_frame reason) e
          | some calls ↦ (modify unbuffered >> end_with_calls v reason calls) e
        ])) [
          | none ↦
              then-Post Broken (λ e'. Speaks e' × (e'.stop ≡ reason)) (Finished v reason)
                flush_text_buffer (emit_terminal_frame reason) e (flush-stop reason e s same)
                (λ e' (s', stop). emit_terminal_frame-Post v reason e' s' stop)
          | some calls ↦
              end_with_calls-Post v reason calls (unbuffered e) (unbuffered-Speaks e s) same
        ]

  pub triage-Post :
      (v : ChatRequest J) (reason : StopReason) (e : SseEmitter J)
      → Speaks e
      → e.stop ≡ reason
      → Post Broken (Finished v reason) (triage v reason e)
  unfolding triage
  triage-Post v reason e s same =
      if-Holds (Post Broken (Finished v reason)) e.saw_native_call _ _
        (λ seen. end_with_native-Post v reason e s (ground (arith, s.native)) same)
        (λ unseen.
          if-Holds (Post Broken (Finished v reason)) (not e.buffering) _ _
            (λ h. emit_terminal_frame-Post v reason e s same)
            (λ h. try_streaming_coerce-Post v reason e s same))
