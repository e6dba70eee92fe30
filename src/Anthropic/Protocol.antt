-- ===== src/Anthropic/Protocol.antt =====
-- Whatever chunks arrive, the client of internal/adapter/anthropic/sse.go reads a stream that follows
-- the protocol.
use otto_gateway.Base.{
  ◌≡◌, refl, String, Bool, true, false, not, Option, none, some, List, [], ◌∷◌, arith,
  if◌then◌else◌, is_blank,
}
use otto_gateway.Engine.ToolCalls.{ToolCall}
use otto_gateway.Anthropic.Frames.{
  text_kind, thought_kind, tool_kind, text_header, thinking_header, tool_header, json_delta, inside,
  accept,
}
use otto_gateway.Anthropic.Emitter.{
  Request, Emitter, Emit, ◌>>◌, pass, modify, when, write_event, close_block, open_block,
  deliver_text, deliver_thought, flush_buffered_text, emit_all,
}
use otto_gateway.Engine.ToolCalls.{resolve_native_tool_name}
use otto_gateway.Anthropic.Emitter.{consumed}
use otto_gateway.Anthropic.Stream.{
  ToolChunk, Chunk, text, thought, tool_call, plan, wrapped, some_calls, emit_calls,
  finalize_buffered_text, holds_text, stop_buffering, emitted, decided, delivered, has_buffer,
  settle_for_thought, settle_for_call, deliver_call, apply_text, apply_chunk,
}
use otto_gateway.Anthropic.Grammar.{
  At, Good, Post, then-Post, Post-map, when-Post, if-Post, write-Post, Closed, close_block-Post,
}
use otto_gateway.Anthropic.Blocks.{
  In, open_block-Post, Good-touch, deliver_text-Post, deliver_thought-Post,
  flush_buffered_text-Post, emit_all-Post,
}

module _ {J : Type 0} where
  shut_block-Post : (e : Emitter J) → Good e → Post Closed (when e.block_open close_block e)
  shut_block-Post e g =
      when-Post Closed e.block_open close_block e (close_block-Post e g)
        (λ o. record { good = g; shut = o })

  -- A step that is one of two, or depends on an option.
  pub either-Post :
      (P : Emitter J → Type 0) (b : Bool) (m k : Emit J) (e : Emitter J)
      → Post P (m e)
      → Post P (k e)
      → Post P ((if b then m else k) e)
  either-Post P true m k e h g = h
  either-Post P false m k e h g = g

  pub option-Post :
      {A : Type 0}
      → (P : Emitter J → Type 0) (m : Emit J) (k : A → Emit J) (o : Option A) (e : Emitter J)
      → Post P (m e)
      → ((a : A) → Post P (k a e))
      → Post P ((elim o as (λ _. Emit J) [ none ↦ m | some a ↦ k a ]) e)
  option-Post P m k none e h g = h
  option-Post P m k (some a) e h g = g a

  emit_calls-Post :
      (v : Request J) (calls : List (ToolCall J)) (e : Emitter J)
      → Closed e
      → Post Good (emit_calls v calls e)
  unfolding emit_calls
  emit_calls-Post v calls e c =
      let emit = emit_all v calls >> modify emitted in
      then-Post Good Good (when (not e.tool_use_emitted) emit) (modify consumed) e
        (when-Post Good (not e.tool_use_emitted) emit e
          (λ h.
            then-Post Closed Good (emit_all v calls) (modify emitted) e (emit_all-Post v calls e c)
              (λ x d. Good-touch x (emitted x) refl refl refl refl refl d.good))
          (λ h. c.good))
        (λ x j. Good-touch x (consumed x) refl refl refl refl refl j)

  pub finalize_buffered_text-Post :
      (v : Request J) (e : Emitter J) → Good e → Post Good (finalize_buffered_text v e)
  unfolding finalize_buffered_text
  finalize_buffered_text-Post v e g =
      let calls = wrapped v e.buffered_text in
      let shut = when e.block_open close_block in
      if-Post Good (not e.buffering) _ _ (λ b. g)
        (λ b.
          if-Post Good (is_blank e.buffered_text) _ _ (λ b'. g)
            (λ b'.
              then-Post Closed Good shut
                (if some_calls calls then emit_calls v calls else flush_buffered_text) e
                (shut_block-Post e g)
                (λ x c.
                  either-Post Good (some_calls calls) (emit_calls v calls) flush_buffered_text x
                    (emit_calls-Post v calls x c) (flush_buffered_text-Post x c.good))))

  settle_for_thought-Post :
      (v : Request J) (e : Emitter J) → Good e → Post Good (settle_for_thought v e)
  unfolding settle_for_thought
  settle_for_thought-Post v e g =
      when-Post Good (has_buffer e) (finalize_buffered_text v >> modify stop_buffering) e
        (λ h.
          then-Post Good Good (finalize_buffered_text v) (modify stop_buffering) e
            (finalize_buffered_text-Post v e g)
            (λ x j. Good-touch x (stop_buffering x) refl refl refl refl refl j))
        (λ h. g)

  settle_for_call-Post : (v : Request J) (e : Emitter J) → Good e → Post Good (settle_for_call v e)
  unfolding settle_for_call
  settle_for_call-Post v e g =
      let repeated = some_calls (v.extract e.buffered_text v.tools) in
      let settle = if repeated then modify consumed else finalize_buffered_text v in
      when-Post Good (has_buffer e) (settle >> modify stop_buffering) e
        (λ h.
          then-Post Good Good settle (modify stop_buffering) e
            (either-Post Good repeated (modify consumed) (finalize_buffered_text v) e
              (Good-touch e (consumed e) refl refl refl refl refl g)
              (finalize_buffered_text-Post v e g))
            (λ x j. Good-touch x (stop_buffering x) refl refl refl refl refl j))
        (λ h. g)

  -- In a block of a tool call, after its arguments.
  record Filled (e : Emitter J) : Type 0 where
    at : At e (inside e.block_index tool_kind true)
    kind : e.current_kind ≡ tool_kind
    shown : e.block_open ≡ true

  -- The arguments of the call, or nothing: a placeholder, a second frame, or a text that fails.
  deliver_call-Post :
      (v : Request J) (t : ToolChunk J) (e : Emitter J)
      → In tool_kind e
      → Post Good (deliver_call v t e)
  unfolding deliver_call
  deliver_call-Post v t e i = given t.args (v.marshal t.args)
    where
      given :
          (args : List (String × J)) (o : Option String)
          → Post Good (elim args as (λ _. Emitter J × Bool) [
            | [] ↦ (e, true)
            | a ∷ rest ↦
                if not e.pending_tool_use_flush
                then (e, true)
                else elim o as (λ _. Emitter J × Bool) [
                  | none ↦ (e, true)
                  | some s ↦ (write_event (json_delta e.block_index s) >> modify (delivered t)) e
                ]
          ])
      given [] o = i.good
      given (a ∷ rest) none =
          if-Post Good (not e.pending_tool_use_flush) _ _ (λ h. i.good) (λ h. i.good)
      given (a ∷ rest) (some s) =
          if-Post Good (not e.pending_tool_use_flush) _ _ (λ h. i.good)
            (λ h.
              then-Post Filled Good (write_event (json_delta e.block_index s))
                (modify (delivered t)) e
                (write-Post Filled e _ (inside e.block_index tool_kind false)
                  (inside e.block_index tool_kind true)
                  (ground (arith, i.good.at, i.open_kind, i.is_open))
                  (unfold accept in ground arith)
                  (λ left at. record { at = at; kind = i.open_kind; shown = i.is_open }))
                (λ x f. record {
                  at = ground (arith, f.at, f.kind, f.shown);
                  tool = λ y. f.kind;
                  opened = λ y. f.shown;
                }))

  apply_text-Post :
      (v : Request J) (s : String) (e : Emitter J) → Good e → Post Good (apply_text v s e)
  unfolding apply_text
  apply_text-Post v s e g =
      let flush = flush_buffered_text >> modify decided in
      if-Post Good (holds_text v e s) _ _ (λ h. Good-touch e _ refl refl refl refl refl g)
        (λ h.
          then-Post (In text_kind) Good (when e.buffering flush >> open_block text_header)
            (deliver_text s) e
            (then-Post Good (In text_kind) (when e.buffering flush) (open_block text_header) e
              (when-Post Good e.buffering flush e
                (λ b.
                  then-Post Good Good flush_buffered_text (modify decided) e
                    (flush_buffered_text-Post e g)
                    (λ x j. Good-touch x (decided x) refl refl refl refl refl j))
                (λ b. g))
              (open_block-Post text_header))
            (deliver_text-Post s))

  pub apply_chunk-Post :
      (v : Request J) (c : Chunk J) (e : Emitter J) → Good e → Post Good (apply_chunk v c e)
  unfolding apply_chunk
  apply_chunk-Post v (text none) e g =
      Post-map (In text_kind) Good _ (open_block-Post text_header e g) (λ x i. i.good)
  apply_chunk-Post v (text (some s)) e g = apply_text-Post v s e g
  apply_chunk-Post v (thought none) e g =
      Post-map (In thought_kind) Good _ (open_block-Post thinking_header e g) (λ x i. i.good)
  apply_chunk-Post v (thought (some s)) e g =
      then-Post (In thought_kind) Good (settle_for_thought v >> open_block thinking_header)
        (deliver_thought s) e
        (then-Post Good (In thought_kind) (settle_for_thought v) (open_block thinking_header) e
          (settle_for_thought-Post v e g) (open_block-Post thinking_header))
        (deliver_thought-Post s)
  apply_chunk-Post v (tool_call none) e g = g
  apply_chunk-Post v (tool_call (some t)) e g =
      option-Post Good pass
        (λ name.
          settle_for_call v
          >> open_block (tool_header t.id name)
          >> deliver_call v (record t { name = name }))
        (resolve_native_tool_name t.name v.tools v.aliases) e g
        (λ name.
          then-Post (In tool_kind) Good (settle_for_call v >> open_block (tool_header t.id name))
            (deliver_call v (record t { name = name })) e
            (then-Post Good (In tool_kind) (settle_for_call v) (open_block (tool_header t.id name))
              e (settle_for_call-Post v e g) (open_block-Post (tool_header t.id name)))
            (deliver_call-Post v (record t { name = name })))
  apply_chunk-Post v plan e g = g
