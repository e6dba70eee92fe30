-- ===== src/Acp/Delivery.antt =====
-- The chunks of a stream, its result and the end of a close, internal/acp/stream.go.
use otto_gateway.Base.{
  ℕ, suc, ◌+◌, ◌≤◌, ◌≡◌, refl, sym, ap, ◌∙◌, String, true, false, ◌⊎◌, inl, inr, Option, none, some,
  List, [], ◌∷◌, ◌++◌, length, length-append, arith, Option-cases, ltb, if-Holds,
}
use mathlib.Core.List.{append_assoc}
use otto_gateway.Anthropic.Stream.{StopReason, unknown}
use otto_gateway.Acp.Stream.{
  Stream, capacity, StreamEvent, begins_push, sends, cancels, wakes, counts, starts_close,
  merges_result, finishes_close, receives, denies, sets_deny, reason_or_unknown, new_stream,
  begin_push, take_push, send_push, count_push, cancel_push, wake_push, start_close, merge_result,
  finish_close, receive_chunk, record_denial, set_deny_builtin_tools, result_of, stream_step,
  stream_run,
}
use otto_gateway.Acp.Settled.{
  IsServing, IsClosed, Ended, stream_step-IsServing, stream_step-IsClosing, stream_step-IsClosed,
  IsFrozen,
}

module _ {C : Type 0} where
  -- The chunks that the channel took are those received and those in its buffer, each counted once.
  pub record Flows (s : Stream C) : Type 0 where
    pub calm : s.panicked ≡ false
    pub flow : s.received ++ s.buffer ≡ s.accepted
    pub room : length s.buffer ≤ capacity
    pub counted : s.result.chunk_count + s.uncounted ≡ length s.accepted

  -- A push that still holds the lock sees an open channel.
  abbrev Gate : Stream C → Type 0
  Gate s = (s.chan_closed ≡ false) ⊎ (s.pushing ≡ [])

  sent-Flows :
      (s : Stream C) (c : C) (others : List C)
      → Flows s
      → ltb (length s.buffer) capacity ≡ true
      → Flows (record s {
        buffer = s.buffer ++ (c ∷ []);
        pushing = others;
        uncounted = suc s.uncounted;
        accepted = s.accepted ++ (c ∷ []);
      })
  sent-Flows s c others f free = record {
    calm = f.calm;
    flow = sym (append_assoc s.received s.buffer (c ∷ [])) ∙ ap (λ l. l ++ (c ∷ [])) f.flow;
    room = ground (arith, length-append s.buffer (c ∷ []));
    counted = ground (arith, f.counted, length-append s.accepted (c ∷ []));
  }

  send_push-Flows : (i : ℕ) (s : Stream C) → Gate s → Flows s → Flows (send_push i s)
  unfolding send_push
  send_push-Flows i s g f = elim (Option-cases (take_push s.pushing i)) [
    | inl e ↦ rw (e, send_push) f
    | inr ((c, others), e) ↦
        rw (e, send_push)
          (if-Holds Flows s.chan_closed _ _ (λ shut. absurd (unfold take_push in ground (arith, g)))
            (λ still.
              if-Holds Flows (ltb (length s.buffer) capacity) _ _ (sent-Flows s c others f)
                (λ full. f)))
  ]

  receive_chunk-Flows : (s : Stream C) → Flows s → Flows (receive_chunk s)
  unfolding receive_chunk
  receive_chunk-Flows s f =
      elim s.buffer as (λ b. s.buffer ≡ b → Flows (receive_chunk s)) [
        | [] ↦ λ e. rw (e, receive_chunk) f
        | c ∷ cs ↦ λ e.
            rw (e, receive_chunk)
              (record {
                calm = f.calm;
                flow =
                    append_assoc s.received (c ∷ []) cs
                    ∙ ap (λ l. s.received ++ l) (sym e)
                    ∙ f.flow;
                room = ground arith;
                counted = f.counted;
              })
      ]
        refl

  flow_step : (s : Stream C) (ev : StreamEvent C) → Gate s → Flows s → Flows (stream_step s ev)
  unfolding stream_step
  flow_step s (begins_push c) g f = unfold begin_push in ground arith
  flow_step s (sends k) g f = send_push-Flows k s g f
  flow_step s (cancels k) g f = unfold cancel_push in ground arith
  flow_step s (wakes k) g f = unfold wake_push in ground arith
  flow_step s counts g f = unfold count_push in ground arith
  flow_step s (starts_close r e) g f = unfold start_close in ground arith
  flow_step s merges_result g f = unfold merge_result in ground arith
  flow_step s finishes_close g f = unfold finish_close in ground arith
  flow_step s receives g f = receive_chunk-Flows s f
  flow_step s denies g f = unfold record_denial in ground arith
  flow_step s (sets_deny v) g f = unfold set_deny_builtin_tools in ground arith

  Ended-Gate : (r : Option StopReason) (e : Option String) (s : Stream C) → Ended r e s → Gate s
  Ended-Gate r e s (inl i) = inl i.chan_closed
  Ended-Gate r e s (inr i) = inr i.pushing

  stream_step-Ended :
      (r : Option StopReason) (e : Option String) (s : Stream C) (ev : StreamEvent C)
      → Ended r e s
      → Ended r e (stream_step s ev)
  stream_step-Ended r e s ev (inl i) = stream_step-IsClosing r e s ev i
  stream_step-Ended r e s ev (inr i) = inr (stream_step-IsClosed r e s ev i).0

  -- A close keeps the arguments of the call that came first.
  pub run-Ended :
      (r : Option StopReason) (e : Option String) (s : Stream C) (es : List (StreamEvent C))
      → Ended r e s
      → Flows s
      → Ended r e (stream_run s es) × Flows (stream_run s es)
  unfolding stream_run
  run-Ended r e s [] i f = (i, f)
  run-Ended r e s (ev ∷ es) i f =
      run-Ended r e (stream_step s ev) es (stream_step-Ended r e s ev i)
        (flow_step s ev (Ended-Gate r e s i) f)

  pub run-IsFrozen :
      (r : Option StopReason) (e : Option String) (s : Stream C) (es : List (StreamEvent C))
      → IsClosed r e s
      → IsClosed r e (stream_run s es) × IsFrozen s (stream_run s es)
  unfolding stream_run
  run-IsFrozen r e s [] i = (i, record { result = refl; err = refl; accepted = refl })
  run-IsFrozen r e s (ev ∷ es) i =
      let (j, one) = stream_step-IsClosed r e s ev i in
      let (k, rest) = run-IsFrozen r e (stream_step s ev) es j in
      (
        k,
        record {
          result = rest.result ∙ one.result;
          err = rest.err ∙ one.err;
          accepted = rest.accepted ∙ one.accepted;
        },
      )

  -- A stream is serving, or some close has begun.
  abbrev pub Stage : Stream C → Type 0
  Stage s = IsServing s ⊎ ((r : Option StopReason) × (e : Option String) × Ended r e s)

  stream_step-Stage : (s : Stream C) (ev : StreamEvent C) → Stage s → Stage (stream_step s ev)
  stream_step-Stage s ev (inl i) = elim (stream_step-IsServing s ev i) [
    | inl j ↦ inl j
    | inr (r, e, j) ↦ inr (r, e, inl j)
  ]
  stream_step-Stage s ev (inr (r, e, i)) = inr (r, e, stream_step-Ended r e s ev i)

  Stage-Gate : (s : Stream C) → Stage s → Gate s
  Stage-Gate s (inl i) = inl i.chan_closed
  Stage-Gate s (inr (r, e, i)) = Ended-Gate r e s i

  run-Stage :
      (s : Stream C) (es : List (StreamEvent C))
      → Stage s
      → Flows s
      → Stage (stream_run s es) × Flows (stream_run s es)
  unfolding stream_run
  run-Stage s [] i f = (i, f)
  run-Stage s (ev ∷ es) i f =
      run-Stage (stream_step s ev) es (stream_step-Stage s ev i) (flow_step s ev (Stage-Gate s i) f)

  pub reached :
      (sid : String) (es : List (StreamEvent C))
      → Stage (stream_run (new_stream sid) es) × Flows (stream_run (new_stream sid) es)
  unfolding new_stream
  reached sid es = run-Stage (new_stream sid) es (inl (ground arith)) (ground arith)

  -- However the pushes, the closes and the consumer of a stream are interleaved: no push sends on the
  -- closed channel, the chunks received and then those buffered are the chunks accepted, in their
  -- order, at most 64 are buffered, and the count of the result and the pushes that have yet to
  -- count make up the number of chunks accepted.
  pub chunks_intact :
      (sid : String) (es : List (StreamEvent C))
      → ((stream_run (new_stream sid) es).panicked ≡ false)
        × ((stream_run (new_stream sid) es).received ++ (stream_run (new_stream sid) es).buffer
            ≡ (stream_run (new_stream sid) es).accepted)
        × (length (stream_run (new_stream sid) es).buffer ≤ capacity)
        × ((stream_run (new_stream sid) es).result.chunk_count
              + (stream_run (new_stream sid) es).uncounted
            ≡ length (stream_run (new_stream sid) es).accepted)
  chunks_intact sid es = let f = (reached sid es).1 in (f.calm, f.flow, f.room, f.counted)

  begins-Ended :
      (s : Stream C) (r : Option StopReason) (e : Option String)
      → Stage s
      → s.done ≡ false
      → Ended r e (start_close r e s)
  unfolding start_close
  begins-Ended s r e (inl i) h = inl (ground arith)
  begins-Ended s r e (inr (q, f, inl i)) h = ground arith
  begins-Ended s r e (inr (q, f, inr i)) h = ground arith

  start_close-Flows :
      (s : Stream C) (r : Option StopReason) (e : Option String)
      → Flows s
      → Flows (start_close r e s)
  unfolding start_close
  start_close-Flows s r e f = ground arith

  -- A stream after the first close, with these arguments, and any further steps.
  abbrev pub closed_run :
      String
      → List (StreamEvent C)
      → Option StopReason
      → Option String
      → List (StreamEvent C)
      → Stream C
  closed_run sid es r e fs = stream_run (start_close r e (stream_run (new_stream sid) es)) fs

  pub closed_reached :
      (sid : String) (es : List (StreamEvent C)) (r : Option StopReason) (e : Option String)
      (fs : List (StreamEvent C))
      → (stream_run (new_stream sid) es).done ≡ false
      → Ended r e (closed_run sid es r e fs) × Flows (closed_run sid es r e fs)
  closed_reached sid es r e fs h =
      let (i, f) = reached sid es in
      let s = stream_run (new_stream sid) es in
      run-Ended r e (start_close r e s) fs (begins-Ended s r e i h) (start_close-Flows s r e f)

  -- The stop reason, the error and the count of what Result returns.
  abbrev pub outcome_of : Stream C → Option (StopReason × Option String × ℕ)
  outcome_of s = elim (result_of s) [
    | none ↦ none
    | some (r, e) ↦ some (r.stop_reason, e, r.chunk_count)
  ]

  final_outcome :
      (r : Option StopReason) (e : Option String) (s t : Stream C)
      → IsClosed r e s
      → Flows s
      → IsClosed r e t
      → IsFrozen s t
      → outcome_of t ≡ some (reason_or_unknown r, e, length t.accepted)
  unfolding result_of
  final_outcome r e s t i f j z = ground arith

  -- Once the channel of chunks is closed, whatever happened before and whatever happens after,
  -- Result returns the stop reason and the error of the first close, with the number of all the
  -- chunks that the channel ever took.
  pub result_final :
      (sid : String) (es fs gs : List (StreamEvent C)) (r : Option StopReason) (e : Option String)
      → (stream_run (new_stream sid) es).done ≡ false
      → (closed_run sid es r e fs).chan_closed ≡ true
      → outcome_of (stream_run (closed_run sid es r e fs) gs)
        ≡ some (reason_or_unknown r, e, length (stream_run (closed_run sid es r e fs) gs).accepted)
  result_final sid es fs gs r e h shut =
      let (i, f) = closed_reached sid es r e fs h in
      let s = closed_run sid es r e fs in
      elim i [
        | inl early ↦ absurd (ground (arith, early.chan_closed, shut))
        | inr late ↦
            let (j, z) = run-IsFrozen r e s gs late in
            final_outcome r e s (stream_run s gs) late f j z
      ]

  -- Result waits for `done` only, which a close closes first: from the start of the first close until
  -- that close has the lock of the pushes and marks the stream closed, Result returns no stop reason
  -- and no error, whatever the close was given.
  pub result_unsettled :
      (sid : String) (es fs : List (StreamEvent C)) (r : Option StopReason) (e : Option String)
      → (stream_run (new_stream sid) es).done ≡ false
      → (closed_run sid es r e fs).closed ≡ false
      → outcome_of (closed_run sid es r e fs)
        ≡ some (unknown, none, (closed_run sid es r e fs).result.chunk_count)
  unfolding result_of
  result_unsettled sid es fs r e h still = elim (closed_reached sid es r e fs h).0 [
    | inl early ↦ ground (arith, early.done, early.stop_reason, early.err)
    | inr late ↦ absurd (ground (arith, late.closed, still))
  ]
