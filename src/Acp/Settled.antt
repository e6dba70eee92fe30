-- ===== src/Acp/Settled.antt =====
-- The stages of a stream, internal/acp/stream.go: serving, closing, and settled.
use otto_gateway.Base.{
  ℕ, ◌≡◌, refl, String, true, false, ◌⊎◌, inl, inr, Option, none, some, List, [], ◌∷◌, arith,
  Bool-cases, if◌then◌else◌,
}
use otto_gateway.Anthropic.Stream.{
  StopReason, unknown, end_turn, max_tokens, max_turn_requests, refusal, cancelled, stop_error,
}
use otto_gateway.Acp.Stream.{
  not_closing, awaits_pushes, closes_channel, Stream, StreamEvent, begins_push, sends, cancels,
  wakes, counts, starts_close, merges_result, finishes_close, receives, denies, sets_deny,
  reason_or_unknown, is_known, is_quiet, begin_push, send_push, count_push, cancel_push, wake_push,
  start_close, merge_result, finish_close, receive_chunk, record_denial, set_deny_builtin_tools,
  stream_step,
}

known_lem :
    (r : Option StopReason)
    → (if is_known r then reason_or_unknown r else unknown) ≡ reason_or_unknown r
known_lem none = refl
known_lem (some unknown) = refl
known_lem (some end_turn) = refl
known_lem (some max_tokens) = refl
known_lem (some max_turn_requests) = refl
known_lem (some refusal) = refl
known_lem (some cancelled) = refl
known_lem (some stop_error) = refl

module _ {C : Type 0} where
  quiet_lem : (cs : List C) (n : ℕ) → is_quiet cs n ≡ true → (cs ≡ []) × (n ≡ 0)
  quiet_lem [] n h = ground arith
  quiet_lem (c ∷ cs) n h = ground arith

  -- No close has begun.
  pub record IsServing (s : Stream C) : Type 0 where
    pub done : s.done ≡ false
    pub closed : s.closed ≡ false
    pub chan_closed : s.chan_closed ≡ false
    pub closing : s.closing ≡ not_closing
    pub stop_reason : s.result.stop_reason ≡ unknown
    pub err : s.err ≡ none

  -- A close with these arguments waits for the pushes.
  pub record IsClosing (r : Option StopReason) (e : Option String) (s : Stream C) : Type 0 where
    pub done : s.done ≡ true
    pub closed : s.closed ≡ false
    pub chan_closed : s.chan_closed ≡ false
    pub closing : s.closing ≡ awaits_pushes r e
    pub stop_reason : s.result.stop_reason ≡ unknown
    pub err : s.err ≡ none

  -- A close that has merged is about to close the channel, or has returned.
  abbrev pub IsShut : Stream C → Type 0
  IsShut s =
      ((s.closing ≡ closes_channel) × (s.chan_closed ≡ false))
      ⊎ ((s.closing ≡ not_closing) × (s.chan_closed ≡ true))

  -- The close with these arguments has merged its result.
  pub record IsClosed (r : Option StopReason) (e : Option String) (s : Stream C) : Type 0 where
    pub done : s.done ≡ true
    pub closed : s.closed ≡ true
    pub shut : IsShut s
    pub pushing : s.pushing ≡ []
    pub uncounted : s.uncounted ≡ 0
    pub stop_reason : s.result.stop_reason ≡ reason_or_unknown r
    pub err : s.err ≡ e

  abbrev pub Ended : Option StopReason → Option String → Stream C → Type 0
  Ended r e s = IsClosing r e s ⊎ IsClosed r e s

  pub stream_step-IsServing :
      (s : Stream C) (ev : StreamEvent C)
      → IsServing s
      → IsServing (stream_step s ev)
        ⊎ ((r : Option StopReason) × (e : Option String) × IsClosing r e (stream_step s ev))
  unfolding stream_step
  stream_step-IsServing s (begins_push c) i = inl (unfold begin_push in ground arith)
  stream_step-IsServing s (sends k) i = inl (unfold send_push in ground arith)
  stream_step-IsServing s (cancels k) i = inl (unfold cancel_push in ground arith)
  stream_step-IsServing s (wakes k) i = inl (unfold wake_push in ground arith)
  stream_step-IsServing s counts i = inl (unfold count_push in ground arith)
  stream_step-IsServing s (starts_close r e) i = inr (r, e, unfold start_close in ground arith)
  stream_step-IsServing s merges_result i = inl (unfold merge_result in ground arith)
  stream_step-IsServing s finishes_close i = inl (unfold finish_close in ground arith)
  stream_step-IsServing s receives i = inl (unfold receive_chunk in ground arith)
  stream_step-IsServing s denies i = inl (unfold record_denial in ground arith)
  stream_step-IsServing s (sets_deny v) i = inl (unfold set_deny_builtin_tools in ground arith)

  -- The lock is free once every push has ended.
  merging :
      (r : Option StopReason) (e : Option String) (s : Stream C)
      → IsClosing r e s
      → Ended r e (merge_result s)
  unfolding merge_result
  merging r e s i = elim (Bool-cases (is_quiet s.pushing s.uncounted)) [
    | inl quiet ↦ inr (ground (arith, known_lem r, quiet_lem s.pushing s.uncounted))
    | inr busy ↦ inl (ground arith)
  ]

  pub stream_step-IsClosing :
      (r : Option StopReason) (e : Option String) (s : Stream C) (ev : StreamEvent C)
      → IsClosing r e s
      → Ended r e (stream_step s ev)
  unfolding stream_step
  stream_step-IsClosing r e s (begins_push c) i = inl (unfold begin_push in ground arith)
  stream_step-IsClosing r e s (sends k) i = inl (unfold send_push in ground arith)
  stream_step-IsClosing r e s (cancels k) i = inl (unfold cancel_push in ground arith)
  stream_step-IsClosing r e s (wakes k) i = inl (unfold wake_push in ground arith)
  stream_step-IsClosing r e s counts i = inl (unfold count_push in ground arith)
  stream_step-IsClosing r e s (starts_close q f) i = inl (unfold start_close in ground arith)
  stream_step-IsClosing r e s merges_result i = merging r e s i
  stream_step-IsClosing r e s finishes_close i = inl (unfold finish_close in ground arith)
  stream_step-IsClosing r e s receives i = inl (unfold receive_chunk in ground arith)
  stream_step-IsClosing r e s denies i = inl (unfold record_denial in ground arith)
  stream_step-IsClosing r e s (sets_deny v) i = inl (unfold set_deny_builtin_tools in ground arith)

  -- A stream whose close has merged keeps its result, its error and the chunks that it has accepted.
  pub record IsFrozen (s t : Stream C) : Type 0 where
    pub result : t.result ≡ s.result
    pub err : t.err ≡ s.err
    pub accepted : t.accepted ≡ s.accepted

  pub stream_step-IsClosed :
      (r : Option StopReason) (e : Option String) (s : Stream C) (ev : StreamEvent C)
      → IsClosed r e s
      → IsClosed r e (stream_step s ev) × IsFrozen s (stream_step s ev)
  unfolding stream_step
  stream_step-IsClosed r e s (begins_push c) i = unfold begin_push in (ground arith, ground arith)
  stream_step-IsClosed r e s (sends k) i =
      unfold send_push in rw i.pushing (ground arith, ground arith)
  stream_step-IsClosed r e s (cancels k) i = unfold cancel_push in (ground arith, ground arith)
  stream_step-IsClosed r e s (wakes k) i = unfold wake_push in (ground arith, ground arith)
  stream_step-IsClosed r e s counts i = unfold count_push in (ground arith, ground arith)
  stream_step-IsClosed r e s (starts_close q f) i =
      unfold start_close in (ground arith, ground arith)
  stream_step-IsClosed r e s merges_result i = unfold merge_result in (ground arith, ground arith)
  stream_step-IsClosed r e s finishes_close i = unfold finish_close in (ground arith, ground arith)
  stream_step-IsClosed r e s receives i = unfold receive_chunk in (ground arith, ground arith)
  stream_step-IsClosed r e s denies i = unfold record_denial in (ground arith, ground arith)
  stream_step-IsClosed r e s (sets_deny v) i =
      unfold set_deny_builtin_tools in (ground arith, ground arith)
