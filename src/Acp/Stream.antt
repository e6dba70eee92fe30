-- ===== src/Acp/Stream.antt =====
-- `Stream` of internal/acp/stream.go: the goroutines that push, close and drain one stream,
-- interleaved. A push holds `sendMu` for reading from `begin_push` until it ends; a close holds it for
-- writing from `merge_result` to the end of `finish_close`. A push may also begin while a close waits for the lock, which Go's lock
-- would delay.
use otto_gateway.Base.{
  ℕ, zero, suc, ◌-◌, String, Bool, true, false, Option, none, some, List, [], ◌∷◌, ◌++◌, length,
  ltb, ◌==◌, if◌then◌else◌,
}
use otto_gateway.Anthropic.Stream.{StopReason, unknown}

pub record FinalResult : Type 0 where
  pub session_id : String
  pub chunk_count : ℕ
  pub stop_reason : StopReason
  pub tool_denials : ℕ

-- What a push returns.
pub data PushEnd : Type 0 where
  delivered push_cancelled push_after_close : PushEnd

-- A call of close that has closed `done` and waits for `sendMu`, with its arguments: the stop reason
-- of its result, none for nil, and its error, none for nil; and one that has merged its result, has
-- released `mu`, and is about to close `chunks`.
pub data Closing : Type 0 where
  not_closing : Closing
  awaits_pushes : Option StopReason → Option String → Closing
  closes_channel : Closing

pub record Stream (C : Type 0) : Type 0 where
  -- the channel `chunks`
  pub buffer : List C
  pub chan_closed : Bool
  -- whether the channel `done` is closed, which `closeOnce` does once
  pub done : Bool
  pub closed : Bool
  pub closing : Closing
  pub result : FinalResult
  pub err : Option String
  pub deny_builtin_tools : Bool
  pub denial_count : ℕ
  -- the pushes in their `select`, and the number of those that have sent and not yet counted
  pub pushing : List C
  pub uncounted : ℕ
  -- kept to state what becomes of the chunks and of the pushes
  pub accepted : List C
  pub received : List C
  pub returns : List PushEnd
  pub panicked : Bool

abbrev pub capacity : ℕ
capacity = 64

pub data StreamEvent (C : Type 0) : Type 0 where
  begins_push : C → StreamEvent C
  sends cancels wakes : ℕ → StreamEvent C
  counts : StreamEvent C
  starts_close : Option StopReason → Option String → StreamEvent C
  merges_result finishes_close receives denies : StreamEvent C
  sets_deny : Bool → StreamEvent C

abbrev pub reason_or_unknown : Option StopReason → StopReason
reason_or_unknown none = unknown
reason_or_unknown (some r) = r

abbrev pub is_known : Option StopReason → Bool
is_known none = false
is_known (some unknown) = false
is_known (some r) = true

module _ {C : Type 0} where
  unfoldable pub new_stream : String → Stream C
  new_stream sid = record {
    buffer = [];
    chan_closed = false;
    done = false;
    closed = false;
    closing = not_closing;
    result = record { session_id = sid; chunk_count = 0; stop_reason = unknown; tool_denials = 0 };
    err = none;
    deny_builtin_tools = false;
    denial_count = 0;
    pushing = [];
    uncounted = 0;
    accepted = [];
    received = [];
    returns = [];
    panicked = false;
  }

  abbrev pub ends_push : PushEnd → Stream C → Stream C
  ends_push o s = record s { returns = o ∷ s.returns }

  unfoldable pub begin_push : C → Stream C → Stream C
  begin_push c s =
      if s.closed
      then ends_push push_after_close s
      else record s { pushing = s.pushing ++ (c ∷ []) }

  -- The push at an index, and the others.
  unfoldable pub take_push : List C → ℕ → Option (C × List C)
  take_push [] i = none
  take_push (c ∷ cs) zero = some (c, cs)
  take_push (c ∷ cs) (suc i) = elim (take_push cs i) [
    | none ↦ none
    | some (d, ds) ↦ some (d, c ∷ ds)
  ]

  -- A send on a closed channel panics.
  unfoldable pub send_push : ℕ → Stream C → Stream C
  unfolding take_push
  send_push i s = elim (take_push s.pushing i) [
    | none ↦ s
    | some (c, others) ↦
        if s.chan_closed
        then record s { panicked = true }
        else if ltb (length s.buffer) capacity
        then record s {
          buffer = s.buffer ++ (c ∷ []);
          pushing = others;
          uncounted = suc s.uncounted;
          accepted = s.accepted ++ (c ∷ []);
        }
        else s
  ]

  unfoldable pub count_push : Stream C → Stream C
  count_push s =
      if s.uncounted == 0
      then s
      else ends_push delivered (record s {
        result = record s.result { chunk_count = suc s.result.chunk_count };
        uncounted = s.uncounted - 1;
      })

  unfoldable pub cancel_push : ℕ → Stream C → Stream C
  unfolding take_push
  cancel_push i s = elim (take_push s.pushing i) [
    | none ↦ s
    | some (c, others) ↦ ends_push push_cancelled (record s { pushing = others })
  ]

  unfoldable pub wake_push : ℕ → Stream C → Stream C
  unfolding take_push
  wake_push i s = elim (take_push s.pushing i) [
    | none ↦ s
    | some (c, others) ↦
        if s.done then ends_push push_after_close (record s { pushing = others }) else s
  ]

  unfoldable pub start_close : Option StopReason → Option String → Stream C → Stream C
  start_close r e s = if s.done then s else record s { done = true; closing = awaits_pushes r e }

  -- The merge of close, under both locks.
  abbrev pub merged : Option StopReason → Option String → Stream C → Stream C
  merged r e s = record s {
    closed = true;
    closing = closes_channel;
    result = record s.result {
      stop_reason = if is_known r then reason_or_unknown r else s.result.stop_reason;
      tool_denials = s.denial_count;
    };
    err = e;
  }

  abbrev pub is_quiet : List C → ℕ → Bool
  is_quiet [] n = n == 0
  is_quiet (c ∷ cs) n = false

  unfoldable pub merge_result : Stream C → Stream C
  merge_result s = elim s.closing [
    | not_closing ↦ s
    | awaits_pushes r e ↦ if is_quiet s.pushing s.uncounted then merged r e s else s
    | closes_channel ↦ s
  ]

  -- The channel is closed once `mu` is released.
  unfoldable pub finish_close : Stream C → Stream C
  finish_close s = elim s.closing [
    | not_closing ↦ s
    | awaits_pushes r e ↦ s
    | closes_channel ↦ record s { chan_closed = true; closing = not_closing }
  ]

  unfoldable pub receive_chunk : Stream C → Stream C
  receive_chunk s = elim s.buffer [
    | [] ↦ s
    | c ∷ cs ↦ record s { buffer = cs; received = s.received ++ (c ∷ []) }
  ]

  unfoldable pub record_denial : Stream C → Stream C
  record_denial s = record s { denial_count = suc s.denial_count }

  unfoldable pub set_deny_builtin_tools : Bool → Stream C → Stream C
  set_deny_builtin_tools v s = record s { deny_builtin_tools = v }

  -- What Result returns; none while it waits for `done`.
  unfoldable pub result_of : Stream C → Option (FinalResult × Option String)
  result_of s = if s.done then some (s.result, s.err) else none

  unfoldable pub stream_step : Stream C → StreamEvent C → Stream C
  unfolding begin_push send_push count_push cancel_push wake_push start_close merge_result
      finish_close receive_chunk record_denial set_deny_builtin_tools
  stream_step s (begins_push c) = begin_push c s
  stream_step s (sends i) = send_push i s
  stream_step s (cancels i) = cancel_push i s
  stream_step s (wakes i) = wake_push i s
  stream_step s counts = count_push s
  stream_step s (starts_close r e) = start_close r e s
  stream_step s merges_result = merge_result s
  stream_step s finishes_close = finish_close s
  stream_step s receives = receive_chunk s
  stream_step s denies = record_denial s
  stream_step s (sets_deny v) = set_deny_builtin_tools v s

  unfoldable pub stream_run : Stream C → List (StreamEvent C) → Stream C
  unfolding stream_step
  stream_run s [] = s
  stream_run s (e ∷ es) = stream_run (stream_step s e) es
