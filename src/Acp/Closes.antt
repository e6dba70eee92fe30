-- ===== src/Acp/Closes.antt =====
-- A close of a stream gets the lock from the pushes, internal/acp/stream.go.
use otto_gateway.Base.{
  ℕ, zero, suc, ◌≡◌, refl, String, true, false, Option, inl, inr, List, [], ◌∷◌, ◌++◌, length,
  arith, replicate,
}
use otto_gateway.Anthropic.Stream.{StopReason}
use otto_gateway.Acp.Stream.{
  Stream, StreamEvent, wakes, counts, merges_result, finishes_close, new_stream, take_push,
  count_push, wake_push, merge_result, finish_close, stream_step, stream_run,
}
use otto_gateway.Acp.Settled.{IsClosing, IsClosed}
use otto_gateway.Acp.Delivery.{closed_run, closed_reached}

module _ {C : Type 0} where
  stream_run-append :
      (s : Stream C) (es fs : List (StreamEvent C))
      → stream_run s (es ++ fs) ≡ stream_run (stream_run s es) fs
  unfolding stream_run
  stream_run-append s [] fs = refl
  stream_run-append s (e ∷ es) fs = stream_run-append (stream_step s e) es fs

  -- A closing stream whose pushes are in their `select`, or have it behind them.
  record Drains (r : Option StopReason) (e : Option String) (n k : ℕ) (s : Stream C) : Type 0 where
    closing : IsClosing r e s
    waiting : length s.pushing ≡ n
    counting : s.uncounted ≡ k

  wake_next :
      (r : Option StopReason) (e : Option String) (n k : ℕ) (s : Stream C)
      → Drains r e (suc n) k s
      → Drains r e n k (wake_push 0 s)
  unfolding wake_push take_push
  wake_next r e n k s d =
      elim s.pushing as (λ p. s.pushing ≡ p → Drains r e n k (wake_push 0 s)) [
        | [] ↦ λ q. absurd (ground (arith, d.waiting))
        | c ∷ cs ↦ λ q. ground (arith, d.waiting, d.counting, d.closing)
      ]
        refl

  wake_all :
      (r : Option StopReason) (e : Option String) (n k : ℕ) (s : Stream C)
      → Drains r e n k s
      → Drains r e 0 k (stream_run s (replicate n (wakes 0)))
  unfolding stream_run stream_step
  wake_all r e zero k s d = d
  wake_all r e (suc n) k s d = wake_all r e n k (wake_push 0 s) (wake_next r e n k s d)

  count_next :
      (r : Option StopReason) (e : Option String) (k : ℕ) (s : Stream C)
      → Drains r e 0 (suc k) s
      → Drains r e 0 k (count_push s)
  unfolding count_push
  count_next r e k s d = ground (arith, d.waiting, d.counting, d.closing)

  count_all :
      (r : Option StopReason) (e : Option String) (k : ℕ) (s : Stream C)
      → Drains r e 0 k s
      → Drains r e 0 0 (stream_run s (replicate k counts))
  unfolding stream_run stream_step
  count_all r e zero s d = d
  count_all r e (suc k) s d = count_all r e k (count_push s) (count_next r e k s d)

  finishes :
      (r : Option StopReason) (e : Option String) (s : Stream C)
      → Drains r e 0 0 s
      → (finish_close (merge_result s)).chan_closed ≡ true
  unfolding merge_result finish_close
  finishes r e s d = ground (arith, d.waiting, d.counting, d.closing)

  settled_finishes :
      (r : Option StopReason) (e : Option String) (s : Stream C)
      → IsClosed r e s
      → (finish_close (merge_result s)).chan_closed ≡ true
  unfolding merge_result finish_close
  settled_finishes r e s i = ground (arith, i.shut)

  -- The steps that the pushes and the close take by themselves: each waiting push wakes, each push
  -- that has sent counts, the close gets the lock and merges its result, and closes the channel.
  abbrev pub own_steps : Stream C → List (StreamEvent C)
  own_steps s =
      replicate (length s.pushing) (wakes 0)
      ++ (replicate s.uncounted counts ++ (merges_result ∷ finishes_close ∷ []))

  -- From any state that a close of a stream has begun in, the pushes and the close alone reach a
  -- closed channel: no consumer has to make room in the buffer and no context has to end.
  pub close_ends :
      (sid : String) (es fs : List (StreamEvent C)) (r : Option StopReason) (e : Option String)
      → (stream_run (new_stream sid) es).done ≡ false
      → (closed_run sid es r e fs).chan_closed ≡ false
      → (stream_run (closed_run sid es r e fs) (own_steps (closed_run sid es r e fs))).chan_closed
        ≡ true
  unfolding stream_run stream_step
  close_ends sid es fs r e h still =
      let s = closed_run sid es r e fs in
      let woken = replicate (length s.pushing) (wakes 0) in
      let counted = replicate s.uncounted counts in
      elim (closed_reached sid es r e fs h).0 [
        | inr late ↦ rw (late.pushing, late.uncounted) (settled_finishes r e s late)
        | inl early ↦
            let d =
              wake_all r e (length s.pushing) s.uncounted s
                (record { closing = early; waiting = refl; counting = refl }) in
            let c = count_all r e s.uncounted (stream_run s woken) d in
            rw (stream_run-append s woken (counted ++ (merges_result ∷ finishes_close ∷ []))) (
              rw
                (stream_run-append (stream_run s woken) counted
                  (merges_result ∷ finishes_close ∷ []))
                (finishes r e (stream_run (stream_run s woken) counted) c))
      ]
