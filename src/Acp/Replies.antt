-- ===== src/Acp/Replies.antt =====
-- The answers to the requests of a worker's client, whatever the order of the steps:
-- internal/acp/dispatcher.go.
use otto_gateway.Base.{
  ℕ, ◌+◌, ◌≤◌, ◌<◌, ◌^◌, ◌≡◌, refl, String, Option, some, List, [], ◌∷◌, arith, length, sum_of,
  Option-cases, Each, inl, inr,
}
use otto_gateway.Acp.Dispatcher.{
  RpcFrame, Dispatcher, new_dispatcher, register, make_request, cancel_request, take_pending, route,
  take_frame, send_frame, take_response, drain_all, CallEvent, requests, cancels, sends, takes,
  routes, drains, call_step, call_run,
}
use otto_gateway.Acp.Pending.{is_for, is_it, take_frame-count, take_frame-Each}
use otto_gateway.Acp.Answered.{
  OwnAt, Own, Accounted, make_request-Accounted, cancel_request-Accounted, route-Accounted,
  send_frame-Accounted, take_response-Accounted, drain_all-Accounted,
}

module _ (parse_id : String → Option ℕ) where
  call_step-Accounted :
      (d : Dispatcher) (e : CallEvent)
      → (call_step parse_id d e).next_channel < 2 ^ 64
      → Accounted parse_id d
      → Accounted parse_id (call_step parse_id d e)
  unfolding call_step
  call_step-Accounted d requests small a = make_request-Accounted parse_id d small a
  call_step-Accounted d (cancels id) small a = cancel_request-Accounted parse_id id d a
  call_step-Accounted d (routes f) small a = route-Accounted parse_id f d a
  call_step-Accounted d (sends i) small a = send_frame-Accounted parse_id i d a
  call_step-Accounted d (takes c) small a = take_response-Accounted parse_id c d a
  call_step-Accounted d (drains message) small a = drain_all-Accounted parse_id message d a

  take_pending-grows :
      (id : ℕ) (f : RpcFrame) (d : Dispatcher) → d.next_channel ≤ (take_pending id f d).next_channel
  unfolding take_pending
  take_pending-grows id f d = ground arith

  call_step-grows :
      (d : Dispatcher) (e : CallEvent) → d.next_channel ≤ (call_step parse_id d e).next_channel
  unfolding call_step
  call_step-grows d requests = unfold make_request register in omega arith
  call_step-grows d (cancels id) = unfold cancel_request in ground arith
  call_step-grows d (routes f) =
      unfold route in
      elim (Option-cases (parse_id f.id)) [
        | inl e ↦ rw (e, route) (ground arith)
        | inr (id, e) ↦ rw (e, route) (ground (arith, take_pending-grows id f d))
      ]
  call_step-grows d (sends i) = unfold send_frame in ground arith
  call_step-grows d (takes c) = unfold take_response in ground arith
  call_step-grows d (drains message) = unfold drain_all in omega arith

  call_run-grows :
      (d : Dispatcher) (es : List CallEvent)
      → d.next_channel ≤ (call_run parse_id d es).next_channel
  unfolding call_run
  call_run-grows d [] = omega arith
  call_run-grows d (e ∷ es) =
      omega (arith, call_step-grows d e, call_run-grows (call_step parse_id d e) es)

  call_run-Accounted :
      (d : Dispatcher) (es : List CallEvent)
      → (call_run parse_id d es).next_channel < 2 ^ 64
      → Accounted parse_id d
      → Accounted parse_id (call_run parse_id d es)
  unfolding call_run
  call_run-Accounted d [] small a = a
  call_run-Accounted d (e ∷ es) small a =
      let d' = call_step parse_id d e in
      call_run-Accounted d' es small
        (call_step-Accounted d e (omega (arith, call_run-grows d' es, small)) a)

  new-Accounted : Accounted parse_id new_dispatcher
  new-Accounted = record {
    once = λ r. ground arith;
    numbered = tt;
    drawn = refl;
    flights = tt;
    boxes = λ c. tt;
    taken = tt;
  }

  reached :
      (es : List CallEvent)
      → (call_run parse_id new_dispatcher es).next_channel < 2 ^ 64
      → Accounted parse_id (call_run parse_id new_dispatcher es)
  reached es small = call_run-Accounted new_dispatcher es small new-Accounted

  -- While fewer than 2 ^ 64 requests have been made: when route is about to send a frame, the
  -- channel is empty and nothing was received from it, so the send does not wait, and the frame is
  -- a response that names the request of that channel, or the frame of a drain.
  pub send_finds_room :
      (es : List CallEvent) (i c : ℕ) (f : RpcFrame) (others : List (ℕ × RpcFrame))
      → (call_run parse_id new_dispatcher es).next_channel < 2 ^ 64
      → take_frame (call_run parse_id new_dispatcher es).in_flight i ≡ some ((c, f), others)
      → (length ((call_run parse_id new_dispatcher es).boxes c) ≡ 0)
        × (sum_of (is_for c) (call_run parse_id new_dispatcher es).taken ≡ 0)
        × Own parse_id c f
  send_finds_room es i c f others small e =
      let d = call_run parse_id new_dispatcher es in
      let a = reached es small in
      let counted = take_frame-count c i (c, f) d.in_flight others e in
      (
        ground (arith, a.once c, counted),
        ground (arith, a.once c, counted),
        (take_frame-Each (OwnAt parse_id) i (c, f) d.in_flight others a.flights e).0,
      )

  -- While fewer than 2 ^ 64 requests have been made: after drainAll no request is pending, and each
  -- request that was ever made was cancelled while it was pending, or has one frame, which is
  -- received, in its channel or about to be sent there. Every frame received is a response
  -- that names the receiver's request, or the frame of a drain.
  pub drained_answers :
      (es : List CallEvent) (message : String) (r : ℕ)
      → (call_run parse_id new_dispatcher es).next_channel < 2 ^ 64
      → r < (call_run parse_id new_dispatcher es).next_channel
      → ((drain_all message (call_run parse_id new_dispatcher es)).pending ≡ [])
        × (sum_of (is_for r) (drain_all message (call_run parse_id new_dispatcher es)).in_flight
              + length ((drain_all message (call_run parse_id new_dispatcher es)).boxes r)
              + sum_of (is_for r) (drain_all message (call_run parse_id new_dispatcher es)).taken
              + sum_of (is_it r) (drain_all message (call_run parse_id new_dispatcher es)).dropped
            ≡ 1)
        × Each (OwnAt parse_id) (drain_all message (call_run parse_id new_dispatcher es)).taken
  unfolding drain_all
  drained_answers es message r small made =
      let d = call_run parse_id new_dispatcher es in
      let a = drain_all-Accounted parse_id message d (reached es small) in
      (refl, ground (arith, a.once r), a.taken)
