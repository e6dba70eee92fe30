-- ===== src/Acp/Answered.antt =====
-- Each request of a worker's client gets one answer, its own: internal/acp/dispatcher.go.
use otto_gateway.Base.{
  ℕ, suc, ◌+◌, ◌<◌, ◌^◌, ◌≡◌, refl, String, true, not, ◌⊎◌, inl, inr, Option, some, List, [], ◌∷◌,
  arith, length, sum_of, ltb, if◌then◌else◌, Option-cases, Each, if-Holds, str_eq,
}
use otto_gateway.Acp.Dispatcher.{
  RpcFrame, sentinel, Dispatcher, has_id, find_pending, delete_pending, fill, register,
  make_request, cancel_request, take_pending, route, take_frame, send_frame, take_response,
  drain_all,
}
use otto_gateway.Acp.Pending.{
  is_to, is_for, is_it, Numbered, delete_pending-Numbered, delete_pending-count,
  find_pending-Numbered, take_frame-count, take_frame-Each, drain_each-length, drain_each-Each,
}

-- In how many places a channel is: waiting, about to be sent to, filled, received from, removed.
abbrev pub weight : ℕ → Dispatcher → ℕ
weight r d =
    sum_of (is_to r) d.pending
    + sum_of (is_for r) d.in_flight
    + length (d.boxes r)
    + sum_of (is_for r) d.taken
    + sum_of (is_it r) d.dropped

module _ (parse_id : String → Option ℕ) where
  -- A response that names the request of the channel, or the frame of a drain.
  abbrev pub Own : ℕ → RpcFrame → Type 0
  Own c f =
      ((message : String) × (f ≡ sentinel message))
      ⊎ ((str_eq f.method "" ≡ true) × (parse_id f.id ≡ some (suc c)))

  abbrev pub OwnAt : ℕ × RpcFrame → Type 0
  OwnAt (c, f) = Own c f

  pub record Accounted (d : Dispatcher) : Type 0 where
    pub once : (r : ℕ) → weight r d ≡ (if ltb r d.next_channel then 1 else 0)
    pub numbered : Each Numbered d.pending
    pub drawn : d.next_id ≡ d.next_channel
    pub flights : Each OwnAt d.in_flight
    pub boxes : (c : ℕ) → Each (Own c) (d.boxes c)
    pub taken : Each OwnAt d.taken

  pub make_request-Accounted :
      (d : Dispatcher)
      → (make_request d).next_channel < 2 ^ 64
      → Accounted d
      → Accounted (make_request d)
  unfolding make_request register
  make_request-Accounted d small a = record {
    once = λ r. ground (
      arith,
      a.once r,
      a.drawn,
      delete_pending-count (suc d.next_channel) r d.pending a.numbered,
    );
    numbered =
        ground (arith, a.drawn, delete_pending-Numbered (suc d.next_channel) d.pending a.numbered);
    drawn = ground (arith, a.drawn);
    flights = a.flights;
    boxes = a.boxes;
    taken = a.taken;
  }

  -- A pending channel that is found is in one place only.
  found_once :
      (d : Dispatcher) (id c : ℕ)
      → Accounted d
      → find_pending id d.pending ≡ some c
      → (r : ℕ)
      → sum_of (is_to r) (delete_pending id d.pending) + is_it r c ≡ sum_of (is_to r) d.pending
  found_once d id c a e r = ground (
    arith,
    a.once c,
    find_pending-Numbered id c d.pending a.numbered e,
    delete_pending-count id r d.pending a.numbered,
  )

  pub cancel_request-Accounted :
      (id : ℕ) (d : Dispatcher) → Accounted d → Accounted (cancel_request id d)
  unfolding cancel_request
  cancel_request-Accounted id d a = elim (Option-cases (find_pending id d.pending)) [
    | inl e ↦ rw (e, cancel_request) a
    | inr (c, e) ↦
        rw (e, cancel_request)
          (record {
            once = λ r. omega (arith, a.once r, found_once d id c a e r);
            numbered = delete_pending-Numbered id d.pending a.numbered;
            drawn = a.drawn;
            flights = a.flights;
            boxes = a.boxes;
            taken = a.taken;
          })
  ]

  take_pending-Accounted :
      (id : ℕ) (f : RpcFrame) (d : Dispatcher)
      → str_eq f.method "" ≡ true
      → parse_id f.id ≡ some id
      → Accounted d
      → Accounted (take_pending id f d)
  unfolding take_pending
  take_pending-Accounted id f d response named a = elim (Option-cases (find_pending id d.pending)) [
    | inl e ↦ rw (e, take_pending) a
    | inr (c, e) ↦
        rw (e, take_pending)
          (record {
            once = λ r. omega (arith, a.once r, found_once d id c a e r);
            numbered = delete_pending-Numbered id d.pending a.numbered;
            drawn = a.drawn;
            flights = (
              inr (
                response,
                ground (arith, named, find_pending-Numbered id c d.pending a.numbered e),
              ),
              a.flights,
            );
            boxes = a.boxes;
            taken = a.taken;
          })
  ]

  notified-Accounted :
      (fs : List RpcFrame) (d : Dispatcher) → Accounted d → Accounted (record d { notified = fs })
  notified-Accounted fs d a = record {
    once = a.once;
    numbered = a.numbered;
    drawn = a.drawn;
    flights = a.flights;
    boxes = a.boxes;
    taken = a.taken;
  }

  pub route-Accounted :
      (f : RpcFrame) (d : Dispatcher) → Accounted d → Accounted (route parse_id f d)
  unfolding route
  route-Accounted f d a =
      if-Holds Accounted (not (str_eq f.method "")) _ _ (λ asks. notified-Accounted _ d a)
        (λ answers.
          if-Holds Accounted (not (has_id f)) _ _ (λ e. a)
            (λ e. elim (Option-cases (parse_id f.id)) [
              | inl q ↦ rw (q, route) a
              | inr (id, q) ↦ rw (q, route) (take_pending-Accounted id f d (ground arith) q a)
            ]))

  pub send_frame-Accounted : (i : ℕ) (d : Dispatcher) → Accounted d → Accounted (send_frame i d)
  unfolding send_frame
  send_frame-Accounted i d a = elim (Option-cases (take_frame d.in_flight i)) [
    | inl e ↦ rw (e, send_frame) a
    | inr (((c, f), others), e) ↦
        let (own, rest) = take_frame-Each OwnAt i (c, f) d.in_flight others a.flights e in
        rw (e, send_frame)
          (elim (d.boxes c)
              as (λ b.
                d.boxes c ≡ b
                → Accounted (elim b [
                  | [] ↦ record d { boxes = fill c (f ∷ []) d.boxes; in_flight = others }
                  | g ∷ gs ↦ d
                ])) [
                  | [] ↦ λ empty. record {
                    once = λ r.
                        ground (arith, a.once r, take_frame-count r i (c, f) d.in_flight others e);
                    numbered = a.numbered;
                    drawn = a.drawn;
                    flights = rest;
                    boxes = λ r. ground (arith, a.boxes r, own);
                    taken = a.taken;
                  }
                  | g ∷ gs ↦ λ full. a
                ]
            refl)
  ]

  pub take_response-Accounted :
      (c : ℕ) (d : Dispatcher) → Accounted d → Accounted (take_response c d)
  unfolding take_response
  take_response-Accounted c d a =
      elim (d.boxes c)
          as (λ b.
            d.boxes c ≡ b
            → Accounted (elim b [
              | [] ↦ d
              | f ∷ fs ↦ record d { boxes = fill c fs d.boxes; taken = (c, f) ∷ d.taken }
            ])) [
              | [] ↦ λ empty. a
              | f ∷ fs ↦ λ full. record {
                once = λ r. ground (arith, a.once r);
                numbered = a.numbered;
                drawn = a.drawn;
                flights = a.flights;
                boxes = λ r. ground (arith, a.boxes r, a.boxes c);
                taken = ground (arith, a.boxes c, a.taken);
              }
            ]
        refl

  pub drain_all-Accounted :
      (message : String) (d : Dispatcher) → Accounted d → Accounted (drain_all message d)
  unfolding drain_all
  drain_all-Accounted message d a = record {
    once = λ r. ground (
      arith,
      a.once r,
      drain_each-length message d.pending d.boxes (λ q. ground (arith, a.once q)) r,
    );
    numbered = tt;
    drawn = a.drawn;
    flights = a.flights;
    boxes = drain_each-Each Own message d.pending d.boxes (λ r. inl (message, refl)) a.boxes;
    taken = a.taken;
  }
