-- ===== src/Anthropic/Ending.antt =====
-- How a stream of internal/adapter/anthropic/sse.go ends.
use otto_gateway.Base.{
  ℕ, zero, suc, ◌≡◌, refl, String, Bool, true, false, some, List, [], ◌∷◌, ◌++◌, ◌⊎◌, inl, inr,
  arith, Bool-cases,
}
use otto_gateway.Anthropic.Frames.{
  block_stop, ping, message_start, message_stop, waiting, between, ending, finished, accept, reads,
  Frame,
}
use otto_gateway.Anthropic.Emitter.{
  Request, Emitter, Emit, ◌>>◌, ignore, write_event, flush_pending, write_stop,
}
use otto_gateway.Anthropic.Stream.{
  StopReason, Signal, chunk, tick, disconnects, idles, ends, finalize_buffered_text, apply_chunk,
  stop_last, last_delta, finalize_stream, loop, new_emitter, run_emitter,
}
use otto_gateway.Anthropic.Grammar.{
  At, Broken, view, Good, Post, then-Post, when-Post, write-Post, Settled, flush_pending-Post,
  write_stop-Post,
}
use otto_gateway.Anthropic.Protocol.{finalize_buffered_text-Post, apply_chunk-Post}

module _ {J : Type 0} where
  -- Between two blocks.
  pub record Shut (e : Emitter J) : Type 0 where
    pub next : ℕ
    pub at : At e (between next)

  -- A step whose error is ignored.
  pub ignore-Post :
      (P Q : Emitter J → Type 0) (m : Emit J) (e : Emitter J)
      → Post P (m e)
      → ((x : Emitter J) → P x → Q x)
      → ((x : Emitter J) → Broken x → Q x)
      → Post Q (ignore m e)
  ignore-Post P Q m e h f g = go (m e) h
    where
      go : (r : Emitter J × Bool) → Post P r → Post Q (let (x, good) = r in (x, true))
      go (x, true) p = f x p
      go (x, false) p = g x p

  -- A connection that failed takes nothing more.
  pub write-Broken :
      (P : Emitter J → Type 0) (e : Emitter J) (f : Frame) → Broken e → Post P (write_event f e)
  unfolding write_event
  write-Broken P e f b = go e.budget b.exhausted
    where
      go :
          (n : ℕ)
          → n ≡ 0
          → Post P (elim n as (λ _. Emitter J × Bool) [
            | zero ↦ (e, false)
            | suc left ↦ (record e { budget = left; sent = e.sent ++ (f ∷ []) }, true)
          ])
      go zero h = b
      go (suc n) h = absurd (ground arith)

  pub stop_last-Post : (e : Emitter J) → Good e → Post (λ x. Shut x ⊎ Broken x) (stop_last e)
  unfolding stop_last
  stop_last-Post e g =
      let n = e.block_index in
      let k = e.current_kind in
      let P = λ (x : Emitter J). Settled n k x ⊎ Broken x in
      let Q = λ (x : Emitter J). Shut x ⊎ Broken x in
      when-Post Q e.block_open (ignore flush_pending >> ignore write_stop) e
        (λ o.
          then-Post P Q (ignore flush_pending) (ignore write_stop) e
            (ignore-Post (Settled n k) P flush_pending e (flush_pending-Post e g o) (λ x s. inl s)
              (λ x b. inr b))
            (λ x either. elim either [
              | inl s ↦
                  ignore-Post Shut Q write_stop x
                    (write_stop-Post Shut n k x s (λ left at. record { next = suc n; at = at }))
                    (λ y t. inl t) (λ y b. inr b)
              | inr b ↦
                  ignore-Post Shut Q write_stop x
                    (unfold write_stop in write-Broken Shut x (block_stop x.block_index) b)
                    (λ y t. inl t) (λ y c. inr c)
            ]))
        (λ o. inl (record { next = n; at = ground (arith, g.at) }))

  Over : Emitter J → Type 0
  Over x = Shut x ⊎ Broken x

  delta-Post :
      (stop : StopReason) (e : Emitter J)
      → Shut e ⊎ Broken e
      → Post (λ x. At x ending) (write_event (last_delta stop e) e)
  delta-Post stop e (inl s) =
      write-Post (λ x. At x ending) e (last_delta stop e) (between s.next) ending s.at
        (unfold accept in refl) (λ left at. at)
  delta-Post stop e (inr b) = write-Broken (λ x. At x ending) e (last_delta stop e) b

  -- A turn that succeeded ends in a finished message, or the connection has failed.
  pub finalize_stream-Post :
      (v : Request J) (stop : StopReason) (e : Emitter J)
      → Good e
      → Post (λ x. At x finished) (finalize_stream v (some stop) e)
  unfolding finalize_stream
  finalize_stream-Post v stop e g =
      let Ended = λ (x : Emitter J). At x ending in
      let Finished = λ (x : Emitter J). At x finished in
      let Stopped = λ (x : Emitter J). Shut x ⊎ Broken x in
      let tell = λ (x : Emitter J). write_event (last_delta stop x) x in
      then-Post Ended Finished (finalize_buffered_text v >> stop_last >> tell)
        (write_event message_stop) e
        (then-Post Stopped Ended (finalize_buffered_text v >> stop_last) tell e
          (then-Post Good Stopped (finalize_buffered_text v) stop_last e
            (finalize_buffered_text-Post v e g) stop_last-Post)
          (delta-Post stop))
        (λ x at.
          write-Post Finished x message_stop ending finished at (unfold accept in refl)
            (λ left at'. at'))

  pub ping-Post : (e : Emitter J) → Good e → Post Good (write_event ping e)
  ping-Post e g =
      write-Post Good e ping (view e) (view e) g.at
        (elim (Bool-cases e.block_open) [
          | inl o ↦ unfold accept in ground arith
          | inr o ↦ unfold accept in ground arith
        ])
        (λ left at. record { at = at; tool = g.tool; opened = g.opened })

  -- Chunks and ticks only.
  abbrev pub calm : List (Signal J) → Bool
  calm [] = true
  calm (chunk c ∷ xs) = calm xs
  calm (tick ∷ xs) = calm xs
  calm (_ ∷ xs) = false

  loop-Post :
      (v : Request J) (xs : List (Signal J)) (stop : StopReason) (e : Emitter J)
      → calm xs ≡ true
      → Good e
      → Post (λ x. At x finished) (loop v (xs ++ (ends (some stop) ∷ [])) e)
  unfolding loop
  loop-Post v [] stop e h g = finalize_stream-Post v stop e g
  loop-Post v (chunk c ∷ xs) stop e h g =
      then-Post Good (λ x. At x finished) (apply_chunk v c) (loop v (xs ++ (ends (some stop) ∷ [])))
        e (apply_chunk-Post v c e g) (λ x g'. loop-Post v xs stop x h g')
  loop-Post v (tick ∷ xs) stop e h g =
      then-Post Good (λ x. At x finished) (write_event ping)
        (loop v (xs ++ (ends (some stop) ∷ []))) e (ping-Post e g)
        (λ x g'. loop-Post v xs stop x h g')
  loop-Post v (disconnects ∷ xs) stop e h g = absurd (ground arith)
  loop-Post v (idles ∷ xs) stop e h g = absurd (ground arith)
  loop-Post v (ends r ∷ xs) stop e h g = absurd (ground arith)

  pub start-Post :
      (v : Request J) (id : String) (budget : ℕ)
      → Post Good (write_event (message_start id) (new_emitter {J = J} budget))
  start-Post v id budget =
      write-Post Good (new_emitter budget) (message_start id) waiting (between 0)
        (unfold reads in refl) (unfold accept in refl)
        (λ left at. record {
          at = at;
          tool = λ h. absurd (ground arith);
          opened = λ h. absurd (ground arith);
        })

  -- An outcome, told apart.
  outcome :
      (r : Emitter J × Bool)
      → Post (λ x. At x finished) r
      → (r.1 ≡ true) × (reads waiting r.0.sent ≡ some finished) ⊎ (r.1 ≡ false) × (r.0.budget ≡ 0)
  outcome (e, true) h = inl (refl, h)
  outcome (e, false) h = inr (refl, h.exhausted)

  -- Where the loop receives chunks and ticks only and then the end of a turn that succeeded, either
  -- the call succeeds and the client has read a finished message, or the call fails and the
  -- connection takes no more writes.
  pub run_emitter-ends :
      (v : Request J) (id : String) (xs : List (Signal J)) (stop : StopReason) (budget : ℕ)
      → calm xs ≡ true
      → (let r = run_emitter v id (xs ++ (ends (some stop) ∷ [])) budget in
          (r.1 ≡ true) × (reads waiting r.0.sent ≡ some finished)
          ⊎ (r.1 ≡ false) × (r.0.budget ≡ 0))
  unfolding run_emitter
  run_emitter-ends v id xs stop budget h =
      let Finished = λ (x : Emitter J). At x finished in
      let rest = loop v (xs ++ (ends (some stop) ∷ [])) in
      outcome ((write_event (message_start id) >> rest) (new_emitter budget)) (
        then-Post Good Finished (write_event (message_start id)) rest (new_emitter budget)
          (start-Post v id budget) (λ x g. loop-Post v xs stop x h g))
