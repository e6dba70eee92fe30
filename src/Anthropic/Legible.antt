-- ===== src/Anthropic/Legible.antt =====
-- Whatever a stream of internal/adapter/anthropic/sse.go meets, what was sent can be read.
use otto_gateway.Base.{
  ℕ, ◌≡◌, refl, String, Bool, true, false, Option, none, some, List, [], ◌∷◌, ◌⊎◌, inl, inr, arith,
  Bool-cases, if◌then◌else◌,
}
use otto_gateway.Anthropic.Frames.{
  ping, message_start, error, Client, waiting, between, finished, accept, reads,
}
use otto_gateway.Anthropic.Emitter.{Request, Emitter, Emit, ◌>>◌, ignore, write_event}
use otto_gateway.Anthropic.Stream.{
  StopReason, Signal, chunk, tick, disconnects, idles, ends, apply_chunk, stop_last,
  finalize_stream, loop, new_emitter, run_emitter,
}
use otto_gateway.Anthropic.Grammar.{At, Broken, view, Good, Post, then-Post, write-Post}
use otto_gateway.Anthropic.Protocol.{apply_chunk-Post}
use otto_gateway.Anthropic.Ending.{
  Shut, ignore-Post, write-Broken, stop_last-Post, finalize_stream-Post, ping-Post, start-Post,
}

module _ {J : Type 0} where
  -- The client could read everything.
  record Legible (e : Emitter J) : Type 0 where
    client : Client
    at : At e client

  Good-Legible : (e : Emitter J) → Good e → Legible e
  Good-Legible e g = record { client = view e; at = g.at }

  Broken-Legible : (e : Emitter J) → Broken e → Legible e
  Broken-Legible e b = record { client = b.client; at = b.at }

  Shut-Legible : (e : Emitter J) → Shut e ⊎ Broken e → Legible e
  Shut-Legible e (inl s) = record { client = between s.next; at = s.at }
  Shut-Legible e (inr b) = Broken-Legible e b

  Post-Legible :
      (P : Emitter J → Type 0) (r : Emitter J × Bool)
      → Post P r
      → ((x : Emitter J) → P x → Legible x)
      → Legible r.0
  Post-Legible P (e, true) h f = f e h
  Post-Legible P (e, false) h f = Broken-Legible e h

  then-Legible :
      (P : Emitter J → Type 0) (m k : Emit J) (e : Emitter J)
      → Post P (m e)
      → ((x : Emitter J) → P x → Legible (k x).0)
      → Legible ((m >> k) e).0
  then-Legible P m k e h f = go (m e) h
    where
      go :
          (r : Emitter J × Bool)
          → Post P r
          → Legible (let (x, good) = r in if good then k x else (x, false)).0
      go (x, true) h = f x h
      go (x, false) h = Broken-Legible x h

  -- An error that the client may be told.
  error-Post :
      (s : String) (d : Client) (e : Emitter J)
      → At e d
      → accept d (error s) ≡ some finished
      → Post Legible (ignore (write_event (error s)) e)
  error-Post s d e at allowed =
      ignore-Post Legible Legible (write_event (error s)) e
        (write-Post Legible e (error s) d finished at allowed
          (λ left at'. record { client = finished; at = at' }))
        (λ x l. l) Broken-Legible

  aborted-Post :
      (e : Emitter J)
      → Shut e ⊎ Broken e
      → Post Legible (ignore (write_event (error "stream terminated")) e)
  aborted-Post e (inl s) =
      error-Post "stream terminated" (between s.next) e s.at (unfold accept in refl)
  aborted-Post e (inr b) =
      ignore-Post Legible Legible (write_event (error "stream terminated")) e
        (write-Broken Legible e (error "stream terminated") b) (λ x l. l) Broken-Legible

  finalize_stream-Legible :
      (v : Request J) (result : Option StopReason) (e : Emitter J)
      → Good e
      → Legible (finalize_stream v result e).0
  finalize_stream-Legible v (some stop) e g =
      Post-Legible (λ x. At x finished) (finalize_stream v (some stop) e)
        (finalize_stream-Post v stop e g) (λ x at. record { client = finished; at = at })
  finalize_stream-Legible v none e g =
      unfold finalize_stream in
      then-Legible Legible (stop_last >> ignore (write_event (error "stream terminated")))
        (λ x. (x, false)) e
        (then-Post (λ x. Shut x ⊎ Broken x) Legible stop_last
          (ignore (write_event (error "stream terminated"))) e (stop_last-Post e g) aborted-Post)
        (λ x l. l)

  loop-Legible :
      (v : Request J) (xs : List (Signal J)) (e : Emitter J) → Good e → Legible (loop v xs e).0
  unfolding loop
  loop-Legible v [] e g = Good-Legible e g
  loop-Legible v (chunk c ∷ xs) e g =
      then-Legible Good (apply_chunk v c) (loop v xs) e (apply_chunk-Post v c e g)
        (loop-Legible v xs)
  loop-Legible v (tick ∷ xs) e g =
      then-Legible Good (write_event ping) (loop v xs) e (ping-Post e g) (loop-Legible v xs)
  loop-Legible v (disconnects ∷ xs) e g = Good-Legible e g
  loop-Legible v (idles ∷ xs) e g =
      then-Legible Legible (ignore (write_event (error "upstream stream idle"))) (λ x. (x, false)) e
        (error-Post "upstream stream idle" (view e) e g.at (elim (Bool-cases e.block_open) [
          | inl o ↦ unfold accept in ground arith
          | inr o ↦ unfold accept in ground arith
        ]))
        (λ x l. l)
  loop-Legible v (ends result ∷ xs) e g = finalize_stream-Legible v result e g

  -- Whatever the loop receives, and however many writes the connection takes, the client can read all
  -- that was sent: no event breaks the protocol.
  pub run_emitter-IsLegible :
      (v : Request J) (id : String) (xs : List (Signal J)) (budget : ℕ)
      → (d : Client) × (reads waiting (run_emitter v id xs budget).0.sent ≡ some d)
  unfolding run_emitter
  run_emitter-IsLegible v id xs budget =
      let l : Legible ((write_event (message_start id) >> loop v xs) (new_emitter budget)).0 =
        then-Legible Good (write_event (message_start id)) (loop v xs) (new_emitter budget)
          (start-Post v id budget) (loop-Legible v xs) in
      (l.client, l.at)
