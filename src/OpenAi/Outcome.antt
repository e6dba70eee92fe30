-- ===== src/OpenAi/Outcome.antt =====
-- What a client has read of a stream of internal/adapter/openai/sse.go, by how the stream ends.
use otto_gateway.Base.{
  zero, suc, ◌∙◌, false, ℕ, ◌≡◌, refl, String, Bool, true, none, some, List, [], ◌∷◌, ◌++◌, inl,
  inr, ◌⊎◌, arith, if◌then◌else◌, Step, Post,
}
use otto_gateway.Anthropic.Stream.{Chunk, StopReason}
use otto_gateway.OpenAi.Frames.{
  done_frame, error_frame, Client, fresh, speaking, failed, aborted, accept, reads,
}
use otto_gateway.OpenAi.Emitter.{
  ChatRequest, SseEmitter, SseSignal, arrives, closes, times_out, leaves, abort, write_data,
  apply_sse_chunk, finalize_sse, sse_loop, new_sse_emitter,
}
use otto_gateway.OpenAi.Legal.{At, reads-snoc, Broken, Good}
use otto_gateway.OpenAi.Complete.{Complete, apply_sse_chunk-Post, finalize_sse-Post}

-- How the loop ends: with a stop reason, by the worker's death, by the idle timer, or by the client.
pub data Ending : Type 0 where
  finishes : StopReason → Ending
  dies stalls departs : Ending

module _ {J : Type 0} where
  abbrev pub last_signal : Ending → SseSignal J
  last_signal (finishes reason) = closes (some reason)
  last_signal dies = closes none
  last_signal stalls = times_out
  last_signal departs = leaves

  -- The chunks that come before the end.
  abbrev pub streamed : List (Chunk J) → Ending → List (SseSignal J)
  streamed [] end = last_signal end ∷ []
  streamed (c ∷ cs) end = arrives c ∷ streamed cs end

  -- An error: the client has read an error and the end marker, or the connection failed.
  abbrev pub Aborted : SseEmitter J × Bool → Type 0
  Aborted r = (r.1 ≡ false) × (At r.0 aborted ⊎ Broken r.0)

  abbrev pub EndsAs : ChatRequest J → Ending → SseEmitter J × Bool → Type 0
  EndsAs v (finishes reason) r = Post Broken (Complete v reason) r
  EndsAs v dies r = Aborted r
  EndsAs v stalls r = Aborted r
  EndsAs v departs r = (r.1 ≡ false) × (d : Client) × At r.0 d

  -- The two writes, on a connection that takes none, one or more.
  aborting :
      (s : String) (e : SseEmitter J) (c : Client)
      → At e c
      → reads fresh (e.sent ++ (error_frame s ∷ [])) ≡ some failed
      → reads fresh ((e.sent ++ (error_frame s ∷ [])) ++ (done_frame ∷ [])) ≡ some aborted
      → Aborted (abort s e)
  unfolding abort write_data
  aborting s e c at one two =
      elim e.budget as (λ b. e.budget ≡ b → Aborted (abort s e)) [
        | zero ↦ λ h.
            (ground arith, inr (record { client = c; at = ground arith; exhausted = ground arith }))
        | suc zero ↦ λ h. (
          ground arith,
          inr (record { client = failed; at = ground arith; exhausted = ground arith }),
        )
        | suc (suc b) ↦ λ h. (ground arith, inl (ground arith))
      ]
        refl

  abort-Aborted : (s : String) (e : SseEmitter J) → Good e → Aborted (abort s e)
  unfolding abort write_data
  abort-Aborted s e g =
      let c = if e.role_sent then speaking else fresh in
      let told_error : accept c (error_frame s) ≡ some failed = unfold accept in ground arith in
      let one = reads-snoc fresh c e.sent (error_frame s) g.at ∙ told_error in
      let ended : accept failed done_frame ≡ some aborted = unfold accept in refl in
      let two = reads-snoc fresh failed (e.sent ++ (error_frame s ∷ [])) done_frame one ∙ ended in
      aborting s e c g.at one two

  Broken-EndsAs :
      (v : ChatRequest J) (end : Ending) (e : SseEmitter J) → Broken e → EndsAs v end (e, false)
  Broken-EndsAs v (finishes reason) e b = b
  Broken-EndsAs v dies e b = (refl, inr b)
  Broken-EndsAs v stalls e b = (refl, inr b)
  Broken-EndsAs v departs e b = (refl, b.client, b.at)

  then-EndsAs :
      (v : ChatRequest J) (end : Ending) (k : Step (SseEmitter J)) (r : SseEmitter J × Bool)
      → Post Broken Good r
      → ((e : SseEmitter J) → Good e → EndsAs v end (k e))
      → EndsAs v end (let (e', good) = r in if good then k e' else (e', false))
  then-EndsAs v end k (e, true) h next = next e h
  then-EndsAs v end k (e, false) h next = Broken-EndsAs v end e h

  last-EndsAs :
      (v : ChatRequest J) (end : Ending) (e : SseEmitter J)
      → Good e
      → EndsAs v end (sse_loop v (last_signal end ∷ []) e)
  unfolding sse_loop
  last-EndsAs v (finishes reason) e g = finalize_sse-Post v reason e g
  last-EndsAs v dies e g = unfold finalize_sse in abort-Aborted "worker terminated mid-stream" e g
  last-EndsAs v stalls e g = abort-Aborted "stream idle timeout" e g
  last-EndsAs v departs e g = (refl, (if e.role_sent then speaking else fresh), g.at)

  sse_loop-Post :
      (v : ChatRequest J) (cs : List (Chunk J)) (end : Ending) (e : SseEmitter J)
      → Good e
      → EndsAs v end (sse_loop v (streamed cs end) e)
  unfolding sse_loop
  sse_loop-Post v [] end e g = last-EndsAs v end e g
  sse_loop-Post v (c ∷ cs) end e g =
      then-EndsAs v end (sse_loop v (streamed cs end)) (apply_sse_chunk v c e)
        (apply_sse_chunk-Post v c e g) (sse_loop-Post v cs end)

  -- Whatever the chunks and the tools. Where the stream ends with a stop reason, the run succeeds and
  -- what was sent is a whole answer by the protocol: the calls that the client reads are those of the
  -- response that the hooks are given, with their ids, names and encoded arguments, in their order, and
  -- the finish reason is "tool_calls" if there are any, else that of the stop reason; or the connection failed after frames that a client can read.
  -- Where the worker dies or stalls, the run fails, and the client has read an error and the end
  -- marker, or the connection failed so. Where the client leaves, the run fails, and what was sent can
  -- be read.
  pub sse_loop-EndsAs :
      (v : ChatRequest J) (cs : List (Chunk J)) (end : Ending) (budget : ℕ)
      → EndsAs v end (sse_loop v (streamed cs end) (new_sse_emitter budget))
  unfolding reads
  sse_loop-EndsAs v cs end budget =
      sse_loop-Post v cs end (new_sse_emitter budget)
        (record { at = refl; native = inl refl; calls = refl })
