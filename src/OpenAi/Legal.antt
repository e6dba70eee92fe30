-- ===== src/OpenAi/Legal.antt =====
-- The writes of internal/adapter/openai/sse.go, read by the client of the protocol.
use otto_gateway.Base.{
  ℕ, zero, suc, ◌≡◌, refl, ◌∙◌, String, true, false, some, List, [], ◌∷◌, ◌++◌, ◌⊎◌, inl, inr,
  arith, Option-cases, if◌then◌else◌, if-Holds, modify, Post, then-Post, is_blank,
}
use otto_gateway.OpenAi.Frames.{
  Frame, role_delta, content_delta, Client, fresh, speaking, accept, reads,
}
use otto_gateway.OpenAi.Emitter.{
  SseEmitter, has_any, write_data, with_role, ensure_role_sent, unbuffered, flush_text_buffer,
}

pub reads-snoc :
    (c d : Client) (fs : List Frame) (f : Frame)
    → reads c fs ≡ some d
    → reads c (fs ++ (f ∷ [])) ≡ accept d f
unfolding reads
reads-snoc c d [] f h = ground arith
reads-snoc c d (g ∷ fs) f h = elim (Option-cases (accept c g)) [
  | inl n ↦ absurd (ground arith)
  | inr (c', n) ↦ ground (arith, reads-snoc c' d fs f)
]

module _ {J : Type 0} where
  -- The client has read everything that was sent.
  abbrev pub At : SseEmitter J → Client → Type 0
  At e d = reads fresh e.sent ≡ some d

  -- The connection has failed, after frames that a client can read.
  pub record Broken (e : SseEmitter J) : Type 0 where
    pub client : Client
    pub at : At e client
    pub exhausted : e.budget ≡ 0

  -- The state after a write that the connection took.
  abbrev pub wrote : Frame → ℕ → SseEmitter J → SseEmitter J
  wrote f left e = record e { budget = left; sent = e.sent ++ (f ∷ []) }

  -- A frame that the protocol allows is taken, or the connection has failed.
  pub write_data-Post :
      (P : SseEmitter J → Type 0) (e : SseEmitter J) (f : Frame) (d d' : Client)
      → At e d
      → accept d f ≡ some d'
      → ((left : ℕ) → At (wrote f left e) d' → P (wrote f left e))
      → Post Broken P (write_data f e)
  unfolding write_data
  write_data-Post P e f d d' at allowed next = go e.budget refl
    where
      go :
          (b : ℕ)
          → e.budget ≡ b
          → Post Broken P (elim b [ zero ↦ (e, false) | suc left ↦ (wrote f left e, true) ])
      go zero broke = record { client = d; at = at; exhausted = broke }
      go (suc left) rich = next left (reads-snoc fresh d e.sent f at ∙ allowed)

  -- Before the end: the role is out or not, and a native call that was seen is kept.
  pub record Good (e : SseEmitter J) : Type 0 where
    pub at : At e (if e.role_sent then speaking else fresh)
    pub native : (e.saw_native_call ≡ false) ⊎ (has_any e.native_calls ≡ true)
    pub calls : e.synthetic_calls ≡ []

  -- And the role is out.
  pub record Speaks (e : SseEmitter J) : Type 0 where
    pub at : At e speaking
    pub role : e.role_sent ≡ true
    pub native : (e.saw_native_call ≡ false) ⊎ (has_any e.native_calls ≡ true)
    pub calls : e.synthetic_calls ≡ []

  pub Speaks-Good : (e : SseEmitter J) → Speaks e → Good e
  Speaks-Good e s = record { at = ground (arith, s.at, s.role); native = s.native; calls = s.calls }

  pub ensure_role_sent-Post : (e : SseEmitter J) → Good e → Post Broken Speaks (ensure_role_sent e)
  unfolding ensure_role_sent
  ensure_role_sent-Post e g =
      if-Holds (Post Broken Speaks) e.role_sent _ _
        (λ out. record {
          at = ground (arith, g.at);
          role = out;
          native = g.native;
          calls = g.calls;
        })
        (λ silent.
          then-Post Broken (λ e'. Speaks (with_role e')) Speaks (write_data role_delta)
            (modify with_role) e
            (write_data-Post (λ e'. Speaks (with_role e')) e role_delta fresh speaking
              (ground (arith, g.at)) (unfold accept in refl)
              (λ left at. record { at = at; role = refl; native = g.native; calls = g.calls }))
            (λ e' s. s))

  pub unbuffered-Speaks : (e : SseEmitter J) → Speaks e → Speaks (unbuffered e)
  unbuffered-Speaks e s = record { at = s.at; role = s.role; native = s.native; calls = s.calls }

  pub content-Post :
      (s : String) (e : SseEmitter J)
      → Speaks e
      → Post Broken Speaks (write_data (content_delta s) e)
  content-Post s e g =
      write_data-Post Speaks e (content_delta s) speaking speaking g.at (unfold accept in refl)
        (λ left at. record { at = at; role = g.role; native = g.native; calls = g.calls })

  pub flush_text_buffer-Post :
      (e : SseEmitter J) → Speaks e → Post Broken Speaks (flush_text_buffer e)
  unfolding flush_text_buffer
  flush_text_buffer-Post e s =
      if-Holds (Post Broken Speaks) (is_blank e.text_buffer) _ _ (λ h. unbuffered-Speaks e s)
        (λ h.
          then-Post Broken Speaks Speaks (write_data (content_delta e.text_buffer))
            (modify unbuffered) e (content-Post e.text_buffer e s) unbuffered-Speaks)
