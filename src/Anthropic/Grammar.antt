-- ===== src/Anthropic/Grammar.antt =====
-- The blocks that internal/adapter/anthropic/sse.go writes follow the protocol.
use otto_gateway.Base.{
  ℕ, zero, suc, ◌≡◌, refl, ◌∙◌, Bool, true, false, not, some, List, [], ◌∷◌, ◌++◌, inl, inr, arith,
  Option-cases, if◌then◌else◌, if-Holds,
}
use otto_gateway.Base.Steps
use otto_gateway.Anthropic.Frames.{
  Kind, tool_kind, same_kind, Frame, json_delta, block_stop, Client, waiting, between, inside,
  accept, reads,
}
use otto_gateway.Anthropic.Emitter.{
  Emitter, Emit, ◌>>◌, modify, when, write_event, flush_pending, write_stop, advanced, close_block,
}

reads-snoc :
    (c d : Client) (fs : List Frame) (f : Frame)
    → reads c fs ≡ some d
    → reads c (fs ++ (f ∷ [])) ≡ accept d f
unfolding reads
reads-snoc c d [] f h = ground arith
reads-snoc c d (g ∷ fs) f h = elim (Option-cases (accept c g)) [
  | inl n ↦ absurd (ground arith)
  | inr (c', n) ↦ ground (arith, reads-snoc c' d fs f)
]

module _ {J : Type 0} where
  -- The client has read everything that was sent.
  abbrev pub At : Emitter J → Client → Type 0
  At e d = reads waiting e.sent ≡ some d

  -- The connection has failed.
  pub record Broken (e : Emitter J) : Type 0 where
    pub client : Client
    pub at : At e client
    pub exhausted : e.budget ≡ 0

  abbrev pub view : Emitter J → Client
  view e =
      if e.block_open
      then inside e.block_index e.current_kind (not e.pending_tool_use_flush)
      else between e.block_index

  -- The emitter's fields say where the client is.
  pub record Good (e : Emitter J) : Type 0 where
    pub at : At e (view e)
    pub tool : e.pending_tool_use_flush ≡ true → e.current_kind ≡ tool_kind
    pub opened : e.pending_tool_use_flush ≡ true → e.block_open ≡ true

  abbrev pub Post : (Emitter J → Type 0) → Emitter J × Bool → Type 0
  Post P r = Steps.Post Broken P r

  -- A step that ends in `P`, and the steps that go on from there.
  pub then-Post :
      (P Q : Emitter J → Type 0) (m k : Emit J) (e : Emitter J)
      → Post P (m e)
      → ((e' : Emitter J) → P e' → Post Q (k e'))
      → Post Q ((m >> k) e)
  then-Post P Q m k e h next = Steps.then-Post Broken P Q m k e h next

  pub Post-map :
      (P Q : Emitter J → Type 0) (r : Emitter J × Bool)
      → Post P r
      → ((e : Emitter J) → P e → Q e)
      → Post Q r
  Post-map P Q r h f = Steps.Post-map Broken P Q r h f

  pub if-Post :
      (P : Emitter J → Type 0) (b : Bool) (x y : Emitter J × Bool)
      → (b ≡ true → Post P x)
      → (b ≡ false → Post P y)
      → Post P (if b then x else y)
  if-Post P b x y h g = if-Holds (Post P) b x y h g

  pub when-Post :
      (P : Emitter J → Type 0) (b : Bool) (m : Emit J) (e : Emitter J)
      → (b ≡ true → Post P (m e))
      → (b ≡ false → P e)
      → Post P (when b m e)
  when-Post P b m e h g = if-Holds (Post P) b (m e) (e, true) h g

  -- An event that the protocol allows is taken, or the connection has failed.
  pub write-Post :
      (P : Emitter J → Type 0) (e : Emitter J) (f : Frame) (d d' : Client)
      → At e d
      → accept d f ≡ some d'
      → ((left : ℕ)
          → At (record e { budget = left; sent = e.sent ++ (f ∷ []) }) d'
          → P (record e { budget = left; sent = e.sent ++ (f ∷ []) }))
      → Post P (write_event f e)
  unfolding write_event
  write-Post P e f d d' at allowed next = go e.budget refl
    where
      go :
          (b : ℕ)
          → e.budget ≡ b
          → Post P (elim b [
            | zero ↦ (e, false)
            | suc left ↦ (record e { budget = left; sent = e.sent ++ (f ∷ []) }, true)
          ])
      go zero broke = record { client = d; at = at; exhausted = broke }
      go (suc left) rich = next left (reads-snoc waiting d e.sent f at ∙ allowed)

  -- In a block, with nothing pending.
  pub record Settled (n : ℕ) (k : Kind) (e : Emitter J) : Type 0 where
    pub at : At e (inside n k true)
    pub index : e.block_index ≡ n
    pub flushed : e.pending_tool_use_flush ≡ false

  pub flush_pending-Post :
      (e : Emitter J)
      → Good e
      → e.block_open ≡ true
      → Post (Settled e.block_index e.current_kind) (flush_pending e)
  unfolding flush_pending accept
  flush_pending-Post e g o =
      let P = Settled e.block_index e.current_kind in
      if-Post P (not e.pending_tool_use_flush) _ _
        (λ clean. record { at = ground (arith, g.at); index = refl; flushed = ground arith })
        (λ held.
          if-Post P (not (same_kind e.current_kind tool_kind)) _ _
            (λ other. absurd (ground (arith, g.tool)))
            (λ tool.
              write-Post P _ (json_delta e.block_index "{}")
                (inside e.block_index e.current_kind false)
                (inside e.block_index e.current_kind true) (ground (arith, g.at, g.opened))
                (ground (arith, g.tool))
                (λ left at. record { at = at; index = refl; flushed = refl })))

  -- After the stop of the block `n`, which the emitter still counts.
  pub record Stopped (n : ℕ) (e : Emitter J) : Type 0 where
    pub at : At e (between (suc n))
    pub index : e.block_index ≡ n
    pub flushed : e.pending_tool_use_flush ≡ false

  -- Good, and between blocks.
  pub record Closed (e : Emitter J) : Type 0 where
    pub good : Good e
    pub shut : e.block_open ≡ false

  pub write_stop-Post :
      (P : Emitter J → Type 0) (n : ℕ) (k : Kind) (e : Emitter J)
      → Settled n k e
      → ((left : ℕ)
          → At
              (record e { budget = left; sent = e.sent ++ (block_stop e.block_index ∷ []) })
              (between (suc n))
          → P (record e { budget = left; sent = e.sent ++ (block_stop e.block_index ∷ []) }))
      → Post P (write_stop e)
  unfolding write_stop
  write_stop-Post P n k e s next =
      write-Post P e (block_stop e.block_index) (inside n k true) (between (suc n)) s.at
        (unfold accept in ground (arith, s.index)) next

  pub close_block-Post :
      (e : Emitter J) → Good e → e.block_open ≡ true → Post Closed (close_block e)
  unfolding close_block
  close_block-Post e g o =
      let n = e.block_index in
      let k = e.current_kind in
      then-Post (Stopped n) Closed (flush_pending >> write_stop) (modify advanced) e
        (then-Post (Settled n k) (Stopped n) flush_pending write_stop e (flush_pending-Post e g o)
          (λ x s.
            write_stop-Post (Stopped n) n k x s
              (λ left at. record { at = at; index = s.index; flushed = s.flushed })))
        (λ x i. record {
          good = record {
            at = ground (arith, i.at, i.index);
            tool = λ h. absurd (ground (arith, i.flushed));
            opened = λ h. absurd (ground (arith, i.flushed));
          };
          shut = refl;
        })
