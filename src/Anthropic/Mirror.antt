-- ===== src/Anthropic/Mirror.antt =====
-- What the hooks of internal/adapter/anthropic/sse.go are given is what the client was sent.
use otto_gateway.Base.{
  ℕ, zero, suc, ◌≡◌, refl, ◌∙◌, sym, ap, String, Bool, true, false, not, ◌&&◌, List, [], ◌∷◌, ◌++◌,
  concat, concat-nil, concat_assoc, if◌then◌else◌, is_blank,
}
use otto_gateway.Anthropic.Frames.{
  tool_kind, same_kind, header_kind, Header, text_header, Frame, block_start, text_delta,
  thinking_delta, json_delta, block_stop,
}
use otto_gateway.Anthropic.Emitter.{
  Emitter, Emit, ◌>>◌, modify, when, ignore, write_event, flush_pending, write_stop, advanced,
  opened_by, close_block, start_block, open_block, with_text, with_thought, deliver_text,
  deliver_thought, consumed, emit_text_raw, flush_buffered_text,
}

-- The text, and the thought, of the deltas that a client read.
abbrev pub text_of : Frame → String
text_of (text_delta n s) = s
text_of _ = ""

abbrev pub thought_of : Frame → String
thought_of (thinking_delta n s) = s
thought_of _ = ""

unfoldable pub joined : (Frame → String) → List Frame → String
unfolding concat
joined of [] = ""
joined of (f ∷ fs) = concat (of f) (joined of fs)

joined-snoc :
    (of : Frame → String) (fs : List Frame) (f : Frame)
    → joined of (fs ++ (f ∷ [])) ≡ concat (joined of fs) (of f)
unfolding joined concat
joined-snoc of [] f = concat-nil (of f)
joined-snoc of (g ∷ fs) f =
    ap (concat (of g)) (joined-snoc of fs f) ∙ sym (concat_assoc (of g) (joined of fs) (of f))

module _ {J : Type 0} where
  -- The aggregates are what the client was sent.
  pub record Mirrors (e : Emitter J) : Type 0 where
    pub spoken : e.agg_text ≡ joined text_of e.sent
    pub mused : e.agg_thought ≡ joined thought_of e.sent

  -- A step that keeps it so, whether it fails or not.
  abbrev pub Keeps : Emit J → Type 0
  Keeps m = (e : Emitter J) → Mirrors e → Mirrors (m e).0

  pub then-Keeps : (m k : Emit J) → Keeps m → Keeps k → Keeps (m >> k)
  then-Keeps m k h g e i = go (m e) (h e i)
    where
      go :
          (r : Emitter J × Bool)
          → Mirrors r.0
          → Mirrors (let (x, good) = r in if good then k x else (x, false)).0
      go (x, true) i = g x i
      go (x, false) i = i

  pub when-Keeps : (b : Bool) (m : Emit J) → Keeps m → Keeps (when b m)
  when-Keeps true m h e i = h e i
  when-Keeps false m h e i = i

  pub if-Keeps : (b : Bool) (m k : Emit J) → Keeps m → Keeps k → Keeps (if b then m else k)
  if-Keeps true m k h g = h
  if-Keeps false m k h g = g

  pub if-Mirrors :
      (b : Bool) (x y : Emitter J × Bool)
      → Mirrors x.0
      → Mirrors y.0
      → Mirrors (if b then x else y).0
  if-Mirrors true x y h g = h
  if-Mirrors false x y h g = g

  pub ignore-Keeps : (m : Emit J) → Keeps m → Keeps (ignore m)
  ignore-Keeps m h e i = h e i

  -- A change of the emitter that is neither sent nor aggregated.
  pub touch-Keeps :
      (f : Emitter J → Emitter J)
      → ((e : Emitter J) → (f e).sent ≡ e.sent)
      → ((e : Emitter J) → (f e).agg_text ≡ e.agg_text)
      → ((e : Emitter J) → (f e).agg_thought ≡ e.agg_thought)
      → Keeps (modify f)
  touch-Keeps f sent said mused e i = record {
    spoken = said e ∙ i.spoken ∙ ap (joined text_of) (sym (sent e));
    mused = mused e ∙ i.mused ∙ ap (joined thought_of) (sym (sent e));
  }

  -- The two ends of a write.
  write-split :
      (P : Emitter J × Bool → Type 0) (f : Frame) (e : Emitter J)
      → P (e, false)
      → ((left : ℕ) → P (record e { budget = left; sent = e.sent ++ (f ∷ []) }, true))
      → P (write_event f e)
  unfolding write_event
  write-split P f e h g = go e.budget
    where
      go :
          (n : ℕ)
          → P (elim n as (λ _. Emitter J × Bool) [
            | zero ↦ (e, false)
            | suc left ↦ (record e { budget = left; sent = e.sent ++ (f ∷ []) }, true)
          ])
      go zero = h
      go (suc left) = g left

  -- A frame and its change of the aggregates.
  add-Mirrors :
      (f : Frame) (e x : Emitter J)
      → Mirrors e
      → x.sent ≡ e.sent ++ (f ∷ [])
      → x.agg_text ≡ concat e.agg_text (text_of f)
      → x.agg_thought ≡ concat e.agg_thought (thought_of f)
      → Mirrors x
  add-Mirrors f e x i sent said mused = record {
    spoken =
        said
        ∙ ap (λ s. concat s (text_of f)) i.spoken
        ∙ sym (ap (joined text_of) sent ∙ joined-snoc text_of e.sent f);
    mused =
        mused
        ∙ ap (λ s. concat s (thought_of f)) i.mused
        ∙ sym (ap (joined thought_of) sent ∙ joined-snoc thought_of e.sent f);
  }

  abbrev after : Emit J → Emitter J × Bool → Emitter J × Bool
  after k r = let (x, good) = r in if good then k x else (x, false)

  write-Keeps :
      (f : Frame) (g : Emitter J → Emitter J) (e : Emitter J)
      → Mirrors e
      → ((x : Emitter J) → (g x).sent ≡ x.sent)
      → ((x : Emitter J) → (g x).agg_text ≡ concat x.agg_text (text_of f))
      → ((x : Emitter J) → (g x).agg_thought ≡ concat x.agg_thought (thought_of f))
      → Mirrors ((write_event f >> modify g) e).0
  write-Keeps f g e i sent said mused =
      write-split (λ r. Mirrors (after (modify g) r).0) f e i
        (λ left.
          let x = record e { budget = left; sent = e.sent ++ (f ∷ []) } in
          add-Mirrors f e (g x) i (sent x) (said x) (mused x))

  -- A frame that holds no text.
  pub silent-Keeps : (f : Frame) → text_of f ≡ "" → thought_of f ≡ "" → Keeps (write_event f)
  silent-Keeps f quiet still e i =
      write-split (λ r. Mirrors r.0) f e i
        (λ left.
          add-Mirrors f e (record e { budget = left; sent = e.sent ++ (f ∷ []) }) i refl
            (sym (ap (concat e.agg_text) quiet ∙ concat-nil e.agg_text))
            (sym (ap (concat e.agg_thought) still ∙ concat-nil e.agg_thought)))

  pub flush_pending-Keeps : Keeps flush_pending
  unfolding flush_pending
  flush_pending-Keeps e i =
      let x = record e { pending_tool_use_flush = false } in
      let i' : Mirrors x = record { spoken = i.spoken; mused = i.mused } in
      if-Mirrors (not e.pending_tool_use_flush) _ _ i (
        if-Mirrors (not (same_kind e.current_kind tool_kind)) _ _ i'
          (silent-Keeps (json_delta e.block_index "{}") refl refl x i'))

  pub write_stop-Keeps : Keeps write_stop
  unfolding write_stop
  write_stop-Keeps e i = silent-Keeps (block_stop e.block_index) refl refl e i

  pub close_block-Keeps : Keeps close_block
  unfolding close_block
  close_block-Keeps =
      then-Keeps (flush_pending >> write_stop) (modify advanced)
        (then-Keeps flush_pending write_stop flush_pending-Keeps write_stop-Keeps)
        (touch-Keeps advanced (λ e. refl) (λ e. refl) (λ e. refl))

  pub open_block-Keeps : (h : Header) → Keeps (open_block h)
  unfolding open_block start_block
  open_block-Keeps h e i =
      then-Keeps (when (e.block_open && not (same_kind (header_kind h) e.current_kind)) close_block)
        (λ x. when (not x.block_open) (start_block h) x)
        (when-Keeps (e.block_open && not (same_kind (header_kind h) e.current_kind)) close_block
          close_block-Keeps)
        (λ x j.
          when-Keeps (not x.block_open) (start_block h)
            (λ y k.
              then-Keeps (write_event (block_start y.block_index h)) (modify (opened_by h))
                (silent-Keeps (block_start y.block_index h) refl refl)
                (touch-Keeps (opened_by h) (λ z. refl) (λ z. refl) (λ z. refl)) y k)
            x j)
        e i

  pub deliver_text-Keeps : (s : String) → Keeps (deliver_text s)
  unfolding deliver_text
  deliver_text-Keeps s e i =
      write-Keeps (text_delta e.block_index s) (with_text s) e i (λ x. refl) (λ x. refl)
        (λ x. sym (concat-nil x.agg_thought))

  pub deliver_thought-Keeps : (s : String) → Keeps (deliver_thought s)
  unfolding deliver_thought
  deliver_thought-Keeps s e i =
      write-Keeps (thinking_delta e.block_index s) (with_thought s) e i (λ x. refl)
        (λ x. sym (concat-nil x.agg_text)) (λ x. refl)

  pub flush_buffered_text-Keeps : Keeps flush_buffered_text
  unfolding flush_buffered_text emit_text_raw
  flush_buffered_text-Keeps e i =
      if-Mirrors (is_blank e.buffered_text) _ _ (record { spoken = i.spoken; mused = i.mused })
        (then-Keeps (emit_text_raw e.buffered_text) (modify consumed)
          (then-Keeps (open_block text_header) (deliver_text e.buffered_text)
            (open_block-Keeps text_header) (deliver_text-Keeps e.buffered_text))
          (touch-Keeps consumed (λ x. refl) (λ x. refl) (λ x. refl)) e i)
