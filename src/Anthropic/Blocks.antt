-- ===== src/Anthropic/Blocks.antt =====
-- The blocks that internal/adapter/anthropic/sse.go opens and fills follow the protocol.
use otto_gateway.Base.{
  ℕ, suc, ◌≡◌, refl, ◌∙◌, sym, String, true, false, not, ◌&&◌, some, List, [], ◌∷◌, arith, is_blank,
}
use otto_gateway.Engine.ToolCalls.{ToolCall}
use otto_gateway.Anthropic.Frames.{
  Kind, text_kind, thought_kind, tool_kind, same_kind, Header, text_header, thinking_header,
  tool_header, header_kind, Frame, block_start, text_delta, thinking_delta, json_delta, Client,
  between, inside, accept,
}
use otto_gateway.Anthropic.Emitter.{
  Request, Emitter, ◌>>◌, modify, when, write_event, write_stop, opened_by, with_text, with_thought,
  consumed, after_call, close_block, start_block, open_block, deliver_text, deliver_thought,
  emit_text_raw, flush_buffered_text, emit_coerced, emit_all, partial_json,
}
use otto_gateway.Anthropic.Grammar.{
  At, Good, Post, then-Post, Post-map, when-Post, if-Post, write-Post, Closed, close_block-Post,
}

accept-start :
    (n : ℕ) (h : Header)
    → accept (between n) (block_start n h)
      ≡ some (inside n (header_kind h) (not (same_kind (header_kind h) tool_kind)))
unfolding accept
accept-start n text_header = ground arith
accept-start n thinking_header = ground arith
accept-start n (tool_header id name) = ground arith

pub same_kind-eq : (a b : Kind) → same_kind a b ≡ true → a ≡ b
same_kind-eq text_kind text_kind h = refl
same_kind-eq thought_kind thought_kind h = refl
same_kind-eq tool_kind tool_kind h = refl
same_kind-eq text_kind thought_kind h = absurd (ground arith)
same_kind-eq text_kind tool_kind h = absurd (ground arith)
same_kind-eq thought_kind text_kind h = absurd (ground arith)
same_kind-eq thought_kind tool_kind h = absurd (ground arith)
same_kind-eq tool_kind text_kind h = absurd (ground arith)
same_kind-eq tool_kind thought_kind h = absurd (ground arith)

module _ {J : Type 0} where
  -- Good, in a block of the kind.
  pub record In (k : Kind) (e : Emitter J) : Type 0 where
    pub good : Good e
    pub open_kind : e.current_kind ≡ k
    pub is_open : e.block_open ≡ true

  -- The block is started, and not yet counted as open.
  record Started (n : ℕ) (k : Kind) (e : Emitter J) : Type 0 where
    at : At e (inside n k (not (same_kind k tool_kind)))
    index : e.block_index ≡ n
    flushed : e.pending_tool_use_flush ≡ false

  start_block-Post :
      (h : Header) (e : Emitter J) → Closed e → Post (In (header_kind h)) (start_block h e)
  unfolding start_block
  start_block-Post h e c =
      let n = e.block_index in
      let k = header_kind h in
      then-Post (Started n k) (In k) (write_event (block_start n h)) (modify (opened_by h)) e
        (write-Post (Started n k) e (block_start n h) (between n)
          (inside n k (not (same_kind k tool_kind))) (ground (arith, c.shut, c.good.at))
          (accept-start n h)
          (λ left at. record {
            at = at;
            index = refl;
            flushed = ground (arith, c.shut, c.good.opened);
          }))
        (λ x st. record {
          good = record {
            at = ground (arith, st.at, st.index, st.flushed);
            tool = λ y. same_kind-eq k tool_kind (ground (arith, st.flushed));
            opened = λ y. refl;
          };
          open_kind = refl;
          is_open = refl;
        })

  -- Good, and a block that is open is of the kind.
  record Fits (k : Kind) (e : Emitter J) : Type 0 where
    good : Good e
    fits : e.block_open ≡ true → e.current_kind ≡ k

  pub open_block-Post :
      (h : Header) (e : Emitter J) → Good e → Post (In (header_kind h)) (open_block h e)
  unfolding open_block
  open_block-Post h e g =
      let k = header_kind h in
      let wrong = e.block_open && not (same_kind k e.current_kind) in
      then-Post (Fits k) (In k) (when wrong close_block)
        (λ x. when (not x.block_open) (start_block h) x) e
        (when-Post (Fits k) wrong close_block e
          (λ w.
            Post-map Closed (Fits k) (close_block e) (close_block-Post e g (ground arith))
              (λ x c. record { good = c.good; fits = λ o. absurd (ground (arith, c.shut)) }))
          (λ w. record {
            good = g;
            fits = λ o. sym (same_kind-eq k e.current_kind (ground arith));
          }))
        (λ x f.
          when-Post (In k) (not x.block_open) (start_block h) x
            (λ w. start_block-Post h x (record { good = f.good; shut = ground arith }))
            (λ w. record {
              good = f.good;
              open_kind = f.fits (ground arith);
              is_open = ground arith;
            }))

  -- A step that leaves alone what the client reads.
  pub Good-touch :
      (e e' : Emitter J)
      → e'.sent ≡ e.sent
      → e'.block_index ≡ e.block_index
      → e'.current_kind ≡ e.current_kind
      → e'.block_open ≡ e.block_open
      → e'.pending_tool_use_flush ≡ e.pending_tool_use_flush
      → Good e
      → Good e'
  Good-touch e e' sent index kind shown held g = record {
    at = ground (arith, g.at, sent, index, kind, shown, held);
    tool = λ h. kind ∙ g.tool (sym held ∙ h);
    opened = λ h. shown ∙ g.opened (sym held ∙ h);
  }

  -- An event of the block that is open, after which the client stands where it stood.
  inner-Post :
      (k : Kind) (f : Frame) (e : Emitter J)
      → In k e
      → accept (inside e.block_index k true) f ≡ some (inside e.block_index k true)
      → e.pending_tool_use_flush ≡ false
      → Post (In k) (write_event f e)
  inner-Post k f e i allowed clean =
      let n = e.block_index in
      write-Post (In k) e f (inside n k true) (inside n k true)
        (ground (arith, i.good.at, i.open_kind, i.is_open)) allowed
        (λ left at. record {
          good = record {
            at = ground (arith, at, i.open_kind, i.is_open);
            tool = λ h. absurd (ground arith);
            opened = λ h. i.is_open;
          };
          open_kind = i.open_kind;
          is_open = i.is_open;
        })

  pub deliver_text-Post :
      (s : String) (e : Emitter J) → In text_kind e → Post Good (deliver_text s e)
  unfolding deliver_text
  deliver_text-Post s e i =
      then-Post (In text_kind) Good (write_event (text_delta e.block_index s))
        (modify (with_text s)) e
        (inner-Post text_kind (text_delta e.block_index s) e i (unfold accept in ground arith)
          (ground (arith, i.good.tool, i.open_kind)))
        (λ x j. Good-touch x (with_text s x) refl refl refl refl refl j.good)

  pub deliver_thought-Post :
      (s : String) (e : Emitter J) → In thought_kind e → Post Good (deliver_thought s e)
  unfolding deliver_thought
  deliver_thought-Post s e i =
      then-Post (In thought_kind) Good (write_event (thinking_delta e.block_index s))
        (modify (with_thought s)) e
        (inner-Post thought_kind (thinking_delta e.block_index s) e i
          (unfold accept in ground arith) (ground (arith, i.good.tool, i.open_kind)))
        (λ x j. Good-touch x (with_thought s x) refl refl refl refl refl j.good)

  pub emit_text_raw-Post : (s : String) (e : Emitter J) → Good e → Post Good (emit_text_raw s e)
  unfolding emit_text_raw
  emit_text_raw-Post s e g =
      then-Post (In text_kind) Good (open_block text_header) (deliver_text s) e
        (open_block-Post text_header e g) (deliver_text-Post s)

  pub flush_buffered_text-Post : (e : Emitter J) → Good e → Post Good (flush_buffered_text e)
  unfolding flush_buffered_text
  flush_buffered_text-Post e g =
      if-Post Good (is_blank e.buffered_text) _ _ (λ b. Good-touch e _ refl refl refl refl refl g)
        (λ b.
          then-Post Good Good (emit_text_raw e.buffered_text) (modify consumed) e
            (emit_text_raw-Post e.buffered_text e g)
            (λ x j. Good-touch x (consumed x) refl refl refl refl refl j))

  -- A tool call between two blocks.
  record Coerced (d : Client) (n : ℕ) (e : Emitter J) : Type 0 where
    at : At e d
    index : e.block_index ≡ n
    shut : e.block_open ≡ false
    clean : e.pending_tool_use_flush ≡ false

  pub emit_coerced-Post :
      (v : Request J) (call : ToolCall J) (e : Emitter J)
      → Closed e
      → Post Closed (emit_coerced v call e)
  unfolding emit_coerced write_stop
  emit_coerced-Post v call e c =
      let n = e.block_index in
      let P = Coerced (inside n tool_kind false) n in
      let Q = Coerced (inside n tool_kind true) n in
      let R = Coerced (between (suc n)) n in
      let clean : e.pending_tool_use_flush ≡ false = ground (arith, c.good.opened, c.shut) in
      let start = write_event (block_start n (tool_header call.id call.name)) in
      let fill = write_event (json_delta n (partial_json v call.arguments)) in
      then-Post R Closed (start >> fill >> write_stop) (modify (after_call call)) e
        (then-Post Q R (start >> fill) write_stop e
          (then-Post P Q start fill e
            (write-Post P e _ (between n) (inside n tool_kind false)
              (ground (arith, c.shut, c.good.at)) (unfold accept in ground arith)
              (λ left at. record { at = at; index = refl; shut = c.shut; clean = clean }))
            (λ x p.
              write-Post Q x _ (inside n tool_kind false) (inside n tool_kind true) p.at
                (unfold accept in ground arith)
                (λ left at. record { at = at; index = p.index; shut = p.shut; clean = p.clean })))
          (λ x q.
            write-Post R x _ (inside n tool_kind true) (between (suc n)) q.at
              (unfold accept in ground (arith, q.index))
              (λ left at. record { at = at; index = q.index; shut = q.shut; clean = q.clean })))
        (λ x r. record {
          good = record {
            at = ground (arith, r.at, r.index, r.shut);
            tool = λ h. absurd (ground (arith, r.clean));
            opened = λ h. absurd (ground (arith, r.clean));
          };
          shut = r.shut;
        })

  pub emit_all-Post :
      (v : Request J) (calls : List (ToolCall J)) (e : Emitter J)
      → Closed e
      → Post Closed (emit_all v calls e)
  unfolding emit_all
  emit_all-Post v [] e c = c
  emit_all-Post v (call ∷ calls) e c =
      then-Post Closed Closed (emit_coerced v call) (emit_all v calls) e
        (emit_coerced-Post v call e c) (emit_all-Post v calls)
