-- ===== src/Compress/Kept.antt =====
-- What the stages of internal/plugin/compress leave of a message.
use otto_gateway.Base.{
  ℕ, suc, ◌≡◌, refl, sym, ap, ◌∙◌, String, Bool, true, false, not, ◌⊎◌, none, some, List, [], ◌∷◌,
  ◌++◌, arith, inl, inr,
}
use mathlib.Core.List.{append_assoc}
use otto_gateway.Compress.Message.{
  MessageRole, text_part, result_part, thinking_part, ContentPart, Message,
}
use otto_gateway.Compress.Stages.{Pins}
use otto_gateway.Compress.Prune.{is_mutable, replace_part, replace_parts, replace_text}

module _ {J : Type 0} where
  -- What stays of a part: all of it, but for prose and for the content of a tool's result.
  abbrev pub bone : ContentPart J → List (ContentPart J)
  bone p = elim p.kind [
    | text_part ↦ []
    | thinking_part ↦ []
    | result_part ↦ (elim p.tool_result [
      | none ↦ p ∷ []
      | some r ↦ record p { tool_result = some (record r { content = "" }) } ∷ []
    ])
    | _ ↦ p ∷ []
  ]

  unfoldable pub skeleton : List (ContentPart J) → List (ContentPart J)
  skeleton [] = []
  skeleton (p ∷ ps) = bone p ++ skeleton ps

  skeleton-append :
      (ps qs : List (ContentPart J)) → skeleton (ps ++ qs) ≡ skeleton ps ++ skeleton qs
  unfolding skeleton
  skeleton-append [] qs = refl
  skeleton-append (p ∷ ps) qs =
      ap (λ l. bone p ++ l) (skeleton-append ps qs)
      ∙ sym (append_assoc (bone p) (skeleton ps) (skeleton qs))

  -- The role, the ids, the tool calls, and the skeleton are kept; a message that is fixed is kept
  -- whole.
  pub record Keeps (fixed : Bool) (m m' : Message J) : Type 0 where
    pub role : m'.role ≡ m.role
    pub tool_calls : m'.tool_calls ≡ m.tool_calls
    pub tool_call_id : m'.tool_call_id ≡ m.tool_call_id
    pub skeleton : skeleton m'.content ≡ skeleton m.content
    pub same : (fixed ≡ false) ⊎ (m' ≡ m)

  pub Keeps-refl : (fixed : Bool) (m : Message J) → Keeps fixed m m
  Keeps-refl fixed m = record {
    role = refl;
    tool_calls = refl;
    tool_call_id = refl;
    skeleton = refl;
    same = inr refl;
  }

  abbrev pub AllKept : Pins → ℕ → List (Message J) → List (Message J) → Type 0
  AllKept pins i [] [] = Unit {0}
  AllKept pins i [] (n ∷ ns) = ⊥
  AllKept pins i (m ∷ ms) [] = ⊥
  AllKept pins i (m ∷ ms) (n ∷ ns) =
      Keeps (not (is_mutable pins i m)) m n × AllKept pins (suc i) ms ns

  pub AllKept-refl : (pins : Pins) (i : ℕ) (ms : List (Message J)) → AllKept pins i ms ms
  AllKept-refl pins i [] = tt
  AllKept-refl pins i (m ∷ ms) = (Keeps-refl _ m, AllKept-refl pins (suc i) ms)

  same_mutable :
      (pins : Pins) (i : ℕ) (m n : Message J)
      → n.role ≡ m.role
      → is_mutable pins i n ≡ is_mutable pins i m
  unfolding is_mutable
  same_mutable pins i m n h = rw h

  Keeps-trans :
      (pins : Pins) (i : ℕ) (m n o : Message J)
      → Keeps (not (is_mutable pins i m)) m n
      → Keeps (not (is_mutable pins i n)) n o
      → Keeps (not (is_mutable pins i m)) m o
  Keeps-trans pins i m n o k l = record {
    role = l.role ∙ k.role;
    tool_calls = l.tool_calls ∙ k.tool_calls;
    tool_call_id = l.tool_call_id ∙ k.tool_call_id;
    skeleton = l.skeleton ∙ k.skeleton;
    same = ground (arith, k.same, l.same, same_mutable pins i m n k.role);
  }

  pub AllKept-trans :
      (pins : Pins) (i : ℕ) (ms ns os : List (Message J))
      → AllKept pins i ms ns
      → AllKept pins i ns os
      → AllKept pins i ms os
  AllKept-trans pins i [] [] [] k l = tt
  AllKept-trans pins i [] [] (o ∷ os) k l = elim l [ ]
  AllKept-trans pins i [] (n ∷ ns) os k l = elim k [ ]
  AllKept-trans pins i (m ∷ ms) [] os k l = elim k [ ]
  AllKept-trans pins i (m ∷ ms) (n ∷ ns) [] k l = elim l [ ]
  AllKept-trans pins i (m ∷ ms) (n ∷ ns) (o ∷ os) (k, ks) (l, ls) =
      (Keeps-trans pins i m n o k l, AllKept-trans pins (suc i) ms ns os ks ls)

  -- A message that may change.
  pub mutable-Keeps :
      (pins : Pins) (i : ℕ) (m n : Message J)
      → is_mutable pins i m ≡ true
      → Keeps false m n
      → Keeps (not (is_mutable pins i m)) m n
  mutable-Keeps pins i m n h k = rw h k

  replace_part-skeleton :
      (r : MessageRole) (stub : String) (replaced : Bool) (p : ContentPart J)
      → skeleton (replace_part r stub replaced p).0 ≡ bone p
  unfolding skeleton replace_part
  replace_part-skeleton r stub replaced p = ground arith

  replace_parts-skeleton :
      (r : MessageRole) (stub : String) (replaced : Bool) (ps : List (ContentPart J))
      → skeleton (replace_parts r stub replaced ps) ≡ skeleton ps
  unfolding replace_parts skeleton
  replace_parts-skeleton r stub replaced [] = refl
  replace_parts-skeleton r stub replaced (p ∷ ps) =
      skeleton-append (replace_part r stub replaced p).0
        (replace_parts r stub (replace_part r stub replaced p).1 ps)
      ∙ ap (λ l. l ++ skeleton (replace_parts r stub (replace_part r stub replaced p).1 ps))
          (replace_part-skeleton r stub replaced p)
      ∙ ap (λ l. bone p ++ l) (replace_parts-skeleton r stub (replace_part r stub replaced p).1 ps)

  pub replace_text-Keeps : (stub : String) (m : Message J) → Keeps false m (replace_text stub m)
  unfolding replace_text
  replace_text-Keeps stub m = record {
    role = refl;
    tool_calls = refl;
    tool_call_id = refl;
    skeleton = replace_parts-skeleton m.role stub false m.content;
    same = inl refl;
  }
