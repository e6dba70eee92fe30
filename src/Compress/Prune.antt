-- ===== src/Compress/Prune.antt =====
-- collapseDuplicates and replaceText of internal/plugin/compress/stages.go, and prune.go. The rank of
-- bm25.go is a field of `Library`; `sort.Slice` is a sort by insertion.
use otto_gateway.Base.{
  ℕ, suc, ◌+◌, ◌-◌, String, Bool, true, false, not, ◌&&◌, ◌||◌, Option, none, some, List, [], ◌∷◌,
  ◌++◌, any_of, concat, byte_length, get_elem?, set, ltb, leb, if◌then◌else◌,
}
use otto_gateway.Catalog.Models.{contains}
use otto_gateway.Compress.Message.{
  MessageRole, user, assistant, text_part, use_part, result_part, thinking_part, ContentPart,
  Message, is_text, is_system, is_user, join_text_parts, acp_prose, est_message_tokens,
  est_messages_tokens,
}
use otto_gateway.Compress.Stages.{
  Library, Pins, is_pin, dup_key, min_dup_len, duplicate_stub_marker,
}

abbrev pub min_candidate_len : ℕ
min_candidate_len = 200

module _ {J : Type 0} where
  abbrev pub stub_part : String → ContentPart J
  stub_part stub = record {
    kind = text_part;
    text = stub;
    image = none;
    tool_use = none;
    tool_result = none;
  }

  -- What replaceText puts for a part, and whether the stub is out.
  unfoldable pub replace_part :
      MessageRole → String → Bool → ContentPart J → List (ContentPart J) × Bool
  replace_part r stub replaced p = elim p.kind [
    | text_part ↦ ((if replaced then [] else stub_part stub ∷ []), true)
    | thinking_part ↦ (elim r [
      | assistant ↦ ((if replaced then [] else stub_part stub ∷ []), true)
      | _ ↦ (p ∷ [], replaced)
    ])
    | result_part ↦ (elim p.tool_result [
      | none ↦ (p ∷ [], replaced)
      | some t ↦ (elim r [
        | user ↦ (
          record p { tool_result = some (record t { content = if replaced then "" else stub }) }
              ∷ [],
          true,
        )
        | _ ↦ (p ∷ [], replaced)
      ])
    ])
    | _ ↦ (p ∷ [], replaced)
  ]

  unfoldable pub replace_parts :
      MessageRole → String → Bool → List (ContentPart J) → List (ContentPart J)
  unfolding replace_part
  replace_parts r stub replaced [] = []
  replace_parts r stub replaced (p ∷ ps) =
      (replace_part r stub replaced p).0
      ++ replace_parts r stub (replace_part r stub replaced p).1 ps

  unfoldable pub replace_text : String → Message J → Message J
  unfolding replace_parts
  replace_text stub m = record m { content = replace_parts m.role stub false m.content }

  -- The messages that no stage may change are the others.
  unfoldable pub is_mutable : Pins → ℕ → Message J → Bool
  is_mutable pins i m =
      ltb i pins.tail_start
      && not (is_pin pins.last_idx i)
      && not (is_pin pins.query_idx i)
      && not (is_system m.role)

  -- The last index, counted from i, whose message passes the test.
  unfoldable pub last_index : (Message J → Bool) → ℕ → List (Message J) → Option ℕ
  last_index p i [] = none
  last_index p i (m ∷ ms) = elim (last_index p (suc i) ms) [
    | some j ↦ some j
    | none ↦ if p m then some i else none
  ]

  unfoldable pub carries_tool_call : Message J → Bool
  carries_tool_call m = elim m.tool_calls [
    | c ∷ cs ↦ true
    | [] ↦ any_of (λ p. elim p.kind [ use_part ↦ true | _ ↦ false ]) m.content
  ]

module _ {J S : Type 0} (lib : Library J S) where
  unfoldable pub has_query_terms : Message J → Bool
  has_query_terms m = any_of (λ p. is_text p.kind && lib.has_terms p.text) m.content

  unfoldable pub find_pinned : ℕ → List (Message J) → Pins
  unfolding last_index has_query_terms
  find_pinned tail_start ms = record {
    tail_start = tail_start;
    last_idx = last_index (λ m. not (is_system m.role)) 0 ms;
    query_idx = last_index (λ m. is_user m.role && has_query_terms m) 0 ms;
  }

  -- collapseDuplicates from the message at i on, with the keys seen.
  unfoldable pub collapse_from : Pins → List String → ℕ → List (Message J) → List (Message J)
  unfolding is_mutable dup_key acp_prose byte_length contains replace_text
  collapse_from pins seen i [] = []
  collapse_from pins seen i (m ∷ ms) =
      let key = dup_key lib m in
      let duplicate = contains key seen in
      (if is_mutable pins i m && leb min_dup_len (byte_length (acp_prose m)) && duplicate
        then replace_text duplicate_stub_marker m
        else m)
      ∷ collapse_from pins (if duplicate then seen else key ∷ seen) (suc i) ms

  unfoldable pub relevance_text : Message J → String
  unfolding acp_prose
  relevance_text m = lib.strip_pii (acp_prose m)

  unfoldable pub candidates : Pins → ℕ → List (Message J) → List (ℕ × String)
  unfolding is_mutable carries_tool_call relevance_text byte_length
  candidates pins i [] = []
  candidates pins i (m ∷ ms) =
      let rest = candidates pins (suc i) ms in
      if not (is_mutable pins i m)
        || carries_tool_call m
        || ltb (byte_length (relevance_text m)) min_candidate_len
      then rest
      else (i, relevance_text m) ∷ rest

  unfoldable pub documents : List (ℕ × String) → List String
  documents [] = []
  documents ((i, doc) ∷ cands) = doc ∷ documents cands

  -- Each candidate's score with its index.
  unfoldable pub scored : List (ℕ × String) → List S → List (S × ℕ)
  scored [] scores = []
  scored (c ∷ cands) [] = []
  scored ((i, doc) ∷ cands) (s ∷ scores) = (s, i) ∷ scored cands scores

  abbrev pub before : S × ℕ → S × ℕ → Bool
  before (s, i) (t, j) = lib.lower s t || (not (lib.lower t s) && ltb i j)

  unfoldable pub insert_candidate : S × ℕ → List (S × ℕ) → List (S × ℕ)
  insert_candidate c [] = c ∷ []
  insert_candidate c (d ∷ ds) =
      let rest = insert_candidate c ds in if before d c then d ∷ rest else c ∷ (d ∷ ds)

  unfoldable pub prune_order : List (S × ℕ) → List (S × ℕ)
  unfolding insert_candidate
  prune_order [] = []
  prune_order (c ∷ cs) = insert_candidate c (prune_order cs)

  unfoldable pub elision_stub : ℕ → String
  unfolding concat
  elision_stub i =
      concat "[message #"
        (concat (lib.format (suc i)) " elided as low-relevance to the current request]")

  unfoldable pub elide : ℕ → List (Message J) → List (Message J)
  unfolding elision_stub replace_text
  elide i ms = elim (get_elem? ms i) [
    | none ↦ ms
    | some m ↦ set ms i (replace_text (elision_stub i) m)
  ]

  abbrev pub est_at : ℕ → List (Message J) → ℕ
  est_at i ms = elim (get_elem? ms i) [ none ↦ 0 | some m ↦ est_message_tokens lib.marshal m ]

  -- The running total stands for the estimate.
  unfoldable pub prune_loop : ℕ → ℕ → List (S × ℕ) → List (Message J) → List (Message J)
  unfolding elide est_message_tokens
  prune_loop budget total [] ms = ms
  prune_loop budget total ((s, i) ∷ order) ms =
      let rest =
        prune_loop budget (total + est_at i (elide i ms) - est_at i ms) order (elide i ms) in
      if leb total budget then ms else rest

  unfoldable pub prune_scored : ℕ → List (ℕ × String) → List S → List (Message J) → List (Message J)
  unfolding prune_loop prune_order scored est_messages_tokens
  prune_scored budget cands scores ms =
      if any_of lib.is_positive scores
      then prune_loop budget (est_messages_tokens lib.marshal ms)
          (prune_order (scored cands scores)) ms
      else ms

  unfoldable pub rank_candidates :
      ℕ → Message J → List (ℕ × String) → List (Message J) → List (Message J)
  unfolding prune_scored documents join_text_parts
  rank_candidates budget query [] ms = ms
  rank_candidates budget query (c ∷ cs) ms =
      elim (lib.rank (lib.strip_pii (join_text_parts query.content)) (documents (c ∷ cs))) [
        | none ↦ ms
        | some scores ↦ prune_scored budget (c ∷ cs) scores ms
      ]

  unfoldable pub prune_by_relevance : Pins → ℕ → List (Message J) → List (Message J)
  unfolding rank_candidates candidates
  prune_by_relevance pins budget ms = elim pins.query_idx [
    | none ↦ ms
    | some q ↦ (elim (get_elem? ms q) [
      | none ↦ ms
      | some query ↦ rank_candidates budget query (candidates pins 0 ms) ms
    ])
  ]
