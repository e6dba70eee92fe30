-- ===== src/Compress/Intact.antt =====
-- The pipeline of internal/plugin/compress changes only what it may.
use otto_gateway.Base.{
  ℕ, zero, suc, ◌+◌, ◌-◌, ◌≡◌, refl, String, true, false, not, none, some, List, [], ◌∷◌, arith,
  any_of, inl, if◌then◌else◌, if-Holds, subst, Each, get_elem?, set, leb,
}
use otto_gateway.Catalog.Models.{contains}
use otto_gateway.Compress.Message.{MessageRole, ContentPart, Message, join_text_parts}
use otto_gateway.Compress.Stages.{
  Library, Pins, normalize_parts, normalize_message_whitespace, truncate_parts,
  truncate_tool_results, duplicate_stub_marker, dup_key,
}
use otto_gateway.Compress.Prune.{
  is_mutable, replace_text, collapse_from, candidates, relevance_text, documents, scored,
  prune_order, insert_candidate, before, elide, elision_stub, est_at, prune_loop, prune_scored,
  rank_candidates, prune_by_relevance,
}
use otto_gateway.Compress.Hook.{change_mutable}
use otto_gateway.Compress.Kept.{
  skeleton, Keeps, Keeps-refl, AllKept, AllKept-refl, AllKept-trans, mutable-Keeps,
  replace_text-Keeps,
}

module _ {J S : Type 0} (lib : Library J S) where
  normalize_parts-skeleton :
      (ps : List (ContentPart J)) → skeleton (normalize_parts lib ps) ≡ skeleton ps
  unfolding normalize_parts skeleton
  normalize_parts-skeleton [] = refl
  normalize_parts-skeleton (p ∷ ps) = ground (arith, normalize_parts-skeleton ps)

  pub normalize-Keeps : (m : Message J) → Keeps false m (normalize_message_whitespace lib m)
  unfolding normalize_message_whitespace
  normalize-Keeps m = record {
    role = refl;
    tool_calls = refl;
    tool_call_id = refl;
    skeleton = normalize_parts-skeleton m.content;
    same = inl refl;
  }

  truncate_parts-skeleton :
      (r : MessageRole) (keep : ℕ) (ps : List (ContentPart J))
      → skeleton (truncate_parts lib r keep ps) ≡ skeleton ps
  unfolding truncate_parts skeleton
  truncate_parts-skeleton r keep [] = refl
  truncate_parts-skeleton r keep (p ∷ ps) = ground (arith, truncate_parts-skeleton r keep ps)

  pub truncate-Keeps : (keep : ℕ) (m : Message J) → Keeps false m (truncate_tool_results lib keep m)
  unfolding truncate_tool_results
  truncate-Keeps keep m = record {
    role = refl;
    tool_calls = refl;
    tool_call_id = refl;
    skeleton = truncate_parts-skeleton m.role keep m.content;
    same = inl refl;
  }

  pub change_mutable-AllKept :
      (f : Message J → Message J) (pins : Pins) (i : ℕ) (ms : List (Message J))
      → ((m : Message J) → Keeps false m (f m))
      → AllKept pins i ms (change_mutable lib f pins i ms)
  unfolding change_mutable
  change_mutable-AllKept f pins i [] k = tt
  change_mutable-AllKept f pins i (m ∷ ms) k = (
    if-Holds (Keeps (not (is_mutable pins i m)) m) (is_mutable pins i m) _ _
        (λ h. mutable-Keeps pins i m (f m) h (k m)) (λ h. Keeps-refl _ m),
    change_mutable-AllKept f pins (suc i) ms k,
  )

  pub collapse_from-AllKept :
      (pins : Pins) (seen : List String) (i : ℕ) (ms : List (Message J))
      → AllKept pins i ms (collapse_from lib pins seen i ms)
  unfolding collapse_from
  collapse_from-AllKept pins seen i [] = tt
  collapse_from-AllKept pins seen i (m ∷ ms) = (
    if-Holds (Keeps (not (is_mutable pins i m)) m) _ _ _
        (λ h.
          mutable-Keeps pins i m (replace_text duplicate_stub_marker m) (ground arith)
            (replace_text-Keeps duplicate_stub_marker m))
        (λ h. Keeps-refl _ m),
    collapse_from-AllKept pins
        (if contains (dup_key lib m) seen then seen else dup_key lib m ∷ seen) (suc i) ms,
  )

  -- The message at an index, counted from i, may change.
  abbrev MayChange : Pins → ℕ → List (Message J) → ℕ → Type 0
  MayChange pins i [] k = ⊥
  MayChange pins i (m ∷ ms) zero = is_mutable pins i m ≡ true
  MayChange pins i (m ∷ ms) (suc k) = MayChange pins (suc i) ms k

  abbrev elided : ℕ → ℕ → List (Message J) → List (Message J)
  elided n k ms = elim (get_elem? ms k) [
    | none ↦ ms
    | some m ↦ set ms k (replace_text (elision_stub lib n) m)
  ]

  elided-suc :
      (n k : ℕ) (m : Message J) (ms : List (Message J))
      → elided n (suc k) (m ∷ ms) ≡ m ∷ elided n k ms
  elided-suc n k m ms = ground arith

  elided-AllKept :
      (pins : Pins) (n i k : ℕ) (ms : List (Message J))
      → MayChange pins i ms k
      → AllKept pins i ms (elided n k ms)
  elided-AllKept pins n i k [] h = elim h [ ]
  elided-AllKept pins n i zero (m ∷ ms) h = (
    mutable-Keeps pins i m (replace_text (elision_stub lib n) m) h
        (replace_text-Keeps (elision_stub lib n) m),
    AllKept-refl pins (suc i) ms,
  )
  elided-AllKept pins n i (suc k) (m ∷ ms) h =
      rw (elided-suc n k m ms) (Keeps-refl _ m, elided-AllKept pins n (suc i) k ms h)

  MayChange-AllKept :
      (pins : Pins) (i k : ℕ) (ms ns : List (Message J))
      → AllKept pins i ms ns
      → MayChange pins i ms k
      → MayChange pins i ns k
  unfolding is_mutable
  MayChange-AllKept pins i k [] ns a h = elim h [ ]
  MayChange-AllKept pins i k (m ∷ ms) [] a h = elim a [ ]
  MayChange-AllKept pins i zero (m ∷ ms) (n ∷ ns) (a, as') h = rw a.role h
  MayChange-AllKept pins i (suc k) (m ∷ ms) (n ∷ ns) (a, as') h =
      MayChange-AllKept pins (suc i) k ms ns as' h

  -- The candidates of a transcript may change.
  abbrev Candidate : Pins → ℕ → List (Message J) → ℕ → Type 0
  Candidate pins i ms j = (k : ℕ) × (j ≡ i + k) × MayChange pins i ms k

  weaken_candidates :
      (pins : Pins) (i : ℕ) (m : Message J) (ms : List (Message J)) (cs : List (ℕ × String))
      → Each (λ c. Candidate pins (suc i) ms c.0) cs
      → Each (λ c. Candidate pins i (m ∷ ms) c.0) cs
  weaken_candidates pins i m ms [] h = tt
  weaken_candidates pins i m ms ((j, doc) ∷ cs) ((k, e, may), h) =
      ((suc k, omega (arith, e), may), weaken_candidates pins i m ms cs h)

  candidates-Each :
      (pins : Pins) (i : ℕ) (ms : List (Message J))
      → Each (λ c. Candidate pins i ms c.0) (candidates lib pins i ms)
  unfolding candidates
  candidates-Each pins i [] = tt
  candidates-Each pins i (m ∷ ms) =
      let rest =
        weaken_candidates pins i m ms (candidates lib pins (suc i) ms)
          (candidates-Each pins (suc i) ms) in
      if-Holds (Each (λ c. Candidate pins i (m ∷ ms) c.0)) _ (candidates lib pins (suc i) ms)
        ((i, relevance_text lib m) ∷ candidates lib pins (suc i) ms) (λ h. rest)
        (λ h. ((0, omega arith, ground arith), rest))

  scored-Each :
      (P : ℕ → Type 0) (cs : List (ℕ × String)) (ss : List S)
      → Each (λ c. P c.0) cs
      → Each (λ c. P c.1) (scored lib cs ss)
  unfolding scored
  scored-Each P [] ss h = tt
  scored-Each P (c ∷ cs) [] h = tt
  scored-Each P ((i, doc) ∷ cs) (s ∷ ss) (p, h) = (p, scored-Each P cs ss h)

  insert-Each :
      (P : ℕ → Type 0) (c : S × ℕ) (cs : List (S × ℕ))
      → P c.1
      → Each (λ d. P d.1) cs
      → Each (λ d. P d.1) (insert_candidate lib c cs)
  unfolding insert_candidate
  insert-Each P c [] p h = (p, tt)
  insert-Each P c (d ∷ ds) p (q, h) =
      if-Holds (Each (λ d. P d.1)) (before lib d c) _ _ (λ e. (q, insert-Each P c ds p h))
        (λ e. (p, (q, h)))

  order-Each :
      (P : ℕ → Type 0) (cs : List (S × ℕ))
      → Each (λ d. P d.1) cs
      → Each (λ d. P d.1) (prune_order lib cs)
  unfolding prune_order
  order-Each P [] h = tt
  order-Each P (c ∷ cs) (p, h) = insert-Each P c (prune_order lib cs) p (order-Each P cs h)

  prune_loop-AllKept :
      (pins : Pins) (budget total : ℕ) (order : List (S × ℕ)) (ms ns : List (Message J))
      → Each (λ d. Candidate pins 0 ms d.1) order
      → AllKept pins 0 ms ns
      → AllKept pins 0 ms (prune_loop lib budget total order ns)
  unfolding prune_loop elide
  prune_loop-AllKept pins budget total [] ms ns c a = a
  prune_loop-AllKept pins budget total ((s, i) ∷ order) ms ns ((k, e, may), c) a =
      let same : k ≡ i = omega (arith, e) in
      let here = subst (λ q. MayChange pins 0 ms q) same may in
      let there = MayChange-AllKept pins 0 i ms ns a here in
      let next =
        AllKept-trans pins 0 ms ns (elided i i ns) a (elided-AllKept pins i 0 i ns there) in
      if-Holds (AllKept pins 0 ms) (leb total budget) _ _ (λ h. a)
        (λ h.
          prune_loop-AllKept pins budget (total + est_at lib i (elide lib i ns) - est_at lib i ns)
            order ms (elided i i ns) c next)

  ranked :
      (pins : Pins) (budget : ℕ) (query : Message J) (cs : List (ℕ × String))
      (ms : List (Message J))
      → Each (λ c. Candidate pins 0 ms c.0) cs
      → AllKept pins 0 ms (rank_candidates lib budget query cs ms)
  unfolding rank_candidates prune_scored
  ranked pins budget query [] ms h = AllKept-refl pins 0 ms
  ranked pins budget query (c ∷ cs) ms h =
      elim (lib.rank (lib.strip_pii (join_text_parts query.content)) (documents lib (c ∷ cs)))
        as (λ o.
          AllKept pins 0 ms
            (elim o [ none ↦ ms | some scores ↦ prune_scored lib budget (c ∷ cs) scores ms ])) [
              | none ↦ AllKept-refl pins 0 ms
              | some scores ↦
                  if-Holds (AllKept pins 0 ms) (any_of lib.is_positive scores) _ _
                    (λ e.
                      prune_loop-AllKept pins budget _
                        (prune_order lib (scored lib (c ∷ cs) scores)) ms ms
                        (order-Each (Candidate pins 0 ms) (scored lib (c ∷ cs) scores)
                          (scored-Each (Candidate pins 0 ms) (c ∷ cs) scores h))
                        (AllKept-refl pins 0 ms))
                    (λ e. AllKept-refl pins 0 ms)
            ]

  pub prune-AllKept :
      (pins : Pins) (budget : ℕ) (ms : List (Message J))
      → AllKept pins 0 ms (prune_by_relevance lib pins budget ms)
  unfolding prune_by_relevance
  prune-AllKept pins budget ms =
      elim pins.query_idx
        as (λ o. AllKept pins 0 ms (elim o [
          | none ↦ ms
          | some q ↦ (elim (get_elem? ms q) [
            | none ↦ ms
            | some query ↦ rank_candidates lib budget query (candidates lib pins 0 ms) ms
          ])
        ])) [
          | none ↦ AllKept-refl pins 0 ms
          | some q ↦
              elim (get_elem? ms q)
                as (λ o. AllKept pins 0 ms (elim o [
                  | none ↦ ms
                  | some query ↦ rank_candidates lib budget query (candidates lib pins 0 ms) ms
                ])) [
                  | none ↦ AllKept-refl pins 0 ms
                  | some query ↦
                      ranked pins budget query (candidates lib pins 0 ms) ms
                        (candidates-Each pins 0 ms)
                ]
        ]
