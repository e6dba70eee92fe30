-- ===== src/Plugin/Disjoint.antt =====
-- What the merge of internal/plugin/pii/spans.go gives.
use otto_gateway.Base.{
  ◌≡◌, refl, ◌∙◌, Bool, true, false, not, ◌&&◌, ◌||◌, List, [], ◌∷◌, ◌++◌, ltb, leb, any_of,
  Bool-cases, inl, inr, arith,
}
use otto_gateway.Plugin.Spans.{
  Span, overlaps, accept_span, accept_spans, insert_span, sort_spans, merge_spans_greedy,
}

-- No two spans of the list overlap.
abbrev pub all_apart : List Span → Bool
all_apart [] = true
all_apart (s ∷ ss) = not (any_of (overlaps s) ss) && all_apart ss

-- Each span starts where the next one does, or before.
abbrev pub ordered : List Span → Bool
ordered [] = true
ordered (s ∷ []) = true
ordered (s ∷ t ∷ ss) = leb s.start t.start && ordered (t ∷ ss)

overlaps_sym : (s t : Span) → overlaps s t ≡ overlaps t s
unfolding overlaps
overlaps_sym s t = ground arith

any_of-insert :
    (s t : Span) (ss : List Span)
    → any_of (overlaps s) (insert_span t ss) ≡ (overlaps s t || any_of (overlaps s) ss)
unfolding insert_span
any_of-insert s t [] = ground arith
any_of-insert s t (u ∷ ss) = ground (arith, any_of-insert s t ss)

any_of-sort :
    (s : Span) (ss : List Span) → any_of (overlaps s) (sort_spans ss) ≡ any_of (overlaps s) ss
unfolding sort_spans
any_of-sort s [] = refl
any_of-sort s (t ∷ ss) = ground (arith, any_of-insert s t (sort_spans ss), any_of-sort s ss)

any_of-snoc :
    (s t : Span) (ss : List Span)
    → any_of (overlaps s) (ss ++ (t ∷ [])) ≡ (overlaps s t || any_of (overlaps s) ss)
any_of-snoc s t [] = ground arith
any_of-snoc s t (u ∷ ss) = ground (arith, any_of-snoc s t ss)

apart-insert :
    (s : Span) (ss : List Span)
    → all_apart ss ≡ true
    → any_of (overlaps s) ss ≡ false
    → all_apart (insert_span s ss) ≡ true
unfolding insert_span
apart-insert s [] h g = ground arith
apart-insert s (t ∷ ss) h g =
    ground (arith, apart-insert s ss, any_of-insert t s ss, overlaps_sym s t)

apart-sort : (ss : List Span) → all_apart ss ≡ true → all_apart (sort_spans ss) ≡ true
unfolding sort_spans
apart-sort [] h = refl
apart-sort (s ∷ ss) h =
    apart-insert s (sort_spans ss) (apart-sort ss (ground arith)) (any_of-sort s ss ∙ ground arith)

apart-snoc :
    (s : Span) (ss : List Span)
    → all_apart ss ≡ true
    → any_of (overlaps s) ss ≡ false
    → all_apart (ss ++ (s ∷ [])) ≡ true
apart-snoc s [] h g = ground arith
apart-snoc s (t ∷ ss) h g = ground (arith, apart-snoc s ss, any_of-snoc t s ss, overlaps_sym s t)

apart-accept :
    (acc cands : List Span) → all_apart acc ≡ true → all_apart (accept_spans acc cands) ≡ true
unfolding accept_spans accept_span
apart-accept acc [] h = h
apart-accept acc (c ∷ cands) h = elim (Bool-cases (any_of (overlaps c) acc)) [
  | inl e ↦ rw e (apart-accept acc cands h)
  | inr e ↦ rw e (apart-accept (acc ++ (c ∷ [])) cands (apart-snoc c acc h e))
]

ordered-insert : (s : Span) (ss : List Span) → ordered ss ≡ true → ordered (insert_span s ss) ≡ true
unfolding insert_span
ordered-insert s [] h = refl
ordered-insert s (t ∷ []) h = ground arith
ordered-insert s (t ∷ u ∷ ss) h = ground (arith, ordered-insert s (u ∷ ss))

ordered-sort : (ss : List Span) → ordered (sort_spans ss) ≡ true
unfolding sort_spans
ordered-sort [] = refl
ordered-sort (s ∷ ss) = ordered-insert s (sort_spans ss) (ordered-sort ss)

-- What overlaps an accepted span still does after more were accepted.
still-accept :
    (s : Span) (acc cands : List Span)
    → any_of (overlaps s) acc ≡ true
    → any_of (overlaps s) (accept_spans acc cands) ≡ true
unfolding accept_spans accept_span
still-accept s acc [] h = h
still-accept s acc (c ∷ cands) h = elim (Bool-cases (any_of (overlaps c) acc)) [
  | inl e ↦ rw e (still-accept s acc cands h)
  | inr e ↦ rw e (still-accept s (acc ++ (c ∷ [])) cands (ground (arith, any_of-snoc s c acc)))
]

abbrev nonempty : Span → Bool
nonempty s = ltb s.start s.stop

-- Every span of the second list that is not empty overlaps one of the first.
abbrev pub all_met : List Span → List Span → Bool
all_met acc [] = true
all_met acc (c ∷ cands) = (not (nonempty c) || any_of (overlaps c) acc) && all_met acc cands

meets :
    (c : Span) (acc : List Span)
    → nonempty c ≡ true
    → any_of (overlaps c) (accept_span acc c) ≡ true
unfolding accept_span overlaps
meets c acc m = elim (Bool-cases (any_of (overlaps c) acc)) [
  | inl e ↦ ground arith
  | inr e ↦ ground (arith, any_of-snoc c c acc)
]

both : (b c d : Bool) → (b ≡ true → c ≡ true) → d ≡ true → ((not b || c) && d) ≡ true
both true c d h g = ground (arith, h refl)
both false c d h g = g

met-accept : (acc cands : List Span) → all_met (accept_spans acc cands) cands ≡ true
unfolding accept_spans
met-accept acc [] = refl
met-accept acc (c ∷ cands) =
    both (nonempty c) _ _ (λ m. still-accept c (accept_span acc c) cands (meets c acc m))
      (met-accept (accept_span acc c) cands)

met-sort : (ss cands : List Span) → all_met ss cands ≡ true → all_met (sort_spans ss) cands ≡ true
met-sort ss [] h = refl
met-sort ss (c ∷ cands) h = ground (arith, any_of-sort c ss, met-sort ss cands)

-- Where no two spans of the first list overlap, no two spans of the merge do, the merge is in the order of
-- the starts, and every span of the second list that is not empty overlaps one of the merge: none is
-- dropped without another in its place.
pub merge_spans_greedy-IsMerged :
    (first second : List Span)
    → all_apart first ≡ true
    → (all_apart (merge_spans_greedy first second) ≡ true)
      × (ordered (merge_spans_greedy first second) ≡ true)
      × (all_met (merge_spans_greedy first second) second ≡ true)
unfolding merge_spans_greedy
merge_spans_greedy-IsMerged first second h =
    let acc = accept_spans first second in
    (
      apart-sort acc (apart-accept first second h),
      ordered-sort acc,
      met-sort acc second (met-accept first second),
    )
