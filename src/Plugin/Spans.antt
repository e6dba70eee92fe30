-- ===== src/Plugin/Spans.antt =====
-- The merge of recognized spans, internal/plugin/pii/spans.go. An offset is a number, and
-- `sort.SliceStable` a stable sort by insertion.
use otto_gateway.Base.{ℕ, String, Bool, ◌&&◌, List, [], ◌∷◌, ◌++◌, if◌then◌else◌, ltb, any_of}

pub record Span : Type 0 where
  pub name : String
  pub value : String
  pub start : ℕ
  pub stop : ℕ

unfoldable pub overlaps : Span → Span → Bool
overlaps s t = ltb s.start t.stop && ltb t.start s.stop

-- A candidate is accepted where it overlaps nothing accepted before.
unfoldable pub accept_span : List Span → Span → List Span
unfolding overlaps
accept_span accepted cand =
    if any_of (overlaps cand) accepted then accepted else accepted ++ (cand ∷ [])

unfoldable pub accept_spans : List Span → List Span → List Span
unfolding accept_span
accept_spans accepted [] = accepted
accept_spans accepted (cand ∷ cands) = accept_spans (accept_span accepted cand) cands

-- Before the first that starts later: the order of equals is kept, from the right.
unfoldable pub insert_span : Span → List Span → List Span
insert_span s [] = s ∷ []
insert_span s (t ∷ ts) =
    let rest = insert_span s ts in if ltb t.start s.start then t ∷ rest else s ∷ t ∷ ts

unfoldable pub sort_spans : List Span → List Span
unfolding insert_span
sort_spans [] = []
sort_spans (s ∷ ss) = insert_span s (sort_spans ss)

unfoldable pub merge_spans_greedy : List Span → List Span → List Span
unfolding accept_spans sort_spans
merge_spans_greedy first second = sort_spans (accept_spans first second)
