-- ===== src/Plugin/Tests.antt =====
-- Runs of the hook filter and of the merge of spans, internal/plugin.
use otto_gateway.Base.{◌≡◌, refl, String, true, not, ◌||◌, [], ◌∷◌, any_of}
use otto_gateway.Plugin.Chain.{
  Chain, unknown_hooks, kept, keep_if, is_allowed, or_unknown, filter_chain,
}
use otto_gateway.Plugin.Allowed.{has_name, filter_chain-eq}
use otto_gateway.Plugin.Spans.{Span, merge_spans_greedy}
use otto_gateway.Plugin.Disjoint.{all_apart, ordered, all_met, merge_spans_greedy-IsMerged}

-- A hook is its own name.
abbrev itself : String → String
itself h = h

abbrev chain : Chain String
chain = record {
  pre = "RequestIDHook" ∷ "AuthHook" ∷ "LoggingHook" ∷ [];
  post = "LoggingHook" ∷ [];
}

filter_test :
    filter_chain itself chain ("LoggingHook" ∷ "AuthHook" ∷ [])
    ≡ kept (record { pre = "AuthHook" ∷ "LoggingHook" ∷ []; post = "LoggingHook" ∷ [] })
unfolding filter_chain
filter_test = refl

typo_test : filter_chain itself chain ("AuthHook" ∷ "Logging" ∷ []) ≡ unknown_hooks ("Logging" ∷ [])
unfolding filter_chain
typo_test = refl

filter_chain-eq_example :
    filter_chain itself chain ("LoggingHook" ∷ "AuthHook" ∷ [])
    ≡ or_unknown itself
        (keep_if
          (λ m. not (any_of (has_name itself m) chain.pre || any_of (has_name itself m) chain.post))
          ("LoggingHook" ∷ "AuthHook" ∷ []))
        (record {
          pre = keep_if (is_allowed itself ("LoggingHook" ∷ "AuthHook" ∷ [])) chain.pre;
          post = keep_if (is_allowed itself ("LoggingHook" ∷ "AuthHook" ∷ [])) chain.post;
        })
filter_chain-eq_example = filter_chain-eq itself chain "LoggingHook" ("AuthHook" ∷ [])

abbrev email : Span
email = record { name = "Email"; value = "ann@example.com"; start = 10; stop = 25 }

abbrev person : Span
person = record { name = "PERSON"; value = "ann"; start = 10; stop = 13 }

abbrev place : Span
place = record { name = "LOCATION"; value = "Oslo"; start = 2; stop = 6 }

merge_test : merge_spans_greedy (email ∷ []) (person ∷ place ∷ []) ≡ place ∷ email ∷ []
unfolding merge_spans_greedy
merge_test = refl

merge_spans_greedy-IsMerged_example :
    (all_apart (merge_spans_greedy (email ∷ []) (person ∷ place ∷ [])) ≡ true)
    × (ordered (merge_spans_greedy (email ∷ []) (person ∷ place ∷ [])) ≡ true)
    × (all_met (merge_spans_greedy (email ∷ []) (person ∷ place ∷ [])) (person ∷ place ∷ []) ≡ true)
merge_spans_greedy-IsMerged_example =
    merge_spans_greedy-IsMerged (email ∷ []) (person ∷ place ∷ []) refl
