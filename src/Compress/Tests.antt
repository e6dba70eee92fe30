-- ===== src/Compress/Tests.antt =====
-- The compression of internal/plugin/compress at a concrete transcript.
use otto_gateway.Base.{ℕ, suc, ◌≡◌, refl, String, true, none, some, List, [], ◌∷◌, ltb}
use otto_gateway.Compress.Message.{
  MessageRole, user, assistant, tool, text_part, Message, est_messages_tokens,
}
use otto_gateway.Compress.Stages.{Library, rune_safe_cut, rune_safe_tail}
use otto_gateway.Compress.Prune.{prune_loop}
use otto_gateway.Compress.Hook.{Hook, before_request}
use otto_gateway.Compress.Protected.{Preserved}
use otto_gateway.Compress.Whole.{before_request-Preserved}
use otto_gateway.Compress.Minimal.{Stops, prune_loop-Stops}

-- Every document scores one more than the one before it.
abbrev numbers : ℕ → List String → List ℕ
numbers n [] = []
numbers n (d ∷ ds) = n ∷ numbers (suc n) ds

abbrev small_library : Library String ℕ
small_library = record {
  marshal = λ a. "{}";
  format = λ n. "9";
  strip_trailing = λ s. s;
  join_newlines = λ s. s;
  strip_pii = λ s. s;
  has_terms = λ s. true;
  rank = λ q ds. some (numbers 1 ds);
  lower = ltb;
  is_positive = λ n. ltb 0 n;
}

abbrev says : MessageRole → String → Message String
says r s = record {
  role = r;
  content =
      record { kind = text_part; text = s; image = none; tool_use = none; tool_result = none } ∷ [];
  tool_calls = [];
  tool_call_id = "";
}

abbrev dialogue : List (Message String)
dialogue =
    says user "what is the weather in Berlin today"
    ∷ says assistant "sunny with some clouds"
    ∷ says tool "twenty degrees"
    ∷ says user "and in Rome"
    ∷ []

abbrev tight : Hook
tight = record {
  enabled = true;
  trigger_tokens = 1;
  budget_tokens = 2;
  protect_tail = 1;
  tool_keep = 4;
  eligible = 0;
  runs = 0;
  saved_tok = 0;
  budget_unmet = 0;
}

before_request-Preserved_example :
    Preserved small_library tight 4 0 dialogue
      (before_request small_library tight none (some true) dialogue).1
before_request-Preserved_example =
    before_request-Preserved small_library tight none (some true) dialogue

prune_loop-Stops_example :
    (k : ℕ) × Stops small_library 9 k ((1, 1) ∷ (2, 0) ∷ []) dialogue (
      prune_loop small_library 9
        (est_messages_tokens small_library.marshal dialogue)
        ((1, 1) ∷ (2, 0) ∷ [])
        dialogue)
prune_loop-Stops_example = prune_loop-Stops small_library 9 ((1, 1) ∷ (2, 0) ∷ []) dialogue

-- A cut keeps whole runes.
cut_between_runes : rune_safe_cut "aé" 2 ≡ "a"
unfolding rune_safe_cut
cut_between_runes = refl

tail_between_runes : rune_safe_tail "éa" 2 ≡ "a"
unfolding rune_safe_tail
tail_between_runes = refl

estimated : est_messages_tokens small_library.marshal dialogue ≡ 22
unfolding est_messages_tokens
estimated = refl
