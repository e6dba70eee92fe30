-- ===== src/Compress/Hook.antt =====
-- `Hook` of internal/plugin/compress/hook.go: Before and compress. A stage changes a copy of the
-- messages, and the counters are numbers.
use otto_gateway.Base.{
  ℕ, suc, ◌+◌, ◌-◌, Bool, Option, none, some, List, [], ◌∷◌, length, ltb, leb, if◌then◌else◌,
}
use otto_gateway.Compress.Message.{Message, est_messages_tokens}
use otto_gateway.Compress.Stages.{
  Library, Pins, normalize_message_whitespace, truncate_tool_results,
}
use otto_gateway.Compress.Prune.{is_mutable, find_pinned, collapse_from, prune_by_relevance}

pub record Hook : Type 0 where
  pub enabled : Bool
  pub trigger_tokens : ℕ
  pub budget_tokens : ℕ
  pub protect_tail : ℕ
  pub tool_keep : ℕ
  pub eligible : ℕ
  pub runs : ℕ
  pub saved_tok : ℕ
  pub budget_unmet : ℕ

-- The header's directive counts before the request's, and that before the default.
abbrev pub effective : Bool → Option Bool → Option Bool → Bool
effective enabled metadata none = elim metadata [ none ↦ enabled | some v ↦ v ]
effective enabled metadata (some v) = v

module _ {J S : Type 0} (lib : Library J S) where
  -- A stage that changes each message by itself.
  unfoldable pub change_mutable :
      (Message J → Message J) → Pins → ℕ → List (Message J) → List (Message J)
  unfolding is_mutable
  change_mutable f pins i [] = []
  change_mutable f pins i (m ∷ ms) =
      (if is_mutable pins i m then f m else m) ∷ change_mutable f pins (suc i) ms

  unfoldable pub over_budget : ℕ → List (Message J) → Bool
  unfolding est_messages_tokens
  over_budget budget ms = ltb budget (est_messages_tokens lib.marshal ms)

  unfoldable pub if_over :
      ℕ → (List (Message J) → List (Message J)) → List (Message J) → List (Message J)
  unfolding over_budget
  if_over budget stage ms = if over_budget budget ms then stage ms else ms

  -- The four stages.
  unfoldable pub run_stages : Hook → Pins → List (Message J) → List (Message J)
  unfolding change_mutable if_over collapse_from prune_by_relevance normalize_message_whitespace
      truncate_tool_results
  run_stages h pins ms =
      let cleaned = change_mutable (normalize_message_whitespace lib) pins 0 ms in
      let truncated =
        if_over h.budget_tokens (change_mutable (truncate_tool_results lib h.tool_keep) pins 0)
          cleaned in
      let collapsed = if_over h.budget_tokens (collapse_from lib pins [] 0) truncated in
      if_over h.budget_tokens (prune_by_relevance lib pins h.budget_tokens) collapsed

  abbrev pub counted : Hook → ℕ → ℕ → Hook
  counted h start after =
      let unmet =
        if ltb h.budget_tokens after then record h { budget_unmet = suc h.budget_unmet } else h in
      if ltb after start
      then record unmet { runs = suc h.runs; saved_tok = h.saved_tok + (start - after) }
      else unmet

  unfoldable pub pins_of : Hook → List (Message J) → Pins
  unfolding find_pinned
  pins_of h ms = find_pinned lib (length ms - h.protect_tail) ms

  unfoldable pub compress : Hook → List (Message J) → Hook × List (Message J)
  unfolding run_stages pins_of est_messages_tokens
  compress h ms =
      let start = est_messages_tokens lib.marshal ms in
      if ltb start h.trigger_tokens
      then (h, ms)
      else if leb start h.budget_tokens
      then (h, ms)
      else let after = run_stages h (pins_of h ms) ms in
        (
          counted (record h { eligible = suc h.eligible }) start
              (est_messages_tokens lib.marshal after),
          after,
        )

  unfoldable pub before_request :
      Hook → Option Bool → Option Bool → List (Message J) → Hook × List (Message J)
  unfolding compress
  before_request h metadata header [] = (h, [])
  before_request h metadata header (m ∷ ms) =
      if effective h.enabled metadata header then compress h (m ∷ ms) else (h, m ∷ ms)
