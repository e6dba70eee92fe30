-- ===== src/Compress/Whole.antt =====
-- The transcript that internal/plugin/compress/hook.go hands on.
use otto_gateway.Base.{ℕ, Bool, Option, List, [], ◌∷◌, if-Holds, arith, length}
use otto_gateway.Compress.Message.{Message}
use otto_gateway.Compress.Stages.{
  Library, Pins, normalize_message_whitespace, truncate_tool_results,
}
use otto_gateway.Compress.Prune.{collapse_from, prune_by_relevance}
use otto_gateway.Compress.Hook.{
  Hook, change_mutable, over_budget, if_over, run_stages, pins_of, compress, before_request,
}
use otto_gateway.Compress.Kept.{AllKept, AllKept-refl, AllKept-trans}
use otto_gateway.Compress.Protected.{Preserved, AllKept-pins_of}
use otto_gateway.Compress.Intact.{
  normalize-Keeps, truncate-Keeps, change_mutable-AllKept, collapse_from-AllKept, prune-AllKept,
}

module _ {J S : Type 0} (lib : Library J S) where
  if_over-AllKept :
      (pins : Pins) (budget : ℕ) (stage : List (Message J) → List (Message J))
      (ms ns : List (Message J))
      → ((os : List (Message J)) → AllKept pins 0 os (stage os))
      → AllKept pins 0 ms ns
      → AllKept pins 0 ms (if_over lib budget stage ns)
  unfolding if_over
  if_over-AllKept pins budget stage ms ns k a =
      if-Holds (AllKept pins 0 ms) (over_budget lib budget ns) _ _
        (λ h. AllKept-trans pins 0 ms ns (stage ns) a (k ns)) (λ h. a)

  run_stages-AllKept :
      (h : Hook) (pins : Pins) (ms : List (Message J))
      → AllKept pins 0 ms (run_stages lib h pins ms)
  unfolding run_stages
  run_stages-AllKept h pins ms =
      let keep = truncate_tool_results lib h.tool_keep in
      let clean = normalize_message_whitespace lib in
      if_over-AllKept pins h.budget_tokens (prune_by_relevance lib pins h.budget_tokens) ms _
        (prune-AllKept lib pins h.budget_tokens)
        (if_over-AllKept pins h.budget_tokens (collapse_from lib pins [] 0) ms _
          (collapse_from-AllKept lib pins [] 0)
          (if_over-AllKept pins h.budget_tokens (change_mutable lib keep pins 0) ms _
            (λ os. change_mutable-AllKept lib keep pins 0 os (truncate-Keeps lib h.tool_keep))
            (change_mutable-AllKept lib clean pins 0 ms (normalize-Keeps lib))))

  compress-AllKept :
      (h : Hook) (ms : List (Message J)) → AllKept (pins_of lib h ms) 0 ms (compress lib h ms).1
  unfolding compress
  compress-AllKept h ms =
      let pins = pins_of lib h ms in
      ground (arith, AllKept-refl pins 0 ms, run_stages-AllKept h pins ms)

  before_request-AllKept :
      (h : Hook) (metadata header : Option Bool) (ms : List (Message J))
      → AllKept (pins_of lib h ms) 0 ms (before_request lib h metadata header ms).1
  unfolding before_request
  before_request-AllKept h metadata header [] = tt
  before_request-AllKept h metadata header (m ∷ ms) =
      ground (arith, compress-AllKept h (m ∷ ms), AllKept-refl (pins_of lib h (m ∷ ms)) 0 (m ∷ ms))

  -- However the hook is configured and whatever the budget, the transcript keeps its length and the
  -- order of its messages. A system message, one of the last `protect_tail` messages, the newest
  -- message that is not a system message, and the newest message of the user that has a term pass
  -- unchanged. Every message keeps its role, its tool calls, its tool call id, its images and tool
  -- uses, and its tool results but for their content.
  pub before_request-Preserved :
      (h : Hook) (metadata header : Option Bool) (ms : List (Message J))
      → Preserved lib h (length ms) 0 ms (before_request lib h metadata header ms).1
  before_request-Preserved h metadata header ms =
      AllKept-pins_of lib h ms (before_request lib h metadata header ms).1
        (before_request-AllKept h metadata header ms)
