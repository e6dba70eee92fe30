-- ===== src/Engine/ToolCalls.antt =====
-- internal/engine/toolcall_resolve.go: which tool a worker's own call is surfaced as, and the
-- collapse of repeated calls. A value of JSON is opaque, and `json.Marshal` of a map a parameter,
-- none where it fails.
use otto_gateway.Base.{
  ℕ, zero, suc, String, Bool, true, false, Option, none, some, List, [], ◌∷◌, ◌++◌, map, length,
  str_eq, is_blank, concat, if◌then◌else◌,
}
use otto_gateway.Pool.State.{lookup, assign}
use otto_gateway.Catalog.Models.{contains, sort_strings}

-- The names of the tools that the caller offers stand for the tools.
unfoldable pub tool_offered : String → List String → Bool
tool_offered name [] = false
tool_offered name (t ∷ ts) = if str_eq t name then true else tool_offered name ts

-- The name to surface, or none for a call that is dropped.
unfoldable pub resolve_native_tool_name :
    String → List String → List (String × String) → Option String
unfolding tool_offered lookup
resolve_native_tool_name name [] aliases = some name
resolve_native_tool_name name (t ∷ ts) aliases =
    if tool_offered name (t ∷ ts) then some name else elim (lookup name aliases) [
      | none ↦ none
      | some alias ↦ if tool_offered alias (t ∷ ts) then some alias else none
    ]

-- `strings.Join(keys, ",")`
unfoldable pub join_keys : List String → String
unfolding concat
join_keys [] = ""
join_keys (k ∷ []) = k
join_keys (k ∷ (l ∷ ls)) = concat k (concat "," (join_keys (l ∷ ls)))

pub record ToolCall (J : Type 0) : Type 0 where
  pub id : String
  pub name : String
  pub arguments : List (String × J)

module _ {J : Type 0} where
  -- The arguments and the name that a later frame of the same call supplies.
  unfoldable pub supply : ToolCall J → ToolCall J → ToolCall J
  supply x c = record x {
    arguments = elim x.arguments [ [] ↦ c.arguments | a ∷ args ↦ x.arguments ];
    name = if is_blank x.name then c.name else x.name;
  }

  unfoldable pub supply_at : List (ToolCall J) → ℕ → ToolCall J → List (ToolCall J)
  unfolding supply
  supply_at [] i c = []
  supply_at (x ∷ xs) zero c = supply x c ∷ xs
  supply_at (x ∷ xs) (suc i) c = x ∷ supply_at xs i c

  -- The first loop, with the index of each id and the calls merged so far.
  unfoldable pub merge_by_id :
      List (String × ℕ) → List (ToolCall J) → List (ToolCall J) → List (ToolCall J)
  unfolding lookup assign supply_at
  merge_by_id by_id merged [] = merged
  merge_by_id by_id merged (c ∷ cs) =
      if is_blank c.id
      then merge_by_id by_id (merged ++ (c ∷ [])) cs
      else elim (lookup c.id by_id) [
        | none ↦ merge_by_id (assign c.id (length merged) by_id) (merged ++ (c ∷ [])) cs
        | some i ↦ merge_by_id by_id (supply_at merged i c) cs
      ]

  module _ (marshal : List (String × J) → Option String) where
    unfoldable pub canonical_args : List (String × J) → String
    unfolding join_keys sort_strings
    canonical_args [] = "null"
    canonical_args (a ∷ args) = elim (marshal (a ∷ args)) [
      | none ↦ join_keys (sort_strings (map (λ x. x.0) (a ∷ args)))
      | some s ↦ s
    ]

    -- `c.Name + "\x00" + canonicalArgs(c.Arguments)`
    unfoldable pub call_key : ToolCall J → String
    unfolding concat canonical_args
    call_key c = concat c.name (concat "\0" (canonical_args c.arguments))

    -- The second loop, with the keys seen so far.
    unfoldable pub collapse : List String → List (ToolCall J) → List (ToolCall J)
    unfolding contains call_key
    collapse seen [] = []
    collapse seen (c ∷ cs) =
        if contains (call_key c) seen then collapse seen cs else c ∷ collapse (call_key c ∷ seen) cs

    unfoldable pub dedup_tool_calls : List (ToolCall J) → List (ToolCall J)
    unfolding merge_by_id collapse
    dedup_tool_calls calls = collapse [] (merge_by_id [] [] calls)
