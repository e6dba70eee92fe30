-- ===== src/Engine/Dedup.antt =====
-- What the collapse of tool calls in internal/engine/toolcall_resolve.go leaves.
use otto_gateway.Base.{
  ◌≢◌, Option-cases, ℕ, ◌≡◌, refl, String, Bool, true, false, Option, some, List, [], ◌∷◌, arith,
  sum_of, str_eq, eq_iff, Bool-cases, inl, inr, if◌then◌else◌,
}
use otto_gateway.Pool.State.{lookup}
use otto_gateway.Catalog.Models.{contains}
use otto_gateway.Engine.ToolCalls.{
  ToolCall, merge_by_id, call_key, collapse, dedup_tool_calls, tool_offered,
  resolve_native_tool_name,
}

module _ {J : Type 0} (marshal : List (String × J) → Option String) where
  -- 1 for a call with the key, else 0, and whether some call has it.
  abbrev pub has_key : String → ToolCall J → ℕ
  has_key k c = if str_eq (call_key marshal c) k then 1 else 0

  abbrev pub some_key : String → List (ToolCall J) → Bool
  some_key k [] = false
  some_key k (c ∷ cs) = if str_eq (call_key marshal c) k then true else some_key k cs

  collapse-count :
      (k : String) (seen : List String) (cs : List (ToolCall J))
      → sum_of (has_key k) (collapse marshal seen cs)
        ≡ (if contains k seen then 0 else if some_key k cs then 1 else 0)
  unfolding collapse contains
  collapse-count k seen [] = ground arith
  collapse-count k seen (c ∷ cs) = ground (
    arith,
    collapse-count k seen cs,
    collapse-count k (call_key marshal c ∷ seen) cs,
    eq_iff (call_key marshal c) k,
  )

  -- For each key, a name with its arguments: the result has one call with it if some call has it
  -- after the merge by id, else none.
  pub dedup_once :
      (k : String) (calls : List (ToolCall J))
      → sum_of (has_key k) (dedup_tool_calls marshal calls)
        ≡ (if some_key k (merge_by_id [] [] calls) then 1 else 0)
  unfolding dedup_tool_calls contains
  dedup_once k calls = collapse-count k [] (merge_by_id [] [] calls)

-- Where the caller offers tools, a call that is surfaced is surfaced under the name of one of them.
pub resolved_offered :
    (name resolved : String) (tools : List String) (aliases : List (String × String))
    → tools ≢ []
    → resolve_native_tool_name name tools aliases ≡ some resolved
    → tool_offered resolved tools ≡ true
unfolding resolve_native_tool_name
resolved_offered name resolved [] aliases offers h = absurd (offers refl)
resolved_offered name resolved (t ∷ ts) aliases offers h =
    elim (Bool-cases (tool_offered name (t ∷ ts))) [
      | inl own ↦ ground arith
      | inr foreign ↦ elim (Option-cases (lookup name aliases)) [
        | inl n ↦ absurd (ground arith)
        | inr (alias, e) ↦ ground arith
      ]
    ]
