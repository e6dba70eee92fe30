-- ===== src/Engine/Tests.antt =====
-- The tool calls of internal/engine at concrete turns.
use otto_gateway.Base.{arith, ◌≡◌, refl, String, true, Option, none, some, List, [], ◌∷◌, sum_of}
use otto_gateway.Engine.ToolCalls.{
  ToolCall, dedup_tool_calls, merge_by_id, call_key, tool_offered, resolve_native_tool_name,
}
use otto_gateway.Engine.Dedup.{has_key, dedup_once, resolved_offered}

-- A marshaller of texts that writes the first key.
abbrev first_key : List (String × String) → Option String
first_key [] = none
first_key ((k, v) ∷ m) = some k

abbrev announced : ToolCall String
announced = record { id = "1"; name = "shell"; arguments = [] }

abbrev called : ToolCall String
called = record { id = "1"; name = "shell"; arguments = ("command", "ls") ∷ [] }

abbrev retried : ToolCall String
retried = record { id = "2"; name = "shell"; arguments = ("command", "ls") ∷ [] }

abbrev turn : List (ToolCall String)
turn = announced ∷ called ∷ retried ∷ []

merged_once : dedup_tool_calls first_key turn ≡ called ∷ []
unfolding dedup_tool_calls merge_by_id
merged_once = refl

dedup_once_example :
    sum_of (has_key first_key "shell\0command") (dedup_tool_calls first_key turn) ≡ 1
unfolding merge_by_id call_key
dedup_once_example = dedup_once first_key "shell\0command" turn

resolved_offered_example : tool_offered "run_shell" ("search" ∷ "run_shell" ∷ []) ≡ true
unfolding resolve_native_tool_name
resolved_offered_example =
    resolved_offered "execute" "run_shell" ("search" ∷ "run_shell" ∷ [])
      (("execute", "run_shell") ∷ []) (λ e. absurd (ground arith)) refl
