-- ===== src/Anthropic/Tests.antt =====
-- Runs of the emitter of internal/adapter/anthropic/sse.go.
use otto_gateway.Base.{ℕ, ◌≡◌, refl, true, false, String, some, List, [], ◌∷◌, ◌++◌, ◌⊎◌}
use otto_gateway.Anthropic.Frames.{
  text_header, tool_header, message_start, block_start, text_delta, json_delta, block_stop,
  message_delta, message_stop, Client, waiting, finished, reads,
}
use otto_gateway.Anthropic.Emitter.{Request}
use otto_gateway.Anthropic.Stream.{
  text, thought, tool_call, unknown, end_turn, Signal, chunk, tick, disconnects, ends, loop,
  apply_chunk, run_emitter,
}
use otto_gateway.Anthropic.Ending.{run_emitter-ends}
use otto_gateway.Anthropic.Legible.{run_emitter-IsLegible}
use otto_gateway.Anthropic.Hooks.{hook_response, content_text}

abbrev request : Request ℕ
request = record {
  tools = "grep" ∷ [];
  aliases = [];
  marshal = λ args. some "{\"q\":1}";
  extract = λ s tools. [];
}

abbrev grep_call : List (String × ℕ) → Signal ℕ
grep_call args = chunk (tool_call (some (record { id = "t1"; name = "grep"; args = args })))

-- A thought, a text that is held back, a placeholder of a call, and the call.
abbrev signals : List (Signal ℕ)
signals =
    chunk (thought (some "hm"))
    ∷ chunk (text (some "hi"))
    ∷ tick
    ∷ grep_call []
    ∷ grep_call (("q", 1) ∷ [])
    ∷ []

-- The text comes before the call, whose placeholder is not given empty arguments.
run_test :
    (run_emitter request "m"
      (chunk (text (some "hi"))
        ∷ grep_call []
        ∷ grep_call (("q", 1) ∷ [])
        ∷ ends (some end_turn)
        ∷ [])
      20).0.sent
    ≡ message_start "m"
      ∷ block_start 0 text_header
      ∷ text_delta 0 "hi"
      ∷ block_stop 0
      ∷ block_start 1 (tool_header "t1" "grep")
      ∷ json_delta 1 "{\"q\":1}"
      ∷ block_stop 1
      ∷ message_delta (some "tool_use")
      ∷ message_stop
      ∷ []
unfolding run_emitter
run_test = refl

run_emitter-ends_example :
    (let r = run_emitter request "m" (signals ++ (ends (some end_turn) ∷ [])) 20 in
      (r.1 ≡ true) × (reads waiting r.0.sent ≡ some finished) ⊎ (r.1 ≡ false) × (r.0.budget ≡ 0))
run_emitter-ends_example = run_emitter-ends request "m" signals end_turn 20 refl

run_emitter-IsLegible_example :
    (d : Client) × (reads waiting (run_emitter request "m" signals 4).0.sent ≡ some d)
run_emitter-IsLegible_example = run_emitter-IsLegible request "m" signals 4

-- A client that goes away while a text is held back: the hooks are given the text all the same.
held_back :
    (let e = (run_emitter request "m" (chunk (text (some "hi")) ∷ disconnects ∷ []) 20).0 in
      content_text (hook_response unknown e).content)
    ≡ "hi"
unfolding run_emitter loop apply_chunk hook_response content_text
held_back = refl
