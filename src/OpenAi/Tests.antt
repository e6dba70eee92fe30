-- ===== src/OpenAi/Tests.antt =====
-- The streamed answer of internal/adapter/openai at concrete streams.
use otto_gateway.Base.{◌≡◌, refl, String, none, some, List, [], ◌∷◌}
use otto_gateway.Anthropic.Stream.{Chunk, text, tool_call, end_turn}
use otto_gateway.OpenAi.Frames.{
  role_delta, content_delta, call_header, call_arguments, finish, done_frame,
}
use otto_gateway.OpenAi.Emitter.{ChatRequest, new_sse_emitter, sse_loop}
use otto_gateway.OpenAi.Outcome.{finishes, streamed, EndsAs, sse_loop-EndsAs}

abbrev chat : ChatRequest String
chat = record {
  model = "m";
  tools = "ls" ∷ [];
  aliases = [];
  marshal = λ a. some "{}";
  extract = λ s ts. [];
  coerce = λ s. none;
  fresh_id = λ n. "call_1";
}

-- A text, a call that comes twice, and one of a tool that is not offered.
abbrev mixed : List (Chunk String)
mixed =
    text (some "hi")
    ∷ tool_call (some (record { id = "a"; name = "ls"; args = [] }))
    ∷ tool_call (some (record { id = "b"; name = "ls"; args = [] }))
    ∷ tool_call (some (record { id = "c"; name = "rm"; args = [] }))
    ∷ []

sse_loop-EndsAs_example :
    EndsAs chat
      (finishes end_turn)
      (sse_loop chat (streamed mixed (finishes end_turn)) (new_sse_emitter 20))
sse_loop-EndsAs_example = sse_loop-EndsAs chat mixed (finishes end_turn) 20

mixed_sent :
    (sse_loop chat (streamed mixed (finishes end_turn)) (new_sse_emitter 20)).0.sent
    ≡ role_delta
      ∷ content_delta "hi"
      ∷ call_header 0 "a" "ls"
      ∷ call_arguments 0 "{}"
      ∷ finish "tool_calls"
      ∷ done_frame
      ∷ []
unfolding sse_loop
mixed_sent = refl
