-- ===== src/Anthropic/Hooks.antt =====
-- `aggregatedResponse` of internal/adapter/anthropic/sse.go: the response that the hooks are given.
use otto_gateway.Base.{
  String, not, ◌&&◌, ◌≡◌, refl, ap, ◌∙◌, List, [], ◌∷◌, ◌++◌, map, concat, concat-nil,
  if◌then◌else◌,
}
use otto_gateway.Engine.ToolCalls.{ToolCall}
use otto_gateway.Anthropic.Emitter.{Emitter}
use otto_gateway.Anthropic.Stream.{StopReason}

pub data ResponsePart (J : Type 0) : Type 0 where
  text_part thinking_part : String → ResponsePart J
  tool_use_part : ToolCall J → ResponsePart J

pub record HookResponse (J : Type 0) : Type 0 where
  pub model : String
  pub content : List (ResponsePart J)
  pub tool_calls : List (ToolCall J)
  pub stop_reason : StopReason

module _ {J : Type 0} where
  -- The text that is held back and not settled.
  abbrev pub unsettled : Emitter J → String
  unsettled e = if e.buffering && not e.buffer_consumed then e.buffered_text else ""

  -- The text part, which is left out where it is empty and there are calls.
  unfoldable pub text_parts : String → List (ToolCall J) → List (ResponsePart J)
  text_parts String.[] [] = text_part "" ∷ []
  text_parts String.[] (c ∷ cs) = []
  text_parts (String.◌∷◌ c s) cs = text_part (String.◌∷◌ c s) ∷ []

  unfoldable pub thinking_parts : String → List (ResponsePart J)
  thinking_parts String.[] = []
  thinking_parts (String.◌∷◌ c s) = thinking_part (String.◌∷◌ c s) ∷ []

  unfoldable pub hook_response : StopReason → Emitter J → HookResponse J
  unfolding concat text_parts thinking_parts
  hook_response stop e = record {
    model = "";
    content =
        text_parts (concat e.agg_text (unsettled e)) e.agg_tool_calls
        ++ (thinking_parts e.agg_thought ++ map tool_use_part e.agg_tool_calls);
    tool_calls = e.agg_tool_calls;
    stop_reason = stop;
  }

  -- The text, and the thought, that a reader of the parts finds.
  unfoldable pub content_text : List (ResponsePart J) → String
  unfolding concat
  content_text [] = ""
  content_text (text_part s ∷ ps) = concat s (content_text ps)
  content_text (thinking_part s ∷ ps) = content_text ps
  content_text (tool_use_part c ∷ ps) = content_text ps

  unfoldable pub content_thought : List (ResponsePart J) → String
  unfolding concat
  content_thought [] = ""
  content_thought (text_part s ∷ ps) = content_thought ps
  content_thought (thinking_part s ∷ ps) = concat s (content_thought ps)
  content_thought (tool_use_part c ∷ ps) = content_thought ps

  calls-text : (cs : List (ToolCall J)) → content_text (map tool_use_part cs) ≡ ""
  unfolding content_text
  calls-text [] = refl
  calls-text (c ∷ cs) = calls-text cs

  calls-thought : (cs : List (ToolCall J)) → content_thought (map tool_use_part cs) ≡ ""
  unfolding content_thought
  calls-thought [] = refl
  calls-thought (c ∷ cs) = calls-thought cs

  thinking-text :
      (m : String) (cs : List (ToolCall J))
      → content_text (thinking_parts m ++ map tool_use_part cs) ≡ ""
  unfolding content_text thinking_parts
  thinking-text String.[] cs = calls-text cs
  thinking-text (String.◌∷◌ c m) cs = calls-text cs

  thinking-thought :
      (m : String) (cs : List (ToolCall J))
      → content_thought (thinking_parts m ++ map tool_use_part cs) ≡ m
  unfolding content_thought thinking_parts
  thinking-thought String.[] cs = calls-thought cs
  thinking-thought (String.◌∷◌ c m) cs =
      ap (concat (String.◌∷◌ c m)) (calls-thought cs) ∙ concat-nil (String.◌∷◌ c m)

  parts-text :
      (t m : String) (cs : List (ToolCall J))
      → content_text (text_parts t cs ++ (thinking_parts m ++ map tool_use_part cs)) ≡ t
  unfolding content_text text_parts concat
  parts-text String.[] m [] = thinking-text m []
  parts-text String.[] m (c ∷ cs) = thinking-text m (c ∷ cs)
  parts-text (String.◌∷◌ a t) m cs =
      ap (concat (String.◌∷◌ a t)) (thinking-text m cs) ∙ concat-nil (String.◌∷◌ a t)

  parts-thought :
      (t m : String) (cs : List (ToolCall J))
      → content_thought (text_parts t cs ++ (thinking_parts m ++ map tool_use_part cs)) ≡ m
  unfolding content_thought text_parts
  parts-thought String.[] m [] = thinking-thought m []
  parts-thought String.[] m (c ∷ cs) = thinking-thought m (c ∷ cs)
  parts-thought (String.◌∷◌ a t) m cs = thinking-thought m cs

  -- The text of the response is the aggregated text and then the text that is not settled.
  pub content_text-hook_response :
      (stop : StopReason) (e : Emitter J)
      → content_text (hook_response stop e).content ≡ concat e.agg_text (unsettled e)
  unfolding hook_response
  content_text-hook_response stop e =
      parts-text (concat e.agg_text (unsettled e)) e.agg_thought e.agg_tool_calls

  pub content_thought-hook_response :
      (stop : StopReason) (e : Emitter J)
      → content_thought (hook_response stop e).content ≡ e.agg_thought
  unfolding hook_response
  content_thought-hook_response stop e =
      parts-thought (concat e.agg_text (unsettled e)) e.agg_thought e.agg_tool_calls
