-- ===== src/Compress/Message.antt =====
-- Messages of internal/canonical/chat.go, the texts of internal/canonical/join.go, and the estimates of
-- internal/plugin/compress/tokens.go. A text is valid UTF-8. `marshal` is json.Marshal of a map, ""
-- where it fails, and `format` is fmt's %d.
use otto_gateway.Base.{
  ℕ, ◌+◌, ◌/◌, String, Bool, true, false, Option, none, some, List, [], ◌∷◌, ◌++◌, concat, is_blank,
  byte_length, if◌then◌else◌,
}
use otto_gateway.Engine.ToolCalls.{ToolCall}

pub data MessageRole : Type 0 where
  user system assistant tool : MessageRole

pub data ContentKind : Type 0 where
  text_part image_part use_part result_part thinking_part : ContentKind

pub record ImagePart : Type 0 where
  pub mime : String
  pub data_base64 : String

pub record ToolUsePart (J : Type 0) : Type 0 where
  pub id : String
  pub name : String
  pub input : List (String × J)

pub record ToolResultPart : Type 0 where
  pub tool_use_id : String
  pub content : String
  pub is_error : Bool

pub record ContentPart (J : Type 0) : Type 0 where
  pub kind : ContentKind
  pub text : String
  pub image : Option ImagePart
  pub tool_use : Option (ToolUsePart J)
  pub tool_result : Option ToolResultPart

pub record Message (J : Type 0) : Type 0 where
  pub role : MessageRole
  pub content : List (ContentPart J)
  pub tool_calls : List (ToolCall J)
  pub tool_call_id : String

abbrev pub is_text : ContentKind → Bool
is_text text_part = true
is_text _ = false

abbrev pub is_thinking : ContentKind → Bool
is_thinking thinking_part = true
is_thinking _ = false

abbrev pub is_system : MessageRole → Bool
is_system system = true
is_system _ = false

abbrev pub is_user : MessageRole → Bool
is_user user = true
is_user _ = false

unfoldable pub estimate_tokens : String → ℕ
unfolding byte_length
estimate_tokens text = (byte_length text + 3) / 4

-- A section that holds nothing is left out.
abbrev pub section : String → List String
section s = if is_blank s then [] else s ∷ []

-- `strings.Join(sections, "\n")`
unfoldable pub join_sections : List String → String
unfolding concat
join_sections [] = ""
join_sections (s ∷ []) = s
join_sections (s ∷ (t ∷ ts)) = concat s (concat "\n" (join_sections (t ∷ ts)))

module _ {J : Type 0} where
  unfoldable pub join_text_parts : List (ContentPart J) → String
  unfolding concat
  join_text_parts [] = ""
  join_text_parts (p ∷ ps) = concat (if is_text p.kind then p.text else "") (join_text_parts ps)

  unfoldable pub join_thinking_parts : List (ContentPart J) → String
  unfolding concat
  join_thinking_parts [] = ""
  join_thinking_parts (p ∷ ps) =
      concat (if is_thinking p.kind then p.text else "") (join_thinking_parts ps)

  abbrev pub result_content : ContentPart J → String
  result_content p = elim p.tool_result [ none ↦ "" | some r ↦ r.content ]

  unfoldable pub result_sections : List (ContentPart J) → List String
  result_sections [] = []
  result_sections (p ∷ ps) =
      (elim p.kind [ result_part ↦ section (result_content p) | _ ↦ [] ]) ++ result_sections ps

  unfoldable pub acp_prose : Message J → String
  unfolding join_sections join_text_parts join_thinking_parts result_sections
  acp_prose m = join_sections (elim m.role [
    | system ↦ []
    | assistant ↦ section (join_text_parts m.content) ++ section (join_thinking_parts m.content)
    | tool ↦ section (join_text_parts m.content)
    | user ↦ result_sections m.content ++ section (join_text_parts m.content)
  ])

  module _ (marshal : List (String × J) → String) where
    abbrev pub est_use : ContentPart J → ℕ
    est_use p = elim p.tool_use [
      | none ↦ 0
      | some u ↦ estimate_tokens u.name + estimate_tokens (marshal u.input)
    ]

    -- The prose and the tool uses of an assistant's message.
    unfoldable pub est_assistant : List (ContentPart J) → ℕ
    unfolding estimate_tokens
    est_assistant [] = 0
    est_assistant (p ∷ ps) =
        (elim p.kind [
          | text_part ↦ estimate_tokens p.text
          | thinking_part ↦ estimate_tokens p.text
          | use_part ↦ est_use p
          | _ ↦ 0
        ])
        + est_assistant ps

    unfoldable pub renders_use : List (ContentPart J) → Bool
    renders_use [] = false
    renders_use (p ∷ ps) =
        let rest = renders_use ps in
        elim p.kind [ use_part ↦ (elim p.tool_use [ none ↦ rest | some u ↦ true ]) | _ ↦ rest ]

    unfoldable pub est_calls : List (ToolCall J) → ℕ
    unfolding estimate_tokens
    est_calls [] = 0
    est_calls (c ∷ cs) =
        estimate_tokens c.name + estimate_tokens (marshal c.arguments) + est_calls cs

    unfoldable pub est_tool : List (ContentPart J) → ℕ
    unfolding estimate_tokens
    est_tool [] = 0
    est_tool (p ∷ ps) = (if is_text p.kind then estimate_tokens p.text else 0) + est_tool ps

    unfoldable pub est_user : List (ContentPart J) → ℕ
    unfolding estimate_tokens
    est_user [] = 0
    est_user (p ∷ ps) =
        (elim p.kind [
          | text_part ↦ estimate_tokens p.text
          | result_part ↦ (elim p.tool_result [ none ↦ 0 | some r ↦ estimate_tokens r.content ])
          | _ ↦ 0
        ])
        + est_user ps

    unfoldable pub est_message_tokens : Message J → ℕ
    unfolding est_assistant renders_use est_calls est_tool est_user
    est_message_tokens m = elim m.role [
      | system ↦ 0
      | assistant ↦
          est_assistant m.content + (if renders_use m.content then 0 else est_calls m.tool_calls)
      | tool ↦ est_tool m.content
      | user ↦ est_user m.content
    ]

    unfoldable pub est_messages_tokens : List (Message J) → ℕ
    unfolding est_message_tokens
    est_messages_tokens [] = 0
    est_messages_tokens (m ∷ ms) =
        (if is_system m.role then 0 else est_message_tokens m) + est_messages_tokens ms
