-- ===== src/Compress/Stages.antt =====
-- The stages of internal/plugin/compress/stages.go, and findPinned of prune.go. A text is valid UTF-8,
-- so a cut between runes is one between characters. What the standard library does, and the words that
-- bm25.go finds and ranks by, are the fields of `Library`.
use otto_gateway.Base.{
  ℕ, suc, ◌+◌, ◌-◌, ◌*◌, ◌/◌, String, Bool, false, not, ◌||◌, Option, none, some, List, [], ◌∷◌,
  any_of, concat, byte_length, ltb, leb, ◌==◌, if◌then◌else◌,
}
use Prim.Native.Char.{Char, code}
use otto_gateway.Engine.ToolCalls.{ToolCall}
use otto_gateway.Compress.Message.{
  MessageRole, user, system, assistant, tool, text_part, image_part, use_part, result_part,
  thinking_part, ContentPart, Message, is_text, is_thinking,
}

pub record Library (J S : Type 0) : Type 0 where
  -- json.Marshal of a map, "" where it fails, and fmt's %d
  pub marshal : List (String × J) → String
  pub format : ℕ → String
  -- the regular expressions trailingWSRe, tripleNLRe and piiRankingTokenRe, replaced
  pub strip_trailing : String → String
  pub join_newlines : String → String
  pub strip_pii : String → String
  -- whether a text has a term, and the scores of documents for a question: none where the question
  -- has no terms or too many, or the context ends
  pub has_terms : String → Bool
  pub rank : String → List String → Option (List S)
  -- the order of scores, and whether one is above zero
  pub lower : S → S → Bool
  pub is_positive : S → Bool

abbrev pub newline : ℕ
newline = 10

abbrev pub one_char : Char → String
one_char c = String.◌∷◌ c String.[]

-- The text up to its last newline and the rest; none where it has none.
unfoldable pub split_last_line : String → Option (String × String)
split_last_line String.[] = none
split_last_line (String.◌∷◌ c s) = elim (split_last_line s) [
  | some (lines, rest) ↦ some (String.◌∷◌ c lines, rest)
  | none ↦ if code c == newline then some (one_char c, s) else none
]

-- The longest prefix of whole runes within the bytes.
unfoldable pub rune_safe_cut : String → ℕ → String
unfolding byte_length
rune_safe_cut String.[] n = String.[]
rune_safe_cut (String.◌∷◌ c s) n =
    let rest = rune_safe_cut s (n - byte_length (one_char c)) in
    if leb (byte_length (one_char c)) n then String.◌∷◌ c rest else String.[]

-- The longest suffix of whole runes within the bytes.
unfoldable pub rune_safe_tail : String → ℕ → String
unfolding byte_length
rune_safe_tail String.[] n = String.[]
rune_safe_tail (String.◌∷◌ c s) n =
    let rest = rune_safe_tail s n in
    if leb (byte_length (String.◌∷◌ c s)) n then String.◌∷◌ c s else rest

unfoldable pub rune_count : String → ℕ
rune_count String.[] = 0
rune_count (String.◌∷◌ c s) = suc (rune_count s)

abbrev pub min_dup_len : ℕ
min_dup_len = 200

abbrev pub duplicate_stub_marker : String
duplicate_stub_marker = "[duplicate of an earlier message omitted]"

-- What findPinned finds, and the start of the protected tail; none stands for -1.
pub record Pins : Type 0 where
  pub tail_start : ℕ
  pub last_idx : Option ℕ
  pub query_idx : Option ℕ

abbrev pub is_pin : Option ℕ → ℕ → Bool
is_pin none i = false
is_pin (some j) i = i == j

-- The lengths of a field come before its bytes.
unfoldable pub field : (ℕ → String) → String → String → String
unfolding concat byte_length
field format tag s = concat tag (concat (format (byte_length s)) (concat ":" s))

abbrev pub role_number : MessageRole → ℕ
role_number user = 0
role_number system = 1
role_number assistant = 2
role_number tool = 3

module _ {J S : Type 0} (lib : Library J S) where
  unfoldable pub normalize_whitespace : String → String
  normalize_whitespace text = lib.join_newlines (lib.strip_trailing text)

  unfoldable pub normalize_carrier_chunk : String → Bool → String
  unfolding normalize_whitespace split_last_line concat
  normalize_carrier_chunk text last =
      if last then normalize_whitespace text else elim (split_last_line text) [
        | none ↦ text
        | some (lines, rest) ↦ concat (normalize_whitespace lines) rest
      ]

  abbrev pub on_result : (String → String) → ContentPart J → ContentPart J
  on_result f p = elim p.tool_result [
    | none ↦ p
    | some r ↦ record p { tool_result = some (record r { content = f r.content }) }
  ]

  -- A part is the last of its kind where no later one is of it.
  unfoldable pub normalize_parts : List (ContentPart J) → List (ContentPart J)
  unfolding normalize_carrier_chunk normalize_whitespace
  normalize_parts [] = []
  normalize_parts (p ∷ ps) =
      (elim p.kind [
        | text_part ↦ record p {
          text = normalize_carrier_chunk p.text (not (any_of (λ q. is_text q.kind) ps));
        }
        | thinking_part ↦ record p {
          text = normalize_carrier_chunk p.text (not (any_of (λ q. is_thinking q.kind) ps));
        }
        | result_part ↦ on_result normalize_whitespace p
        | _ ↦ p
      ])
      ∷ normalize_parts ps

  unfoldable pub normalize_message_whitespace : Message J → Message J
  unfolding normalize_parts
  normalize_message_whitespace m = record m { content = normalize_parts m.content }

  unfoldable pub middle_truncate : String → ℕ → String
  unfolding rune_safe_cut rune_safe_tail rune_count concat byte_length
  middle_truncate text keep =
      let head = rune_safe_cut text keep in
      let tail = rune_safe_tail text keep in
      let omitted = rune_count text - rune_count head - rune_count tail in
      if ltb (byte_length text / 2) keep || leb (byte_length text) (keep * 2 + 64)
      then text
      else concat head (
          concat "\n…[compressed: "
            (concat (lib.format omitted) (concat " chars omitted]…\n" tail)))

  unfoldable pub truncate_parts : MessageRole → ℕ → List (ContentPart J) → List (ContentPart J)
  unfolding middle_truncate
  truncate_parts r keep [] = []
  truncate_parts r keep (p ∷ ps) =
      (elim p.kind [
        | result_part ↦ on_result (λ s. middle_truncate s keep) p
        | text_part ↦ (elim r [ tool ↦ record p { text = middle_truncate p.text keep } | _ ↦ p ])
        | _ ↦ p
      ])
      ∷ truncate_parts r keep ps

  unfoldable pub truncate_tool_results : ℕ → Message J → Message J
  unfolding truncate_parts
  truncate_tool_results keep m = record m { content = truncate_parts m.role keep m.content }

  unfoldable pub part_key : ContentPart J → String
  unfolding field concat
  part_key p = elim p.kind [
    | text_part ↦ field lib.format "t" p.text
    | thinking_part ↦ field lib.format "k" p.text
    | result_part ↦ (elim p.tool_result [
      | none ↦ ""
      | some r ↦
          concat (field lib.format "rI" r.tool_use_id)
            (concat (if r.is_error then "etrue" else "efalse") (field lib.format "rC" r.content))
    ])
    | use_part ↦ (elim p.tool_use [
      | none ↦ ""
      | some u ↦
          concat (field lib.format "uI" u.id)
            (concat (field lib.format "uN" u.name) (field lib.format "uA" (lib.marshal u.input)))
    ])
    | image_part ↦ (elim p.image [
      | none ↦ ""
      | some a ↦ concat (field lib.format "iM" a.mime) (field lib.format "iD" a.data_base64)
    ])
  ]

  unfoldable pub part_keys : List (ContentPart J) → String
  unfolding part_key concat
  part_keys [] = ""
  part_keys (p ∷ ps) = concat (part_key p) (part_keys ps)

  unfoldable pub call_keys : List (ToolCall J) → String
  unfolding field concat
  call_keys [] = ""
  call_keys (c ∷ cs) = concat (field lib.format "cI" c.id) (
      concat (field lib.format "cN" c.name)
        (concat (field lib.format "cA" (lib.marshal c.arguments)) (call_keys cs)))

  unfoldable pub dup_key : Message J → String
  unfolding part_keys call_keys field concat
  dup_key m = concat "r" (
      concat (lib.format (role_number m.role)) (
        concat (field lib.format "I" m.tool_call_id)
          (concat (part_keys m.content) (call_keys m.tool_calls))))
