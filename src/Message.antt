-- ===== src/Message.antt =====
-- src/model/message.rs: the parts of an assistant message, the messages of a request, and the checks
-- on them.
pub mod Order
pub mod Made
pub mod Examples
use minicore_runtime.Base.{
  ℕ, ◌+◌, ◌*◌, Bool, true, false, ◌&&◌, ◌||◌, not, List, [], ◌∷◌, ◌++◌, map, any, all, is_empty,
  Option, none, some, is_some, ltb, leb, ◌==◌, if◌then◌else◌, Result, ok, err, ◌>>=◌, ◌>>◌, guard,
  checked_add, u32_mod,
}
use minicore_runtime.Text.{Text, byte_len, valid_text, normalize_model_text}
use minicore_runtime.Ids.{Bytes, bytes_eq}
use minicore_runtime.Json.{JsonValue, json_object, Serialized, validate_json_size}

-- ModelValueError of src/model/error.rs, the errors that the checks below give.
pub data ModelValueError : Type 0 where
  invalid_text empty_reasoning_content empty_assistant_parts empty_response_parts : ModelValueError
  invalid_tool_arguments duplicate_tool_call_index invalid_tool_call_order : ModelValueError
  duplicate_tool_call_id invalid_tools invalid_descriptor incomplete_tool_exchange
        duplicate_tool_result :
      ModelValueError
  orphan_tool_result empty_messages invalid_event invalid_provider_replay : ModelValueError

abbrev pub max_model_message_text_bytes : ℕ
max_model_message_text_bytes = 262144

pub record ReasoningContent : Type 0 where
  pub text : Option Text
  pub summary : Option Text
  pub encrypted : Option Text
  pub signature : Option Text

pub record ToolCall : Type 0 where
  pub tool_call_id : Bytes
  pub name : Bytes
  pub arguments : JsonValue
  pub call_index : ℕ

pub data AssistantPart : Type 0 where
  text : Text → AssistantPart
  reasoning : ReasoningContent → AssistantPart
  tool_call : ToolCall → AssistantPart

unfoldable pub normalize_optional_text : Option Text → ℕ → Result (Option Text) ModelValueError
normalize_optional_text none maximum = ok none
normalize_optional_text (some value) maximum =
    if ltb maximum (byte_len (normalize_model_text value))
    then err invalid_text
    else ok (some (normalize_model_text value))

-- Printable ASCII but for the quote and the backslash; a byte that is no ASCII is in no character
-- that this allows.
abbrev opaque_char : ℕ → Bool
opaque_char c = leb 0x21 c && leb c 0x7e && not (c == 34 || c == 92)

unfoldable pub validate_optional_opaque : Option Text → ℕ → Result (Unit {0}) ModelValueError
validate_optional_opaque none maximum = ok tt
validate_optional_opaque (some value) maximum =
    guard (not (is_empty value || ltb maximum (byte_len value) || not (all opaque_char value)))
      invalid_text

abbrev reasoning_content : Option Text → Option Text → Option Text → Option Text → ReasoningContent
reasoning_content content summary encrypted signature = record {
  text = content;
  summary = summary;
  encrypted = encrypted;
  signature = signature;
}

-- ReasoningContent::new
unfoldable pub new_reasoning :
    Option Text → Option Text → Option Text → Option Text → Result ReasoningContent ModelValueError
unfolding normalize_optional_text validate_optional_opaque
new_reasoning content summary encrypted signature = do
  content' ← normalize_optional_text content 262144
  summary' ← normalize_optional_text summary 131072
  _ ← validate_optional_opaque encrypted 262144
  _ ← validate_optional_opaque signature 16384
  if is_some content' || is_some summary' || is_some encrypted || is_some signature
      then ok (reasoning_content content' summary' encrypted signature)
      else err empty_reasoning_content

-- AssistantPart::validate
unfoldable pub validate_part : AssistantPart → Result (Unit {0}) ModelValueError
validate_part (text t) = guard (valid_text t max_model_message_text_bytes true) invalid_text
validate_part (reasoning r) = ok tt
validate_part (tool_call c) = ok tt

unfoldable pub as_tool_call : AssistantPart → Option ToolCall
as_tool_call (tool_call c) = some c
as_tool_call _ = none

abbrev pub is_object : JsonValue → Bool
is_object (json_object values) = true
is_object _ = false

-- ToolCall::new_with_max_bytes; `to_writer` is the serializer of the JSON library.
unfoldable pub new_tool_call :
    (JsonValue → Serialized) → Bytes → Bytes → JsonValue → ℕ → ℕ → Result ToolCall ModelValueError
new_tool_call to_writer tool_call_id name arguments call_index max_bytes =
    elim (validate_json_size to_writer arguments max_bytes) [
      | err e ↦ err invalid_tool_arguments
      | ok u ↦
          if is_object arguments
          then ok (record {
            tool_call_id = tool_call_id;
            name = name;
            arguments = arguments;
            call_index = call_index;
          })
          else err invalid_tool_arguments
    ]

-- The sets of the loops below are lists; `insert` tells whether the element is new.
abbrev pub contains_id : Bytes → List Bytes → Bool
contains_id id ids = any (bytes_eq id) ids

abbrev pub contains_index : ℕ → List ℕ → Bool
contains_index i indices = any (λ j. i == j) indices

-- The loop of `validate_tool_call_order`, with its `ids`, `indices` and `expected_index`.
unfoldable pub check_order :
    List AssistantPart → List Bytes → List ℕ → ℕ → Result (Unit {0}) ModelValueError
unfolding validate_part
check_order [] ids indices expected_index = ok tt
check_order (tool_call call ∷ parts) ids indices expected_index =
    let rest =
      check_order parts (call.tool_call_id ∷ ids) (call.call_index ∷ indices)
        (expected_index + 1) in
    if contains_index call.call_index indices
    then err duplicate_tool_call_index
    else if not (call.call_index == expected_index)
    then err invalid_tool_call_order
    else if contains_id call.tool_call_id ids
    then err duplicate_tool_call_id
    else if is_some (checked_add u32_mod expected_index 1)
    then rest
    else err invalid_tool_call_order
check_order (part ∷ parts) ids indices expected_index =
    validate_part part >> check_order parts ids indices expected_index

unfoldable pub validate_tool_call_order : List AssistantPart → Result (Unit {0}) ModelValueError
unfolding check_order
validate_tool_call_order parts = check_order parts [] [] 0

-- normalize_parts
unfoldable pub normalize_part : AssistantPart → AssistantPart
normalize_part (text t) = text (normalize_model_text t)
normalize_part part = part

unfoldable pub normalize_parts : List AssistantPart → List AssistantPart
unfolding normalize_part
normalize_parts [] = []
normalize_parts (part ∷ parts) = normalize_part part ∷ normalize_parts parts
