-- ===== src/Exchange.antt =====
-- `ModelMessage` of src/model/message.rs, and the check of src/model/request.rs that the tool results
-- of a request answer its tool calls.
pub mod Replay
pub mod Wire
pub mod Turns
pub mod Complete
pub mod Examples
use minicore_runtime.Base.{
  ℕ, Bool, true, false, List, [], ◌∷◌, any, is_empty, Option, none, some, if◌then◌else◌, Result, ok,
  err, ◌>>=◌, ◌>>◌, guard, not,
}
use minicore_runtime.Text.{Text, valid_text}
use minicore_runtime.Ids.{Bytes, bytes_eq}
use minicore_runtime.Json.{JsonValue}
use minicore_runtime.Tools.{ToolResultOutcome}
use minicore_runtime.Message.{
  AssistantPart, tool_call, ModelValueError, invalid_text, empty_assistant_parts,
  incomplete_tool_exchange, duplicate_tool_result, orphan_tool_result, max_model_message_text_bytes,
  validate_tool_call_order, contains_id, normalize_parts, empty_messages,
}

pub record ProviderReplay : Type 0 where
  pub format : Text
  pub payload : JsonValue
  pub bytes : ℕ

pub data ModelMessage : Type 0 where
  system user : Text → ModelMessage
  assistant : List AssistantPart → ModelMessage
  assistant_with_replay : List AssistantPart → ProviderReplay → ModelMessage
  tool : Bytes → Text → ToolResultOutcome → ModelMessage

-- ModelMessage::validate
unfoldable pub validate_message : ModelMessage → Result (Unit {0}) ModelValueError
validate_message (system text) =
    guard (valid_text text max_model_message_text_bytes false) invalid_text
validate_message (user text) =
    guard (valid_text text max_model_message_text_bytes false) invalid_text
validate_message (assistant []) = err empty_assistant_parts
validate_message (assistant parts) = validate_tool_call_order parts
validate_message (assistant_with_replay parts replay) = validate_tool_call_order parts
validate_message (tool id output outcome) = ok tt

-- BTreeSet::insert and BTreeSet::remove.
abbrev pub insert_id : Bytes → List Bytes → List Bytes
insert_id id ids = if contains_id id ids then ids else id ∷ ids

unfoldable pub remove_id : Bytes → List Bytes → List Bytes
remove_id id [] = []
remove_id id (x ∷ xs) = let rest = x ∷ remove_id id xs in if bytes_eq id x then xs else rest

-- The inner loop, that inserts the ids of the calls.
unfoldable pub insert_calls : List AssistantPart → List Bytes → List Bytes
insert_calls [] pending = pending
insert_calls (tool_call call ∷ parts) pending =
    insert_calls parts (insert_id call.tool_call_id pending)
insert_calls (part ∷ parts) pending = insert_calls parts pending

-- What starts after the pending calls are answered: any message but a tool result.
abbrev fresh :
    List Bytes
    → ModelMessage
    → Result (Unit {0}) ModelValueError
    → Result (Unit {0}) ModelValueError
fresh pending message rest =
    if not (is_empty pending)
    then err incomplete_tool_exchange
    else (validate_message message >> rest)

-- The loop, with its `pending` and `completed`.
unfoldable pub check_exchange :
    List ModelMessage → List Bytes → List Bytes → Result (Unit {0}) ModelValueError
unfolding insert_calls remove_id validate_message
check_exchange [] pending completed =
    if is_empty pending then ok tt else err incomplete_tool_exchange
check_exchange (assistant parts ∷ messages) pending completed =
    fresh pending (assistant parts) (check_exchange messages (insert_calls parts pending) [])
check_exchange (assistant_with_replay parts replay ∷ messages) pending completed =
    fresh pending (assistant_with_replay parts replay)
      (check_exchange messages (insert_calls parts pending) [])
check_exchange (tool id output outcome ∷ messages) pending completed =
    let rest = check_exchange messages (remove_id id pending) (id ∷ completed) in
    if contains_id id completed
    then err duplicate_tool_result
    else if not (contains_id id pending)
    then err orphan_tool_result
    else rest
check_exchange (system text ∷ messages) pending completed =
    fresh pending (system text) (check_exchange messages pending [])
check_exchange (user text ∷ messages) pending completed =
    fresh pending (user text) (check_exchange messages pending [])

unfoldable pub validate_tool_exchange : List ModelMessage → Result (Unit {0}) ModelValueError
unfolding check_exchange
validate_tool_exchange messages = check_exchange messages [] []

-- ModelMessage::system and ModelMessage::user
unfoldable pub new_system : Text → Result ModelMessage ModelValueError
new_system text =
    if not (valid_text text max_model_message_text_bytes false)
    then err invalid_text
    else ok (system text)

unfoldable pub new_user : Text → Result ModelMessage ModelValueError
new_user text =
    if not (valid_text text max_model_message_text_bytes false)
    then err invalid_text
    else ok (user text)

abbrev assistant_of : List AssistantPart → Option ProviderReplay → ModelMessage
assistant_of parts (some replay) = assistant_with_replay parts replay
assistant_of parts none = assistant parts

-- ModelMessage::assistant_with_provider_replay
unfoldable pub new_assistant :
    List AssistantPart → Option ProviderReplay → Result ModelMessage ModelValueError
unfolding validate_message normalize_parts
new_assistant parts replay =
    let message = assistant_of (normalize_parts parts) replay in
    validate_message message >>= λ u. ok message

-- ModelMessage::tool_with_outcome
unfoldable pub tool_with_outcome :
    Bytes → Text → ToolResultOutcome → Result ModelMessage ModelValueError
tool_with_outcome tool_call_id output outcome = ok (tool tool_call_id output outcome)
