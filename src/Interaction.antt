-- ===== src/Interaction.antt =====
-- src/interaction.rs, with the requests and answers of src/tools/input.rs and src/tools/policy.rs
-- that it is about.
pub mod Laws
pub mod Examples
use minicore_runtime.Base.{
  ℕ, Bool, true, false, ◌&&◌, ◌||◌, not, List, [], ◌∷◌, ltb, leb, if◌then◌else◌, is_empty, any,
  length, Result, ok, err, ◌>>=◌, guard, get_elem?, Option, none, some,
}
use minicore_runtime.Text.{Text, valid_text, new_with_max_bytes}
use minicore_runtime.Ids.{RuntimeId, Bytes}

pub data ToolValueError : Type 0 where
  invalid_text invalid_schema invalid_answer : ToolValueError

pub data ToolInputAnswerKind : Type 0 where
  text_kind single_choice : ToolInputAnswerKind

pub record ToolInputRequest : Type 0 where
  pub prompt : Text
  pub choices : List Text
  pub answer_kind : ToolInputAnswerKind

pub data ToolInputAnswer : Type 0 where
  text : Text → ToolInputAnswer
  choice : ℕ → ToolInputAnswer

abbrev pub is_single_choice : ToolInputAnswerKind → Bool
is_single_choice text_kind = false
is_single_choice single_choice = true

-- ToolInputRequest::validate
unfoldable pub validate_request : ToolInputRequest → Result (Unit {0}) ToolValueError
validate_request r =
    if not (valid_text r.prompt 8192 false)
      || ltb 32 (length r.choices)
      || any (λ choice. not (valid_text choice 1024 false)) r.choices
      || (is_single_choice r.answer_kind && is_empty r.choices)
    then err invalid_text
    else ok tt

-- ToolInputRequest::new
pub new_request : Text → List Text → ToolInputAnswerKind → Result ToolInputRequest ToolValueError
new_request prompt choices answer_kind = elim (new_with_max_bytes prompt 8192) [
  | err e ↦ err invalid_text
  | ok prompt' ↦
      let request : ToolInputRequest = record {
        prompt = prompt';
        choices = choices;
        answer_kind = answer_kind;
      } in
      validate_request request >>= λ _. ok request
]

unfoldable pub validate_answer_text : Text → Result (Unit {0}) ToolValueError
validate_answer_text value = if valid_text value 8192 false then ok tt else err invalid_answer

-- ToolInputAnswer::validate
unfoldable pub validate_input_answer :
    ToolInputAnswer → ToolInputAnswerKind → List Text → Result (Unit {0}) ToolValueError
unfolding validate_answer_text
validate_input_answer (text value) text_kind choices = validate_answer_text value
validate_input_answer (choice index) single_choice choices =
    if ltb index (length choices) then ok tt else err invalid_answer
validate_input_answer _ _ choices = err invalid_answer

pub data ApprovalRisk : Type 0 where
  low medium high : ApprovalRisk

pub record ApprovalRequest : Type 0 where
  pub prompt : Text
  pub risk : ApprovalRisk

pub data ApprovalDecision : Type 0 where
  allow_once deny : ApprovalDecision

pub data InteractionKind : Type 0 where
  approval : ApprovalRequest → InteractionKind
  tool_input : ToolInputRequest → InteractionKind

pub data InteractionAnswer : Type 0 where
  approval : ApprovalDecision → InteractionAnswer
  tool_input : ToolInputAnswer → InteractionAnswer

-- InteractionAnswer::validate
unfoldable pub validate_answer :
    InteractionAnswer → InteractionKind → Result (Unit {0}) ToolValueError
unfolding validate_input_answer
validate_answer (InteractionAnswer.approval d) (InteractionKind.approval r) = ok tt
validate_answer (InteractionAnswer.tool_input a) (InteractionKind.tool_input r) =
    validate_input_answer a r.answer_kind r.choices
validate_answer _ _ = err invalid_answer

pub record PendingInteraction : Type 0 where
  pub interaction_id : RuntimeId
  pub tool_call_id : Bytes
  pub tool_name : Bytes
  pub kind : InteractionKind

-- What `encode_result` puts into the JSON object; the object's text is serde_json's.
pub data CanonicalResult : Type 0 where
  text_result : Text → CanonicalResult
  choice_result : ℕ → Text → CanonicalResult

-- ToolInputAnswer::encode_result, before serialization; `none` is the panic of the index.
unfoldable pub canonical_result : ToolInputAnswer → ToolInputRequest → Option CanonicalResult
canonical_result (text answer) request = some (text_result answer)
canonical_result (choice index) request = elim (get_elem? request.choices index) [
  | none ↦ none
  | some chosen ↦ some (choice_result index chosen)
]
