-- ===== src/Runner/Turn.antt =====
-- src/agent_loop/runner.rs, the body of the loop of `run_loop_inner`, with `prepare_prompt`,
-- `build_model_request` and `map_model_failure` of src/agent_loop/runner/model.rs.
use minicore_runtime.Base.{
  ℕ, Bool, true, false, List, [], ◌∷◌, Option, none, some, if◌then◌else◌, Result, ok, err, is_empty,
  is_some,
}
use minicore_runtime.Text.{Text}
use minicore_runtime.Ids.{RuntimeId}
use minicore_runtime.Diagnostic.{DiagnosticCode, DiagnosticCategory}
use minicore_runtime.ModelError.{ModelError, ModelErrorKind, error_started}
use minicore_runtime.Usage.{Usage}
use minicore_runtime.PortCall.{PortCallOutcome, returned, deadline_exceeded, turn, DeadlineSource}
use minicore_runtime.Message.{ToolCall, AssistantPart, as_tool_call, ModelValueError}
use minicore_runtime.Exchange.{ModelMessage}
use minicore_runtime.Driver.{ModelDriverFailure}
use minicore_runtime.Control.{ConfigRevision, PendingConfig, take_config}
use minicore_runtime.Control.Host.{HostCall}
use minicore_runtime.Batch.{FailPath, Panic}
use minicore_runtime.Batch.Port.{Outside}
use minicore_runtime.Response.{
  ModelFinishReason, ModelResponse, stop, length, refused, content_filtered,
}
use minicore_runtime.Execution.{ExecutionConfig}
use minicore_runtime.Request.{ModelRequest, with_validated_tools, default_model_limits}
use minicore_runtime.History.{WorkingHistory, steering, append_user}
use minicore_runtime.Runner.{LoopControl}
use minicore_runtime.Runner.Messages.{response_text}

-- The variables of the loop.
pub record Progress : Type 0 where
  pub working : WorkingHistory
  pub config : ExecutionConfig
  pub issued_revision : ConfigRevision
  pub candidate_revision : Option ConfigRevision
  pub request_index : ℕ
  pub tool_rounds : ℕ
  pub requests : ℕ
  pub last_issued_request_index : Option ℕ
  pub usage : Usage

-- What comes from outside during one pass through the loop: what the handles do before it, during
-- the preparation of the prompt and during the model request, the time, what the host's inputs and
-- the prompt provider give, the driver's answer, and what the tool calls meet.
pub record Pass : Type 0 where
  pub before : List (HostCall ExecutionConfig)
  pub now : ℕ
  pub inputs : Result (List Text) Panic
  pub during_prompt : List (HostCall ExecutionConfig)
  pub prompt_outcome : PortCallOutcome (List ModelMessage) (Unit {0})
  pub later_inputs : Result (List Text) Panic
  pub during_model : List (HostCall ExecutionConfig)
  pub model_outcome : Result ModelResponse ModelDriverFailure
  pub outside : ℕ → Outside ExecutionConfig

-- How a pass ends: at the head of the loop, or out of it.
pub data Passed : Type 0 where
  again : Progress → Passed
  ends : FailPath → Progress → Passed
  panics : Passed

abbrev pub append_inputs : RuntimeId → List Text → WorkingHistory → WorkingHistory
append_inputs id [] working = working
append_inputs id (input ∷ inputs) working =
    append_inputs id inputs
      (append_user (record { loop_id = id; kind = steering; input = input }) working)

abbrev pub with_config : Option (PendingConfig ExecutionConfig) → Progress → Progress
with_config none p = p
with_config (some pending) p = record p {
  config = pending.config;
  candidate_revision = some pending.revision;
}

-- The loop on the inputs, after the configuration was taken.
abbrev pub with_inputs :
    RuntimeId → Result (List Text) Panic → Bool → Progress → Result (Progress × Bool) Panic
with_inputs id (err p) taken progress = err p
with_inputs id (ok inputs) taken progress = ok (
  record progress { working = append_inputs id inputs progress.working },
  if is_empty inputs then taken else true,
)

unfoldable pub take_boundary :
    Result (List Text) Panic → LoopControl → Progress → LoopControl × Result (Progress × Bool) Panic
unfolding take_config append_user
take_boundary inputs c progress =
    let (c', pending) = take_config c in
    (c', with_inputs c.id inputs (is_some pending) (with_config pending progress))

pub data PromptPrep : Type 0 where
  ready : List ModelMessage → PromptPrep
  end_prompt : FailPath → PromptPrep

-- prepare_prompt, from the outcome of the port call.
unfoldable pub prepare_prompt : PortCallOutcome (List ModelMessage) (Unit {0}) → PromptPrep
prepare_prompt (returned (ok [])) = end_prompt FailPath.prompt
prepare_prompt (returned (ok messages)) = ready messages
prepare_prompt PortCallOutcome.cancelled = end_prompt FailPath.cancelled
prepare_prompt (deadline_exceeded turn) = end_prompt FailPath.deadline
prepare_prompt _ = end_prompt FailPath.prompt

unfoldable pub build_model_request :
    List ModelMessage → ExecutionConfig → Result ModelRequest ModelValueError
build_model_request messages config =
    with_validated_tools messages config.tools default_model_limits config.reasoning

abbrev is_turn : Option DeadlineSource → Bool
is_turn (some turn) = true
is_turn _ = false

abbrev model_path : ModelErrorKind → ModelError → FailPath
model_path ModelErrorKind.invalid_provider_response error = FailPath.invalid_model_response error
model_path ModelErrorKind.incomplete_response error = FailPath.invalid_model_response error
model_path ModelErrorKind.unexpected_tool_call error = FailPath.invalid_model_response error
model_path _ error = FailPath.model error

unfoldable pub map_model_failure : LoopControl → ModelDriverFailure → FailPath
map_model_failure c failure =
    if c.token
    then FailPath.cancelled
    else if is_turn failure.deadline_source
    then FailPath.deadline
    else model_path failure.error.kind failure.error

abbrev pub calls_of : List AssistantPart → List ToolCall
calls_of [] = []
calls_of (part ∷ parts) = elim (as_tool_call part) [
  | none ↦ calls_of parts
  | some call ↦ call ∷ calls_of parts
]

abbrev unsupported_finish : FailPath
unsupported_finish = FailPath.invalid_model_response (
    error_started ModelErrorKind.invalid_provider_response (record {
      code = DiagnosticCode.model_malformed_response;
      category = DiagnosticCategory.model;
      message = response_text;
      retryable = false;
    }))

-- The path that a response without tool calls ends the loop with, if it enters the history.
unfoldable pub no_tool_finish :
    List ToolCall → ModelFinishReason → Result (Option FailPath) FailPath
unfolding error_started
no_tool_finish (call ∷ calls) reason = ok none
no_tool_finish [] stop = ok (some FailPath.completed)
no_tool_finish [] length = ok (some FailPath.output_limit)
no_tool_finish [] refused = ok (some FailPath.refused)
no_tool_finish [] content_filtered = ok (some FailPath.content_filtered)
no_tool_finish [] _ = err unsupported_finish

abbrev pub or_revision : Option ConfigRevision → ConfigRevision → ConfigRevision
or_revision none issued = issued
or_revision (some candidate) issued = candidate
