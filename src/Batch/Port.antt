-- ===== src/Batch/Port.antt =====
-- src/agent_loop/runner/tools.rs: what the policy, the tool and the host answer to a call,
-- `decide_policy` and `run_tool_port`.
use minicore_runtime.Base.{
  ℕ, Bool, true, false, List, Option, none, some, Result, ok, err, ◌>>=◌, if◌then◌else◌, is_ok,
}
use minicore_runtime.Text.{Text, valid_text}
use minicore_runtime.Ids.{RuntimeId}
use minicore_runtime.PortCall.{PortCallOutcome, returned, deadline_exceeded, invalid_deadline, turn}
use minicore_runtime.Interaction.{
  ApprovalRequest, InteractionKind, InteractionAnswer, PendingInteraction, ToolInputRequest,
  validate_request, CanonicalResult, canonical_result,
}
use minicore_runtime.Message.{ToolCall}
use minicore_runtime.Control.Host.{HostCall}
use minicore_runtime.Batch.{FailPath, Panic, panic, Site, ToolResultHistory, provided_input_result}

-- ToolDecision and its check, of src/tools/policy.rs.
pub data ToolDecision : Type 0 where
  allow : ToolDecision
  deny_call : Text → ToolDecision
  require_approval : ApprovalRequest → ToolDecision

unfoldable pub valid_decision : ToolDecision → Bool
valid_decision allow = true
valid_decision (deny_call reason) = valid_text reason 8192 false
valid_decision (require_approval request) = valid_text request.prompt 8192 false

pub data ToolExecutionOutcome : Type 0 where
  completed : Text → ToolExecutionOutcome
  request_input : ToolInputRequest → ToolExecutionOutcome

pub data PolicyStep : Type 0 where
  allowed turn_over turn_deadline invalid : PolicyStep
  denied_step : Option Text → PolicyStep
  approval_step : ApprovalRequest → PolicyStep

abbrev decided : ToolDecision → PolicyStep
decided allow = allowed
decided (deny_call reason) = denied_step (some reason)
decided (require_approval request) = approval_step request

-- `decide_policy`, from how the call of the policy's port ended; none is a config without policy.
unfoldable pub decide_policy : Option (PortCallOutcome ToolDecision (Unit {0})) → PolicyStep
decide_policy none = allowed
decide_policy (some (returned (ok decision))) =
    if valid_decision decision then decided decision else invalid
decide_policy (some PortCallOutcome.cancelled) = turn_over
decide_policy (some (deadline_exceeded turn)) = turn_deadline
decide_policy (some _) = denied_step none

pub data ToolPort : Type 0 where
  port_completed : Text → ToolPort
  port_request : ToolInputRequest → ToolPort
  port_failed : ToolPort
  port_end : FailPath → ToolPort

-- `run_tool_port`, from how the call of the tool's port ended.
unfoldable pub run_tool_port : PortCallOutcome ToolExecutionOutcome (Unit {0}) → ToolPort
run_tool_port (returned (ok (completed output))) = port_completed output
run_tool_port (returned (ok (request_input request))) =
    if is_ok (validate_request request) then port_request request else port_failed
run_tool_port PortCallOutcome.cancelled = port_end FailPath.cancelled
run_tool_port (deadline_exceeded turn) = port_end FailPath.deadline
run_tool_port (invalid_deadline e) = port_end FailPath.internal
run_tool_port _ = port_failed

-- The arm of `select!` that ends the wait for an answer.
pub data Arm : Type 0 where
  cancelled_arm deadline_arm dropped_arm : Arm
  answer_arm : InteractionAnswer → Arm

abbrev pub reply_of : Arm → Result InteractionAnswer FailPath
reply_of cancelled_arm = err FailPath.cancelled
reply_of deadline_arm = err FailPath.deadline
reply_of dropped_arm = err FailPath.interaction
reply_of (answer_arm answer) = ok answer

pub data ToolStep : Type 0 where
  result_step : ToolResultHistory → ToolStep
  end_step : FailPath → ToolStep

-- What comes from outside during one interaction: the new id, the channel, what the handles do
-- meanwhile, and the arm that ends the wait.
pub record Interacting (Config : Type 0) : Type 0 where
  pub id : Option RuntimeId
  pub reply : ℕ
  pub meanwhile : List (HostCall Config)
  pub arm : Arm

-- What comes from outside during one call: whether the token is cancelled before it, and what the
-- policy, the host and the tool answer.
pub record Outside (Config : Type 0) : Type 0 where
  pub token_cancelled : Bool
  pub policy_outcome : Option (PortCallOutcome ToolDecision (Unit {0}))
  pub approval : Interacting Config
  pub tool_outcome : PortCallOutcome ToolExecutionOutcome (Unit {0})
  pub input : Interacting Config

abbrev pub stepped : Result ToolResultHistory Panic → Result ToolStep Panic
stepped r = r >>= λ h. ok (result_step h)

-- What becomes of the answer to the input request of a tool; `encode` is the JSON text of it.
unfoldable pub input_step :
    (CanonicalResult → Text)
    → Site
    → ToolCall
    → ToolInputRequest
    → Result InteractionAnswer FailPath
    → Result ToolStep Panic
input_step encode site call request (err path) = ok (end_step path)
input_step encode site call request (ok (InteractionAnswer.tool_input answer)) =
    elim (canonical_result answer request) [
      | none ↦ err panic
      | some value ↦ stepped (provided_input_result site call (encode value))
    ]
input_step encode site call request (ok (InteractionAnswer.approval decision)) =
    ok (end_step FailPath.internal)

abbrev pub pending_for : ToolCall → RuntimeId → InteractionKind → PendingInteraction
pending_for call id kind = record {
  interaction_id = id;
  tool_call_id = call.tool_call_id;
  tool_name = call.name;
  kind = kind;
}
