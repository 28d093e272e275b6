-- ===== src/Batch/Examples.antt =====
-- Tests and concrete instances of the theorems on tool calls: two calls, of which the first
-- completes and the second finds the loop cancelled.
use minicore_runtime.Base.{ℕ, zero, suc, ◌≡◌, ◌≢◌, refl, true, false, List, [], ◌∷◌, some, ok}
use minicore_runtime.Text.{Text}
use minicore_runtime.Ids.{RuntimeId}
use minicore_runtime.Json.{json_object, no_members}
use minicore_runtime.PortCall.{returned, panicked}
use minicore_runtime.Interaction.{
  CanonicalResult, InteractionAnswer, ApprovalRequest, low, allow_once,
}
use minicore_runtime.Message.{ToolCall}
use minicore_runtime.Tools.{ToolResultOutcome, success, denied, tool_output}
use minicore_runtime.Control.{Control, new}
use minicore_runtime.Batch.{
  Site, FailPath, ToolResultHistory, result, denied_message, interrupted_message,
  terminal_tool_result,
}
use minicore_runtime.Batch.Call.{run_tool_batch, run_tool_call}
use minicore_runtime.Batch.Port.{
  Outside, Interacting, allow, require_approval, completed, result_step, cancelled_arm, answer_arm,
}
use minicore_runtime.Batch.Results.{AreResultsOf}
use minicore_runtime.Batch.Answers.{run_tool_batch-AreResultsOf}
use minicore_runtime.Batch.Gate.{Authorized, run_tool_call-Authorized}

abbrev loop_id : RuntimeId
loop_id = 1 ∷ []

abbrev control : Control ℕ ℕ
control = new loop_id

abbrev site : Site
site = record { id = loop_id; request_index = 0; max_output_bytes = 100 }

abbrev call : ℕ → ℕ → ToolCall
call id index = record {
  tool_call_id = id ∷ [];
  name = 120 ∷ [];
  arguments = json_object no_members;
  call_index = index;
}

abbrev approving : Interacting ℕ
approving = record {
  id = some (2 ∷ []);
  reply = 0;
  meanwhile = [];
  arm = answer_arm (InteractionAnswer.approval allow_once);
}

abbrev asked : ApprovalRequest
asked = record { prompt = 63 ∷ []; risk = low }

-- The policy asks, the host allows, and the tool completes.
abbrev approved : Outside ℕ
approved = record {
  token_cancelled = false;
  policy_outcome = some (returned (ok (require_approval asked)));
  approval = approving;
  tool_outcome = returned (ok (completed (104 ∷ [])));
  input = approving;
}

abbrev outside : ℕ → Outside ℕ
outside zero = approved
outside (suc i) = record approved { token_cancelled = true }

abbrev encode : CanonicalResult → Text
encode v = []

abbrev first_result : ToolResultHistory
first_result = result site (call 49 0) success (104 ∷ [])

abbrev results : List ToolResultHistory
results =
    first_result ∷ result site (call 50 1) ToolResultOutcome.cancelled interrupted_message ∷ []

batch_ends :
    (run_tool_batch
      (λ config. true)
      encode
      (λ name. true)
      site
      (call 49 0 ∷ call 50 1 ∷ [])
      outside
      control).1
    ≡ ok (results, some FailPath.cancelled)
unfolding run_tool_batch terminal_tool_result tool_output new
    minicore_runtime.Batch.Port.valid_decision minicore_runtime.Text.valid_text
    minicore_runtime.Text.byte_len minicore_runtime.Text.allowed_char
    minicore_runtime.Control.set_interaction minicore_runtime.Batch.completed_result
    minicore_runtime.Batch.settle_calls
batch_ends = refl

run_tool_batch-AreResultsOf_example : AreResultsOf site (call 49 0 ∷ call 50 1 ∷ []) results
run_tool_batch-AreResultsOf_example =
    run_tool_batch-AreResultsOf (λ config. true) encode site (λ name. true)
      (call 49 0 ∷ call 50 1 ∷ []) outside control results (some FailPath.cancelled) batch_ends

call_completes :
    (run_tool_call (λ config. true) encode site (call 49 0) approved control).1
    ≡ ok (result_step first_result)
unfolding run_tool_call new minicore_runtime.Batch.Port.valid_decision
    minicore_runtime.Text.valid_text minicore_runtime.Text.byte_len
    minicore_runtime.Text.allowed_char minicore_runtime.Control.set_interaction
    minicore_runtime.Batch.completed_result
call_completes = refl

success_is_no_denial : success ≢ denied
success_is_no_denial e = cc

run_tool_call-Authorized_example : Authorized approved
run_tool_call-Authorized_example =
    run_tool_call-Authorized (λ config. true) encode site (call 49 0) approved control first_result
      call_completes success_is_no_denial

policy_panic_denies :
    (run_tool_call
      (λ config. true)
      encode
      site
      (call 49 0)
      (record approved { policy_outcome = some panicked })
      control).1
    ≡ ok (result_step (result site (call 49 0) denied denied_message))
unfolding run_tool_call tool_output minicore_runtime.Batch.denied_result
    minicore_runtime.Text.valid_text minicore_runtime.Text.byte_len
    minicore_runtime.Text.allowed_char
policy_panic_denies = refl
