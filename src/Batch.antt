-- ===== src/Batch.antt =====
-- src/agent_loop/runner/tools.rs: the tool calls of one response. Every call goes through the policy,
-- possibly an interaction, and the tool, and leaves a result in the history.
pub mod Port
pub mod Call
pub mod Results
pub mod Answers
pub mod Gate
pub mod Unsealed
pub mod Paths
pub mod Examples
use minicore_runtime.Base.{
  ℕ, suc, Bool, true, false, List, [], ◌∷◌, ◌++◌, map, Option, none, some, Result, ok, err, ◌>>=◌,
  leb, if◌then◌else◌, is_ok,
}
use minicore_runtime.Text.{Text, byte_len, valid_text}
use minicore_runtime.Ids.{Bytes, RuntimeId}
use minicore_runtime.ModelError.{ModelError}
use minicore_runtime.Message.{ToolCall}
use minicore_runtime.Tools.{ToolResultOutcome, success, failed, denied, input_provided, tool_output}

-- FailPath of src/agent_loop/runner.rs.
pub data FailPath : Type 0 where
  completed cancelled deadline prompt : FailPath
  model invalid_model_response : ModelError → FailPath
  output_limit refused content_filtered policy interaction max_tool_rounds internal : FailPath

-- A panic of the code, that the runner catches.
pub data Panic : Type 0 where
  panic : Panic

abbrev pub expect {ℓ} : {A : Type ℓ} {E : Type 0} → Result A E → Result A Panic
expect (ok a) = ok a
expect (err e) = err panic

-- ToolResultHistory of src/history.rs
pub record ToolResultHistory : Type 0 where
  pub loop_id : RuntimeId
  pub request_index : ℕ
  pub call_id : Bytes
  pub tool_name : Bytes
  pub outcome : ToolResultOutcome
  pub output : Text

-- "tool batch interrupted"
abbrev pub interrupted_message : Text
interrupted_message =
    116 ∷ 111 ∷ 111 ∷ 108 ∷ 32 ∷ 98 ∷ 97 ∷ 116 ∷ 99 ∷ 104 ∷ 32 ∷ 105 ∷ 110 ∷ 116 ∷ 101 ∷ 114 ∷ 114
    ∷ 117 ∷ 112 ∷ 116 ∷ 101 ∷ 100 ∷ []

-- "tool denied"
abbrev pub denied_message : Text
denied_message = 116 ∷ 111 ∷ 111 ∷ 108 ∷ 32 ∷ 100 ∷ 101 ∷ 110 ∷ 105 ∷ 101 ∷ 100 ∷ []

-- "tool failed"
abbrev pub failed_message : Text
failed_message = 116 ∷ 111 ∷ 111 ∷ 108 ∷ 32 ∷ 102 ∷ 97 ∷ 105 ∷ 108 ∷ 101 ∷ 100 ∷ []

-- "tool output too large"
abbrev pub too_large_message : Text
too_large_message =
    116 ∷ 111 ∷ 111 ∷ 108 ∷ 32 ∷ 111 ∷ 117 ∷ 116 ∷ 112 ∷ 117 ∷ 116 ∷ 32 ∷ 116 ∷ 111 ∷ 111 ∷ 32 ∷ 108
    ∷ 97 ∷ 114 ∷ 103 ∷ 101 ∷ []

-- "tool round limit reached"
abbrev pub round_limit_message : Text
round_limit_message =
    116 ∷ 111 ∷ 111 ∷ 108 ∷ 32 ∷ 114 ∷ 111 ∷ 117 ∷ 110 ∷ 100 ∷ 32 ∷ 108 ∷ 105 ∷ 109 ∷ 105 ∷ 116 ∷ 32
    ∷ 114 ∷ 101 ∷ 97 ∷ 99 ∷ 104 ∷ 101 ∷ 100 ∷ []

-- What the results of a request share: the loop, the request and `max_tool_output_bytes`.
pub record Site : Type 0 where
  pub id : RuntimeId
  pub request_index : ℕ
  pub max_output_bytes : ℕ

abbrev pub result : Site → ToolCall → ToolResultOutcome → Text → ToolResultHistory
result site call outcome output = record {
  loop_id = site.id;
  request_index = site.request_index;
  call_id = call.tool_call_id;
  tool_name = call.name;
  outcome = outcome;
  output = output;
}

unfoldable pub static_output : Text → ℕ → Result Text Panic
static_output message max_bytes =
    expect (tool_output (if leb (byte_len message) max_bytes then message else []))

unfoldable pub terminal_tool_result :
    Site → ToolCall → ToolResultOutcome → Text → Result ToolResultHistory Panic
unfolding static_output
terminal_tool_result site call outcome message =
    static_output message site.max_output_bytes >>= λ output. ok (result site call outcome output)

unfoldable pub completed_result : Site → ToolCall → Text → Result ToolResultHistory Panic
unfolding terminal_tool_result
completed_result site call output =
    if leb (byte_len output) site.max_output_bytes
    then ok (result site call success output)
    else terminal_tool_result site call failed too_large_message

unfoldable pub provided_input_result : Site → ToolCall → Text → Result ToolResultHistory Panic
unfolding terminal_tool_result
provided_input_result site call content =
    if leb (byte_len content) site.max_output_bytes
    then elim (tool_output content) [
      | ok output ↦ ok (result site call input_provided output)
      | err e ↦ terminal_tool_result site call failed too_large_message
    ]
    else terminal_tool_result site call failed too_large_message

abbrev pub denial : Site → Option Text → Result Text Panic
denial site (some reason) =
    if leb (byte_len reason) site.max_output_bytes
    then expect (tool_output reason)
    else static_output denied_message site.max_output_bytes
denial site none = static_output denied_message site.max_output_bytes

unfoldable pub denied_result : Site → ToolCall → Option Text → Result ToolResultHistory Panic
unfolding static_output
denied_result site call reason =
    denial site reason >>= λ output. ok (result site call denied output)

-- settle_calls: the results that it appends.
unfoldable pub settle_calls :
    Site → List ToolCall → ToolResultOutcome → Text → Result (List ToolResultHistory) Panic
unfolding terminal_tool_result
settle_calls site [] outcome message = ok []
settle_calls site (call ∷ calls) outcome message = do
  first ← terminal_tool_result site call outcome message
  rest ← settle_calls site calls outcome message
  ok (first ∷ rest)
