-- ===== src/Runner/Examples.antt =====
-- Tests and concrete instances of the theorems on the runner: a loop whose first response calls a
-- tool and whose second one answers.
use minicore_runtime.Base.{
  ℕ, ◌≡◌, refl, true, false, List, [], ◌∷◌, Option, none, some, Result, ok, arith,
}
use minicore_runtime.Text.{Text}
use minicore_runtime.Interaction.{CanonicalResult}
use minicore_runtime.Json.{json_object, no_members}
use minicore_runtime.PortCall.{returned}
use minicore_runtime.Message.{ToolCall, text, tool_call}
use minicore_runtime.Exchange.{user}
use minicore_runtime.Control.{new, CancelSource, CancelReason}
use minicore_runtime.Control.Host.{host_cancels, Unsealed}
use minicore_runtime.Batch.{Panic}
use minicore_runtime.Batch.Port.{Outside, Interacting, completed, dropped_arm}
use minicore_runtime.Response.{ModelResponse, stop, tool_calls}
use minicore_runtime.Execution.{ExecutionConfig, auto}
use minicore_runtime.Options.{LoopOptions, LoopRequest, default_options}
use minicore_runtime.Control.Calls.{step}
use minicore_runtime.Control.{mark_cancel}
use minicore_runtime.Control.Host.{land}
use minicore_runtime.Request.{with_validated_tools}
use minicore_runtime.Exchange.{validate_tool_exchange, check_exchange, validate_message}
use minicore_runtime.Text.{valid_text, byte_len, allowed_char, is_control}
use minicore_runtime.Ids.{bytes_eq}
use minicore_runtime.Usage.{sum_usage, sum_field}
use minicore_runtime.Message.{as_tool_call}
use minicore_runtime.Batch.{completed_result}
use minicore_runtime.History.{append_tool_result}
use minicore_runtime.Runner.{LoopControl, LoopReport, LoopOutcome}
use minicore_runtime.Runner.Turn.{Pass}
use minicore_runtime.Runner.Loop.{run_loop}
use minicore_runtime.Runner.Report.{HasReport}
use minicore_runtime.Runner.Published.{Reported, run_loop-Reported}
use minicore_runtime.Runner.Appended.{IsExchanged, run_loop-IsExchanged}
use minicore_runtime.Runner.Bounds.{IsWithin, run_loop-IsWithin, run_loop_ends}
use minicore_runtime.Runner.Completed.{IsConcluded, run_loop-IsConcluded}

abbrev config : ExecutionConfig
config = record {
  descriptor = record {
    model_ref = 109 ∷ [];
    context_window = 1000;
    supported_reasoning = auto ∷ [];
    supports_tools = true;
  };
  reasoning = auto;
  tools =
      record { name = 120 ∷ []; description = 120 ∷ []; input_schema = json_object no_members }
      ∷ [];
}

abbrev options : LoopOptions
options = record default_options { max_tool_rounds = 2 }

abbrev request : LoopRequest
request = record { history = []; input = 104 ∷ []; config = config }

abbrev call : ToolCall
call = record {
  tool_call_id = 49 ∷ [];
  name = 120 ∷ [];
  arguments = json_object no_members;
  call_index = 0;
}

abbrev nobody : Interacting ExecutionConfig
nobody = record { id = none; reply = 0; meanwhile = []; arm = dropped_arm }

abbrev tool_answers : ℕ → Outside ExecutionConfig
tool_answers i = record {
  token_cancelled = false;
  policy_outcome = none;
  approval = nobody;
  tool_outcome = returned (ok (completed (111 ∷ [])));
  input = nobody;
}

abbrev calling : ModelResponse
calling = record {
  parts = tool_call call ∷ [];
  finish_reason = tool_calls;
  usage = none;
  provider_replay = none;
}

abbrev answering : ModelResponse
answering = record {
  parts = text (104 ∷ []) ∷ [];
  finish_reason = stop;
  usage = none;
  provider_replay = none;
}

abbrev pass : ModelResponse → Pass
pass response = record {
  before = [];
  now = 0;
  inputs = ok [];
  during_prompt = [];
  prompt_outcome = returned (ok (user (104 ∷ []) ∷ []));
  later_inputs = ok [];
  during_model = [];
  model_outcome = ok response;
  outside = tool_answers;
}

abbrev passes : List Pass
passes = pass calling ∷ pass answering ∷ pass answering ∷ []

abbrev encode : CanonicalResult → Text
encode v = []

control : LoopControl
unfolding new
control = new (1 ∷ [])

control_is_open : Unsealed control
unfolding control new
control_is_open = refl

run_loop-Reported_example :
    Reported (run_loop (λ c. true) encode options request passes [] [] control)
run_loop-Reported_example =
    run_loop-Reported (λ c. true) encode options request passes [] [] control control_is_open

run_loop-IsExchanged_example :
    HasReport
      (IsExchanged options)
      (run_loop (λ c. true) encode options request passes [] [] control)
run_loop-IsExchanged_example =
    run_loop-IsExchanged (λ c. true) encode options request passes [] [] control control_is_open

run_loop-IsWithin_example :
    HasReport (IsWithin options) (run_loop (λ c. true) encode options request passes [] [] control)
run_loop-IsWithin_example =
    run_loop-IsWithin (λ c. true) encode options request passes [] [] control control_is_open

run_loop_ends_example :
    (report : LoopReport) × ((run_loop (λ c. true) encode options request passes [] [] control).1
      ≡ some (ok report))
run_loop_ends_example =
    run_loop_ends (λ c. true) encode options request passes [] [] control control_is_open
      (omega arith) (omega arith) (omega arith)

run_loop-IsConcluded_example :
    HasReport IsConcluded (run_loop (λ c. true) encode options request passes [] [] control)
run_loop-IsConcluded_example =
    run_loop-IsConcluded (λ c. true) encode options request passes [] [] control control_is_open

-- What the report says of the outcome and the counts.
abbrev summary : Option (Result LoopReport Panic) → Option (LoopOutcome × ℕ × ℕ)
summary (some (ok report)) = some (report.outcome, report.requests, report.tool_rounds)
summary _ = none

second_response_completes :
    summary (run_loop (λ c. true) encode options request passes [] [] control).1
    ≡ some (LoopOutcome.completed, 2, 1)
unfolding run_loop control land step with_validated_tools validate_tool_exchange check_exchange
    validate_message valid_text byte_len allowed_char is_control bytes_eq sum_usage sum_field
    as_tool_call mark_cancel completed_result append_tool_result
    minicore_runtime.Runner.Turn.take_boundary minicore_runtime.Runner.Turn.prepare_prompt
    minicore_runtime.Runner.Turn.build_model_request minicore_runtime.Runner.Turn.no_tool_finish
    minicore_runtime.Batch.Port.valid_decision
second_response_completes = refl

cancelled_at_the_seal :
    summary
      (run_loop
        (λ c. true)
        encode
        options
        request
        passes
        (host_cancels CancelSource.shutdown ∷ [])
        []
        control).1
    ≡ some (LoopOutcome.cancelled CancelReason.shutdown, 2, 1)
unfolding run_loop control land step with_validated_tools validate_tool_exchange check_exchange
    validate_message valid_text byte_len allowed_char is_control bytes_eq sum_usage sum_field
    as_tool_call mark_cancel completed_result append_tool_result
    minicore_runtime.Runner.Turn.take_boundary minicore_runtime.Runner.Turn.prepare_prompt
    minicore_runtime.Runner.Turn.build_model_request minicore_runtime.Runner.Turn.no_tool_finish
    minicore_runtime.Batch.Port.valid_decision
cancelled_at_the_seal = refl
