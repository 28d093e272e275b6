-- ===== src/Prompt/Examples.antt =====
-- Tests and concrete instances of the theorems on the prompt: a summary, an input and a call with its
-- result.
use minicore_runtime.Base.{◌≡◌, refl, false, List, [], ◌∷◌, ◌++◌, none, some, ok, err, arith}
use minicore_runtime.Text.{normalize_model_text, char_len, Text, valid_text, byte_len, allowed_char}
use minicore_runtime.Json.{json_object, no_members}
use minicore_runtime.Usage.{default_usage}
use minicore_runtime.Message.{validate_tool_call_order, as_tool_call, ToolCall, text, tool_call}
use minicore_runtime.Exchange.{ModelMessage, new_system}
use minicore_runtime.Batch.{ToolResultHistory, panic}
use minicore_runtime.Tools.{ToolResultOutcome}
use minicore_runtime.Response.{tool_calls}
use minicore_runtime.Execution.{auto}
use minicore_runtime.Request.{with_validated_tools, default_model_limits}
use minicore_runtime.History.{
  HistoryItem, AssistantHistory, user_item, assistant_item, result_item, summary_item,
  prompt_message,
}
use minicore_runtime.Options.{default_options}
use minicore_runtime.Runner.Exchange.{nothing, input, response}
use minicore_runtime.Prompt.{assistant_message, summary_prefix, prepare, slice_to, summary_message}
use minicore_runtime.Prompt.Summary.{Keeps, summary_message_lem}
use minicore_runtime.Message.Order as Order
use minicore_runtime.Prompt.Conversation.{empty, summarized}
use minicore_runtime.Prompt.Accepted.{prepare-IsAccepted}

-- A slice inside the two bytes of é panics.
slice_inside : slice_to (104 ∷ 233 ∷ []) 2 ≡ err panic
unfolding slice_to char_len
slice_inside = refl

slice_between : slice_to (104 ∷ 233 ∷ []) 3 ≡ ok (104 ∷ 233 ∷ [])
unfolding slice_to char_len
slice_between = refl

abbrev call : ToolCall
call = record {
  tool_call_id = 49 ∷ [];
  name = 120 ∷ [];
  arguments = json_object no_members;
  call_index = 0;
}

abbrev answer : AssistantHistory
answer = record {
  loop_id = 1 ∷ [];
  request_index = 0;
  model = 109 ∷ [];
  reasoning = auto;
  content = text (104 ∷ []) ∷ tool_call call ∷ [];
  provider_replay = none;
  finish_reason = tool_calls;
  usage = default_usage;
}

abbrev answer_result : ToolResultHistory
answer_result = record {
  loop_id = 1 ∷ [];
  request_index = 0;
  call_id = 49 ∷ [];
  tool_name = 120 ∷ [];
  outcome = ToolResultOutcome.success;
  output = 111 ∷ [];
}

abbrev base : List HistoryItem
base = summary_item (115 ∷ []) ∷ []

abbrev appended : List HistoryItem
appended =
    user_item (record { loop_id = 1 ∷ []; kind = prompt_message; input = 104 ∷ [] })
    ∷ assistant_item answer
    ∷ result_item answer_result
    ∷ []

prepare-IsAccepted_example :
    (ms : List ModelMessage) × (prepare (some (115 ∷ [])) false 10 5 (base ++ appended)
      ≡ ok (ok ms))
    × (with_validated_tools ms [] default_model_limits auto
        ≡ ok
            (record { messages = ms; tools = []; limits = default_model_limits; reasoning = auto }))
unfolding Order.tool_calls valid_text as_tool_call byte_len allowed_char assistant_message
    validate_tool_call_order normalize_model_text
prepare-IsAccepted_example =
    prepare-IsAccepted default_options (some (115 ∷ [])) 10 5 base appended 1 []
      default_model_limits auto (summarized (115 ∷ []) [] empty)
      (input (record { loop_id = 1 ∷ []; kind = prompt_message; input = 104 ∷ [] }) 0 1 _
        (response answer (1 ∷ []) (answer_result ∷ []) 0 1 [] refl
          ((refl, refl, refl, omega arith), tt) (nothing 1)))
      (refl, (refl, ((refl, refl, (refl, tt), (refl, tt), omega arith), (tt, tt)))) refl refl
      (omega arith)

summary_message_lem_example :
    (kept : Text) × Keeps (115 ∷ 233 ∷ []) kept
    × (summary_message (115 ∷ 233 ∷ []) ≡ ok (new_system (summary_prefix ++ kept)))
summary_message_lem_example = summary_message_lem (115 ∷ 233 ∷ [])
