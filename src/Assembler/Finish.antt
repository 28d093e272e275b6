-- ===== src/Assembler/Finish.antt =====
-- src/model/driver/assembler.rs, finish: the response that the assembled slots make.
use minicore_runtime.Base.{
  ℕ, zero, suc, Bool, true, false, ◌&&◌, ◌||◌, not, List, [], ◌∷◌, is_empty, Option, none, some,
  if◌then◌else◌, Result, ok, err, ◌>>=◌, map_err,
}
use minicore_runtime.Text.{Text}
use minicore_runtime.ModelError.{ModelError, ModelErrorKind}
use minicore_runtime.Json.{JsonValue, Serialized}
use minicore_runtime.Usage.{usage_or_default}
use minicore_runtime.Message.{AssistantPart, ToolCall, text, reasoning, tool_call, new_reasoning}
use minicore_runtime.Driver.{generated_error, observed_delivery}
use minicore_runtime.Batch.{Panic, panic}
use minicore_runtime.Response.{
  ModelEvent, ModelFinishReason, ModelResponse, new_response, tool_calls, unknown, content_filtered,
  refused,
}
use minicore_runtime.Assembler.{
  Assembler, ToolAssembly, PartSlot, text_slot, reasoning_slot, tool_slot, invalid_response, push,
}

-- `self.tools[index].call.take().expect(…)`
unfoldable pub take_call : ℕ → List ToolAssembly → Result (ToolCall × List ToolAssembly) Panic
take_call index [] = err panic
take_call zero (tool ∷ tools) = elim tool.call [
  | none ↦ err panic
  | some call ↦ ok (call, record tool { call = none } ∷ tools)
]
take_call (suc index) (tool ∷ tools) =
    take_call index tools >>= λ (call, tools'). ok (call, tool ∷ tools')

abbrev pub Parts : Type 0
Parts = Result (Result (List AssistantPart) ModelError) Panic

abbrev pub with_part : AssistantPart → Parts → Parts
with_part part rest = rest >>= λ parts. ok (parts >>= λ parts'. ok (part ∷ parts'))

-- The loop over the slots. A text that a slot has taken leaves an empty one.
unfoldable pub slot_parts : Text → Text → List ToolAssembly → List PartSlot → Parts
unfolding take_call new_reasoning
slot_parts content thought tools [] = ok (ok [])
slot_parts content thought tools (text_slot ∷ slots) =
    with_part (text content) (slot_parts [] thought tools slots)
slot_parts content thought tools (reasoning_slot ∷ slots) =
    let rest = slot_parts content [] tools slots in
    elim (new_reasoning (some thought) none none none) [
      | err e ↦ ok (err invalid_response)
      | ok r ↦ with_part (reasoning r) rest
    ]
slot_parts content thought tools (tool_slot index ∷ slots) =
    take_call index tools >>= λ (call, tools').
    with_part (tool_call call) (slot_parts content thought tools' slots)

abbrev calls_tools : ModelFinishReason → Bool
calls_tools tool_calls = true
calls_tools _ = false

abbrev is_unknown : ModelFinishReason → Bool
is_unknown unknown = true
is_unknown _ = false

abbrev withheld : ModelFinishReason → Bool
withheld content_filtered = true
withheld refused = true
withheld _ = false

-- The two tests of the reason against what has been assembled.
abbrev pub contradicts : Assembler → ModelFinishReason → Bool
contradicts a reason =
    (not (is_empty a.tools) && not (calls_tools reason || is_unknown reason))
    || (is_empty a.tools && calls_tools reason)
    || (withheld reason && is_empty a.text)

abbrev pub Finished : Type 0
Finished = Result (Result ModelResponse ModelError) Panic

abbrev pub with_reason : Assembler → ModelFinishReason → Finished
with_reason a reason =
    if contradicts a reason
    then ok (err invalid_response)
    else slot_parts a.text a.reasoning a.tools a.slots >>= λ assembled. ok (
        assembled >>= λ parts.
        map_err (λ e. invalid_response)
          (new_response parts reason (some (usage_or_default a.usage)) a.provider_replay))

abbrev pub finished_by : Assembler → Option ModelFinishReason → Finished
finished_by a none =
    ok (
      err (generated_error ModelErrorKind.incomplete_response (observed_delivery a.observed_event)))
finished_by a (some reason) = with_reason a reason

-- Assembler::finish
unfoldable pub finish_response : Assembler → Finished
unfolding slot_parts new_response generated_error observed_delivery
finish_response a = finished_by a a.finish_reason

-- The events of a stream, as run_attempt pushes them: a refused one ends the attempt.
unfoldable pub push_all :
    (Text → Option JsonValue)
    → (JsonValue → Serialized)
    → Assembler
    → List ModelEvent
    → Result Assembler ModelError
unfolding push
push_all parse to_writer a [] = ok a
push_all parse to_writer a (event ∷ events) =
    push parse to_writer (record a { observed_event = true }) event >>= λ (a', progress).
    push_all parse to_writer a' events
