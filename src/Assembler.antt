-- ===== src/Assembler.antt =====
-- src/model/driver/assembler.rs: the assembly of a response from the events of a stream.
pub mod Finish
mod Examples
mod Fits
pub mod Deltas
pub mod Attempt
pub mod Sound
pub mod Ends
pub mod Offered
pub mod Contents
pub mod Ordered
pub mod Calls
mod Keyed
pub mod Started
mod Static
use minicore_runtime.Base.{
  ℕ, zero, suc, ◌+◌, Bool, true, false, ◌&&◌, ◌||◌, not, List, [], ◌∷◌, ◌++◌, length, any, is_empty,
  Option, none, some, is_some, leb, ltb, if◌then◌else◌, Result, ok, err, ◌>>=◌, map_err,
  checked_add, u32_mod,
}
use minicore_runtime.Text.{Text, byte_len, usize_max, normalize_model_text}
use minicore_runtime.Text.Stream.{normalized_delta}
use minicore_runtime.Ids.{Bytes, bytes_eq}
use minicore_runtime.Json.{JsonValue, Serialized}
use minicore_runtime.Limits.{LoopLimits, max_json_bytes}
use minicore_runtime.Diagnostic.{DiagnosticCode, DiagnosticCategory}
use minicore_runtime.ModelError.{ModelError, ModelErrorKind, error_started}
use minicore_runtime.Usage.{Usage, default_usage}
use minicore_runtime.Message.{
  AssistantPart, ModelValueError, ToolCall, text, reasoning, tool_call, new_tool_call,
  new_reasoning,
}
use minicore_runtime.Exchange.{ProviderReplay}
use minicore_runtime.Driver.{generated_error, observed_delivery}
use minicore_runtime.Batch.{Panic, panic}
use minicore_runtime.Response.{
  ModelFinishReason, ModelResponse, ModelEvent, text_delta, reasoning_delta, tool_call_start,
  tool_call_arguments_delta, tool_call_end, usage_event, provider_replay_event, finish,
  validate_event, new_response, stop, tool_calls, unknown, content_filtered, refused,
}
use minicore_runtime.Execution.{ToolSpec, has_tool}

pub data ModelDriverProgress : Type 0 where
  text_progress reasoning_progress : Text → ModelDriverProgress

pub data PartSlot : Type 0 where
  text_slot reasoning_slot : PartSlot
  tool_slot : ℕ → PartSlot

pub record ToolAssembly : Type 0 where
  pub tool_call_id : Bytes
  pub name : Bytes
  pub arguments_text : Text
  pub call : Option ToolCall
  pub call_index : ℕ

pub record Assembler : Type 0 where
  pub request_tools : List ToolSpec
  pub limits : LoopLimits
  pub slots : List PartSlot
  pub text : Text
  pub reasoning : Text
  pub text_ended_with_cr : Bool
  pub reasoning_ended_with_cr : Bool
  pub tools : List ToolAssembly
  pub usage : Option Usage
  pub provider_replay : Option ProviderReplay
  pub finish_reason : Option ModelFinishReason
  pub observed_event : Bool

-- Assembler::new
abbrev pub new_assembler : List ToolSpec → LoopLimits → Assembler
new_assembler request_tools limits = record {
  request_tools = request_tools;
  limits = limits;
  slots = [];
  text = [];
  reasoning = [];
  text_ended_with_cr = false;
  reasoning_ended_with_cr = false;
  tools = [];
  usage = none;
  provider_replay = none;
  finish_reason = none;
  observed_event = false;
}

-- "unexpected tool call in model response"
abbrev unexpected_text : Text
unexpected_text =
    117 ∷ 110 ∷ 101 ∷ 120 ∷ 112 ∷ 101 ∷ 99 ∷ 116 ∷ 101 ∷ 100 ∷ 32 ∷ 116 ∷ 111 ∷ 111 ∷ 108 ∷ 32 ∷ 99
    ∷ 97 ∷ 108 ∷ 108 ∷ 32 ∷ 105 ∷ 110 ∷ 32 ∷ 109 ∷ 111 ∷ 100 ∷ 101 ∷ 108 ∷ 32 ∷ 114 ∷ 101 ∷ 115
    ∷ 112 ∷ 111 ∷ 110 ∷ 115 ∷ 101 ∷ []

-- "invalid model provider response"
abbrev invalid_text : Text
invalid_text =
    105 ∷ 110 ∷ 118 ∷ 97 ∷ 108 ∷ 105 ∷ 100 ∷ 32 ∷ 109 ∷ 111 ∷ 100 ∷ 101 ∷ 108 ∷ 32 ∷ 112 ∷ 114 ∷ 111
    ∷ 118 ∷ 105 ∷ 100 ∷ 101 ∷ 114 ∷ 32 ∷ 114 ∷ 101 ∷ 115 ∷ 112 ∷ 111 ∷ 110 ∷ 115 ∷ 101 ∷ []

abbrev pub assembler_message : ModelErrorKind → Text
assembler_message ModelErrorKind.unexpected_tool_call = unexpected_text
assembler_message _ = invalid_text

-- assembler_error
unfoldable pub assembler_error : ModelErrorKind → ModelError
assembler_error kind = error_started kind (record {
  code = DiagnosticCode.model_malformed_response;
  category = DiagnosticCategory.model;
  message = assembler_message kind;
  retryable = false;
})

abbrev pub invalid_response : ModelError
invalid_response = assembler_error ModelErrorKind.invalid_provider_response

unfoldable pub append_bounded : Text → Text → ℕ → Result Text ModelError
append_bounded target delta maximum =
    elim (checked_add (usize_max + 1) (byte_len target) (byte_len delta)) [
      | none ↦ err invalid_response
      | some length ↦ if ltb maximum length then err invalid_response else ok (target ++ delta)
    ]

-- The slot of a text, when its first delta comes.
abbrev pub with_slot : PartSlot → Text → List PartSlot → List PartSlot
with_slot slot content slots = if is_empty content then slots ++ slot ∷ [] else slots

-- tool_mut, and what is done with the tool that it finds.
unfoldable pub update_tool :
    Bytes
    → (ToolAssembly → Result ToolAssembly ModelError)
    → List ToolAssembly
    → Result (List ToolAssembly) ModelError
update_tool id f [] = err invalid_response
update_tool id f (tool ∷ tools) =
    let rest = update_tool id f tools >>= λ tools'. ok (tool ∷ tools') in
    if bytes_eq tool.tool_call_id id then (f tool >>= λ tool'. ok (tool' ∷ tools)) else rest

abbrev pub with_arguments : Text → ToolAssembly → Result ToolAssembly ModelError
with_arguments delta tool =
    if is_some tool.call
    then err invalid_response
    else append_bounded tool.arguments_text delta max_json_bytes >>= λ arguments_text.
        ok (record tool { arguments_text = arguments_text })

abbrev pub Pushed : Type 0
Pushed = Result (Assembler × Option ModelDriverProgress) ModelError

-- After the normalization of a delta.
abbrev pub push_text : Assembler → Text × Bool → Pushed
push_text a (delta, ended_with_cr) =
    if is_empty delta
    then ok (record a { text_ended_with_cr = ended_with_cr }, none)
    else append_bounded a.text delta a.limits.max_model_text_bytes >>= λ content. ok (
      record a {
        text_ended_with_cr = ended_with_cr;
        slots = with_slot text_slot a.text a.slots;
        text = content;
      },
      some (text_progress delta),
    )

abbrev pub push_reasoning : Assembler → Text × Bool → Pushed
push_reasoning a (delta, ended_with_cr) =
    if is_empty delta
    then ok (record a { reasoning_ended_with_cr = ended_with_cr }, none)
    else append_bounded a.reasoning delta a.limits.max_model_reasoning_bytes >>= λ content. ok (
      record a {
        reasoning_ended_with_cr = ended_with_cr;
        slots = with_slot reasoning_slot a.reasoning a.slots;
        reasoning = content;
      },
      some (reasoning_progress delta),
    )

-- The state with a new tool and its slot.
abbrev pub with_start : Assembler → Bytes → Bytes → Assembler
with_start a tool_call_id tool_name = record a {
  tools =
      a.tools
      ++ record {
        tool_call_id = tool_call_id;
        name = tool_name;
        arguments_text = [];
        call = none;
        call_index = length a.tools;
      }
        ∷ [];
  slots = a.slots ++ tool_slot (length a.tools) ∷ [];
}

abbrev pub start_refused : Assembler → Bytes → Bool
start_refused a tool_call_id =
    leb a.limits.max_tool_calls_per_response (length a.tools)
    || any (λ (tool : ToolAssembly). bytes_eq tool.tool_call_id tool_call_id) a.tools
    || leb u32_mod (length a.tools)

abbrev pub push_start : Assembler → Bytes → Bytes → Pushed
push_start a tool_call_id tool_name =
    if not (has_tool a.request_tools tool_name)
    then err (assembler_error ModelErrorKind.unexpected_tool_call)
    else if start_refused a tool_call_id
    then err invalid_response
    else ok (with_start a tool_call_id tool_name, none)

abbrev pub with_tools : Assembler → Result (List ToolAssembly) ModelError → Pushed
with_tools a r = r >>= λ tools. ok (record a { tools = tools }, none)

-- `parse` is `serde_json::from_str` and `to_writer` the serializer.
module _ (parse : Text → Option JsonValue) (to_writer : JsonValue → Serialized) where
  abbrev pub parsed_call : ℕ → ToolAssembly → Option JsonValue → Result ToolAssembly ModelError
  parsed_call maximum tool none = err invalid_response
  parsed_call maximum tool (some arguments) =
      map_err (λ e. invalid_response)
        (new_tool_call to_writer tool.tool_call_id tool.name arguments tool.call_index maximum)
      >>= λ call. ok (record tool { call = some call })

  abbrev pub with_call : ℕ → ToolAssembly → Result ToolAssembly ModelError
  with_call maximum tool =
      if is_some tool.call || is_empty tool.arguments_text
      then err invalid_response
      else parsed_call maximum tool (parse tool.arguments_text)

  -- The match on the event.
  unfoldable pub push_event : Assembler → ModelEvent → Pushed
  unfolding normalized_delta append_bounded update_tool
  push_event a (text_delta delta) = push_text a (normalized_delta delta a.text_ended_with_cr)
  push_event a (reasoning_delta delta) =
      push_reasoning a (normalized_delta delta a.reasoning_ended_with_cr)
  push_event a (tool_call_start tool_call_id tool_name) = push_start a tool_call_id tool_name
  push_event a (tool_call_arguments_delta tool_call_id delta) =
      with_tools a (update_tool tool_call_id (with_arguments (normalize_model_text delta)) a.tools)
  push_event a (tool_call_end tool_call_id) =
      with_tools a (update_tool tool_call_id (with_call a.limits.max_tool_arguments_bytes) a.tools)
  push_event a (usage_event usage) =
      if is_some a.usage then err invalid_response else ok (record a { usage = some usage }, none)
  push_event a (provider_replay_event replay) =
      if is_some a.provider_replay
      then err invalid_response
      else ok (record a { provider_replay = some replay }, none)
  push_event a (finish reason) =
      if any (λ (tool : ToolAssembly). not (is_some tool.call)) a.tools
      then err invalid_response
      else ok (record a { finish_reason = some reason }, none)

  abbrev pub push_checked : Assembler → ModelEvent → Result (Unit {0}) ModelValueError → Pushed
  push_checked a event (err e) = err invalid_response
  push_checked a event (ok u) =
      if is_some a.finish_reason then err invalid_response else push_event a event

  -- Assembler::push. A refused event ends the attempt, and the assembler with it.
  unfoldable pub push : Assembler → ModelEvent → Pushed
  unfolding push_event validate_event
  push a event = push_checked a event (validate_event event)
