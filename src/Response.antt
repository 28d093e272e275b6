-- ===== src/Response.antt =====
-- src/model/response.rs: the response of a model and the events that it is assembled from.
use minicore_runtime.Base.{
  ℕ, ◌*◌, List, Option, is_empty, is_some, ◌&&◌, not, leb, if◌then◌else◌, Result, ok, err, ◌>>=◌,
  guard,
}
use minicore_runtime.Text.{Text, byte_len}
use minicore_runtime.Ids.{Bytes}
use minicore_runtime.Usage.{Usage}
use minicore_runtime.Message.{
  AssistantPart, ModelValueError, empty_response_parts, invalid_event, normalize_parts,
  validate_tool_call_order,
}
use minicore_runtime.Exchange.{ProviderReplay}

pub data ModelFinishReason : Type 0 where
  stop tool_calls length content_filtered refused unknown : ModelFinishReason

pub record ModelResponse : Type 0 where
  pub parts : List AssistantPart
  pub finish_reason : ModelFinishReason
  pub usage : Option Usage
  pub provider_replay : Option ProviderReplay

abbrev checked_response :
    List AssistantPart
    → ModelFinishReason
    → Option Usage
    → Option ProviderReplay
    → Result ModelResponse ModelValueError
checked_response parts finish_reason usage provider_replay =
    if is_empty parts && not (is_some provider_replay)
    then err empty_response_parts
    else validate_tool_call_order parts >>= λ u. ok (record {
      parts = parts;
      finish_reason = finish_reason;
      usage = usage;
      provider_replay = provider_replay;
    })

-- ModelResponse::new_with_provider_replay
unfoldable pub new_response :
    List AssistantPart
    → ModelFinishReason
    → Option Usage
    → Option ProviderReplay
    → Result ModelResponse ModelValueError
new_response parts = checked_response (normalize_parts parts)

abbrev pub max_model_event_text_bytes : ℕ
max_model_event_text_bytes = 64 * 1024

pub data ModelEvent : Type 0 where
  text_delta reasoning_delta : Text → ModelEvent
  tool_call_start : Bytes → Bytes → ModelEvent
  tool_call_arguments_delta : Bytes → Text → ModelEvent
  tool_call_end : Bytes → ModelEvent
  usage_event : Usage → ModelEvent
  provider_replay_event : ProviderReplay → ModelEvent
  finish : ModelFinishReason → ModelEvent

-- ModelEvent::validate
unfoldable pub validate_event : ModelEvent → Result (Unit {0}) ModelValueError
validate_event (text_delta delta) =
    guard (leb (byte_len delta) max_model_event_text_bytes) invalid_event
validate_event (reasoning_delta delta) =
    guard (leb (byte_len delta) max_model_event_text_bytes) invalid_event
validate_event (tool_call_arguments_delta id delta) =
    guard (leb (byte_len delta) max_model_event_text_bytes) invalid_event
validate_event _ = ok tt
