-- ===== src/Assembler/Examples.antt =====
-- Tests and concrete instances of the theorems on the assembler: a stream with a text in two deltas,
-- cut inside a line end, and one call of a tool.
use minicore_runtime.Base.{
  ◌≡◌, refl, true, false, List, [], ◌∷◌, Option, is_some, none, some, ok, err,
}
use minicore_runtime.Text.{
  normalize_chars, Text, byte_len, valid_text, allowed_char, normalize_model_text,
}
use minicore_runtime.Text.Stream.{ends_with_return, strip_newline}
use minicore_runtime.Ids.{bytes_eq}
use minicore_runtime.Json.{
  validate_json_size, validate_json_shape, JsonValue, Serialized, json_object, no_members,
}
use minicore_runtime.Limits.{default_limits}
use minicore_runtime.Message.{
  normalize_parts, validate_tool_call_order, ToolCall, new_tool_call, text, tool_call,
}
use minicore_runtime.ModelError.{ModelError}
use minicore_runtime.Usage.{default_usage}
use minicore_runtime.Execution.{ToolSpec}
use minicore_runtime.Response.{
  ModelEvent, ModelResponse, text_delta, tool_call_start, tool_call_arguments_delta, tool_call_end,
  finish, tool_calls,
}
use minicore_runtime.Assembler.{Assembler, new_assembler, text_slot, tool_slot}
use minicore_runtime.Assembler.Finish.{push_all, finish_response}
use minicore_runtime.Assembler.Contents.{HasContents, push_all-HasContents}
use minicore_runtime.Assembler.Offered.{IsOffered, finish_response-IsOffered}
use minicore_runtime.Batch.{panic}
use minicore_runtime.PortCall.{EffectiveDeadline, DeadlineSource, Wake, pending, ready}
use minicore_runtime.Assembler.Attempt.{
  run_attempt, DropPanics, read_stream, await_start, next_event,
}
use minicore_runtime.Assembler.Sound.{Sound, run_attempt-Sound}
use minicore_runtime.Assembler.Ends.{run_attempt_ends}
use minicore_runtime.Assembler.Started.{AnswersStarts, finish_response-AnswersStarts}

abbrev parse : Text → Option JsonValue
parse s = some (json_object no_members)

abbrev to_writer : JsonValue → Serialized
to_writer value = record { chunks = 2 ∷ []; succeeds = true }

abbrev offered : List ToolSpec
offered =
    record { name = 120 ∷ []; description = 120 ∷ []; input_schema = json_object no_members } ∷ []

abbrev stream : List ModelEvent
stream =
    text_delta (104 ∷ 13 ∷ [])
    ∷ tool_call_start (49 ∷ []) (120 ∷ [])
    ∷ text_delta (10 ∷ 105 ∷ [])
    ∷ tool_call_arguments_delta (49 ∷ []) (123 ∷ 125 ∷ [])
    ∷ tool_call_end (49 ∷ [])
    ∷ finish tool_calls
    ∷ []

abbrev call : ToolCall
call = record {
  tool_call_id = 49 ∷ [];
  name = 120 ∷ [];
  arguments = json_object no_members;
  call_index = 0;
}

abbrev assembled : Assembler
assembled = record {
  request_tools = offered;
  limits = default_limits;
  slots = text_slot ∷ tool_slot 0 ∷ [];
  text = 104 ∷ 10 ∷ 105 ∷ [];
  reasoning = [];
  text_ended_with_cr = false;
  reasoning_ended_with_cr = false;
  tools =
      record {
        tool_call_id = 49 ∷ [];
        name = 120 ∷ [];
        arguments_text = 123 ∷ 125 ∷ [];
        call = some call;
        call_index = 0;
      }
      ∷ [];
  usage = none;
  provider_replay = none;
  finish_reason = some tool_calls;
  observed_event = true;
}

stream_assembles :
    push_all parse to_writer (new_assembler offered default_limits) stream ≡ ok assembled
unfolding push_all byte_len normalize_model_text valid_text allowed_char normalize_chars bytes_eq
    ends_with_return strip_newline new_tool_call validate_json_size validate_json_shape
stream_assembles = refl

abbrev response : ModelResponse
response = record {
  parts = text (104 ∷ 10 ∷ 105 ∷ []) ∷ tool_call call ∷ [];
  finish_reason = tool_calls;
  usage = some default_usage;
  provider_replay = none;
}

stream_responds : finish_response assembled ≡ ok (ok response)
unfolding finish_response normalize_parts validate_tool_call_order valid_text byte_len
    normalize_model_text allowed_char
stream_responds = refl

finish_response-AnswersStarts_example : AnswersStarts stream (finish_response assembled)
finish_response-AnswersStarts_example =
    finish_response-AnswersStarts parse to_writer offered default_limits stream assembled
      stream_assembles

push_all-HasContents_example : HasContents default_limits stream assembled
push_all-HasContents_example =
    push_all-HasContents parse to_writer offered default_limits stream assembled stream_assembles

finish_response-IsOffered_example : IsOffered offered default_limits response
finish_response-IsOffered_example =
    finish_response-IsOffered parse to_writer offered default_limits stream assembled response
      stream_assembles stream_responds

abbrev deadline : EffectiveDeadline
deadline = record { instant = 10; source = DeadlineSource.turn }

abbrev starting : List (Wake (Unit {0}) ModelError)
starting =
    record { parent_cancelled = false; now = 1; future = ready (ok tt) }
    ∷ record { parent_cancelled = false; now = 10; future = pending }
    ∷ []

-- One event, then the host cancels.
abbrev wakes : List (Wake (Option ModelEvent) ModelError)
wakes =
    record { parent_cancelled = false; now = 2; future = ready (ok (some (text_delta (104 ∷ [])))) }
    ∷ record { parent_cancelled = true; now = 3; future = pending }
    ∷ []

-- A stream that panics when it is dropped.
abbrev stream_drop_panics : DropPanics
stream_drop_panics = record { start_future = false; stream = true }

abbrev quiet : DropPanics
quiet = record { start_future = false; stream = false }

stream_drop_leaves_attempt :
    run_attempt parse to_writer offered default_limits deadline false stream_drop_panics starting
      wakes
    ≡ some (err panic)
unfolding run_attempt read_stream await_start next_event byte_len valid_text allowed_char
    normalize_model_text
stream_drop_leaves_attempt = refl

run_attempt-Sound_example :
    Sound offered default_limits
      (run_attempt parse to_writer offered default_limits deadline false quiet starting wakes)
run_attempt-Sound_example =
    run_attempt-Sound parse to_writer offered default_limits deadline false quiet starting wakes
      refl refl

run_attempt_ends_example :
    is_some (run_attempt parse to_writer offered default_limits deadline false quiet starting wakes)
    ≡ true
run_attempt_ends_example =
    run_attempt_ends parse to_writer offered default_limits deadline false quiet starting wakes refl
      refl
