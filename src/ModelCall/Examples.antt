-- ===== src/ModelCall/Examples.antt =====
-- A concrete instance of the theorem on the text of a call: the start of the first attempt is refused,
-- and the second attempt streams a text in two deltas.
use minicore_runtime.Base.{
  ℕ, ◌≡◌, ◌*◌, ◌^◌, refl, true, false, [], ◌∷◌, Option, none, some, ok, err,
}
use minicore_runtime.Text.{
  bounded_text, Text, normalize_chars, byte_len, valid_text, allowed_char, normalize_model_text,
}
use minicore_runtime.Text.Stream.{ends_with_return, strip_newline}
use minicore_runtime.Json.{JsonValue, Serialized, json_object, no_members}
use minicore_runtime.Limits.{default_limits}
use minicore_runtime.Diagnostic.{DiagnosticCode, DiagnosticCategory}
use minicore_runtime.ModelError.{ModelError, not_started, retryable, rate_limited}
use minicore_runtime.Message.{normalize_parts, validate_tool_call_order, text}
use minicore_runtime.Usage.{default_usage}
use minicore_runtime.PortCall.{EffectiveDeadline, Wake, turn, ready}
use minicore_runtime.Driver.{RetryPolicySnapshot, evaluate_retry}
use minicore_runtime.Driver.Run.{
  Look, run_attempts, run_detailed, after_failure, precheck, wait_for_retry,
}
use minicore_runtime.Response.{ModelEvent, ModelResponse, text_delta, finish, stop}
use minicore_runtime.Assembler.{text_progress}
use minicore_runtime.Assembler.Attempt.{
  run_attempt, attempt_progress, read_stream, stream_progress, await_start, next_event,
}
use minicore_runtime.ModelCall.{AttemptRun, rounds_of, progress_from, run_call, call_progress}
use minicore_runtime.ModelCall.Shown.{shown}
use minicore_runtime.ModelCall.Returned.{run_call-shown}

abbrev pub parse : Text → Option JsonValue
parse s = some (json_object no_members)

abbrev pub to_writer : JsonValue → Serialized
to_writer value = record { chunks = 2 ∷ []; succeeds = true }

abbrev pub policy : RetryPolicySnapshot
policy = record { max_attempts = 2; base_delay = 100 * 10 ^ 6 }

abbrev pub deadline : EffectiveDeadline
deadline = record { instant = 10 ^ 12; source = turn }

abbrev pub at_time : ℕ → Look
at_time t = record { cancelled = false; now = t }

abbrev busy : ModelError
busy = record {
  kind = rate_limited;
  delivery = not_started;
  retry_hint = retryable none;
  diagnostic = record {
    code = DiagnosticCode.model_unavailable;
    category = DiagnosticCategory.model;
    message = [];
    retryable = true;
  };
}

abbrev gives : ModelEvent → Wake (Option ModelEvent) ModelError
gives event = record { parent_cancelled = false; now = 4; future = ready (ok (some event)) }

abbrev pub refused : AttemptRun
refused = record {
  before = at_time 1;
  start_panics = false;
  drops = record { start_future = false; stream = false };
  starting = record { parent_cancelled = false; now = 2; future = ready (err busy) } ∷ [];
  wakes = [];
  judged_at = 3;
  waits_from = 3;
  retry_wakes = at_time (10 ^ 9) ∷ [];
}

abbrev pub answered : AttemptRun
answered = record {
  before = at_time (10 ^ 9);
  start_panics = false;
  drops = record { start_future = false; stream = false };
  starting = record { parent_cancelled = false; now = 2; future = ready (ok tt) } ∷ [];
  wakes =
      gives (text_delta (104 ∷ 13 ∷ []))
      ∷ gives (text_delta (10 ∷ 105 ∷ []))
      ∷ gives (finish stop)
      ∷ record { parent_cancelled = false; now = 5; future = ready (ok none) }
      ∷ [];
  judged_at = 5;
  waits_from = 5;
  retry_wakes = [];
}

abbrev pub response : ModelResponse
response = record {
  parts = text (104 ∷ 10 ∷ 105 ∷ []) ∷ [];
  finish_reason = stop;
  usage = some default_usage;
  provider_replay = none;
}

pub call_responds :
    (run_call parse to_writer [] default_limits
      (10 ^ 15)
      policy
      deadline
      (at_time 0)
      (ok tt)
      (refused ∷ answered ∷ [])).outcome
    ≡ some (ok response)
unfolding run_call rounds_of run_detailed run_attempts run_attempt read_stream await_start
    after_failure precheck wait_for_retry evaluate_retry next_event byte_len normalize_model_text
    valid_text allowed_char normalize_chars ends_with_return strip_newline normalize_parts
    validate_tool_call_order bounded_text
call_responds = refl

run_call-shown_example :
    104 ∷ 10 ∷ 105 ∷ []
    ≡ shown (
        call_progress parse to_writer [] default_limits
          (10 ^ 15)
          policy
          deadline
          (at_time 0)
          (ok tt)
          (refused ∷ answered ∷ []))
run_call-shown_example =
    run_call-shown parse to_writer [] default_limits (10 ^ 15) policy deadline (at_time 0) (ok tt)
      (refused ∷ answered ∷ []) response call_responds

pub progress_sent :
    call_progress parse to_writer [] default_limits
      (10 ^ 15)
      policy
      deadline
      (at_time 0)
      (ok tt)
      (refused ∷ answered ∷ [])
    ≡ text_progress (104 ∷ 10 ∷ []) ∷ text_progress (105 ∷ []) ∷ []
unfolding call_progress progress_from attempt_progress run_attempt read_stream stream_progress
    await_start precheck wait_for_retry evaluate_retry next_event byte_len normalize_model_text
    valid_text allowed_char normalize_chars ends_with_return strip_newline normalize_parts
    validate_tool_call_order bounded_text
progress_sent = refl
