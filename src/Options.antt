-- ===== src/Options.antt =====
-- src/agent_loop/mod.rs: the options of a loop and its start.
use minicore_runtime.Base.{
  ℕ, ◌*◌, ◌^◌, Bool, false, List, Option, none, some, ◌&&◌, ◌||◌, not, ltb, leb, ◌==◌,
  if◌then◌else◌, Result, ok, err, ◌>>=◌, guard, map_err,
}
use minicore_runtime.Text.{Text, byte_len}
use minicore_runtime.Ids.{RuntimeId, IdError}
use minicore_runtime.Json.{JsonValue}
use minicore_runtime.ModelError.{Duration}
use minicore_runtime.Limits.{LoopLimits, default_limits, validate}
use minicore_runtime.Event.{Sink, channel}
use minicore_runtime.Driver.{max_model_retry_delay}
use minicore_runtime.Control.{Control, new}
use minicore_runtime.Execution.{ExecutionConfig, validate_against_limits}
use minicore_runtime.History.{HistoryItem}

pub record LoopOptions : Type 0 where
  pub deadline : Option ℕ
  pub max_tool_rounds : ℕ
  pub event_capacity : ℕ
  pub prompt_timeout : Duration
  pub model_timeout : Duration
  pub policy_timeout : Duration
  pub tool_timeout : Duration
  pub model_retry_attempts : ℕ
  pub model_retry_base_delay : Duration
  pub limits : LoopLimits

pub data LoopStartError : Type 0 where
  no_tokio_runtime invalid_options invalid_config invalid_input id_generation : LoopStartError

abbrev pub max_tool_rounds_limit : ℕ
max_tool_rounds_limit = 1024

abbrev pub max_event_capacity_option : ℕ
max_event_capacity_option = 4096

abbrev pub max_model_retry_attempts : ℕ
max_model_retry_attempts = 4

-- MAX_MODEL_CALL_TIMEOUT of src/model/driver.rs: 24 hours.
abbrev pub max_model_call_timeout : Duration
max_model_call_timeout = 24 * 60 * 60 * 10 ^ 9

-- LoopOptions::default_checked, but for the validation, which is a theorem.
abbrev pub default_options : LoopOptions
default_options = record {
  deadline = none;
  max_tool_rounds = 0;
  event_capacity = 256;
  prompt_timeout = 30 * 10 ^ 9;
  model_timeout = 10 * 60 * 10 ^ 9;
  policy_timeout = 30 * 10 ^ 9;
  tool_timeout = 30 * 60 * 10 ^ 9;
  model_retry_attempts = 2;
  model_retry_base_delay = 100 * 10 ^ 6;
  limits = default_limits;
}

abbrev past : Option ℕ → ℕ → Bool
past none now = false
past (some deadline) now = leb deadline now

-- LoopOptions::validate; `now` is what the clock says.
unfoldable pub validate_options : ℕ → LoopOptions → Result (Unit {0}) LoopStartError
validate_options now options =
    if ltb max_tool_rounds_limit options.max_tool_rounds
      || not (leb 1 options.event_capacity && leb options.event_capacity max_event_capacity_option)
      || options.prompt_timeout == 0
      || options.model_timeout == 0
      || ltb max_model_call_timeout options.model_timeout
      || options.policy_timeout == 0
      || options.tool_timeout == 0
      || options.model_retry_attempts == 0
      || ltb max_model_retry_attempts options.model_retry_attempts
      || options.model_retry_base_delay == 0
      || ltb max_model_retry_delay options.model_retry_base_delay
      || past options.deadline now
    then err invalid_options
    else map_err (λ e. invalid_options) (validate options.limits)

pub record LoopRequest : Type 0 where
  pub history : List HistoryItem
  pub input : Text
  pub config : ExecutionConfig

-- What a start leaves to the runner task.
pub record Started (Report : Type 0) : Type 0 where
  pub control : Control ExecutionConfig Report
  pub sink : Sink

-- AgentLoop::start; `runtime` tells whether there is a Tokio runtime, and `id` is the new id.
module _ {Report : Type 0} (json_bytes : JsonValue → ℕ) where
  unfoldable pub start :
      (runtime : Bool)
      → (now : ℕ) → Result RuntimeId IdError
      → LoopRequest
      → LoopOptions
      → Result (Started Report) LoopStartError
  unfolding validate_options validate_against_limits new
  start runtime now new_id request options = do
    _ ← guard runtime no_tokio_runtime
    _ ← validate_options now options
    _ ←
        map_err (λ e. invalid_config)
          (validate_against_limits json_bytes options.limits request.config)
    _ ←
        guard
          (not (
            byte_len request.input == 0
            || ltb options.limits.max_user_input_bytes (byte_len request.input)))
          invalid_input
    id ← map_err (λ e. id_generation) new_id
    sink ← map_err (λ e. invalid_options) (channel options.event_capacity)
    ok (record { control = new id; sink = sink })
