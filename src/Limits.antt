-- ===== src/Limits.antt =====
-- src/limits.rs: the budgets of one loop and their validation.
pub mod Bounds
pub mod Examples
use minicore_runtime.Base.{ℕ, ◌*◌, Bool, ◌||◌, ltb, ◌==◌, if◌then◌else◌, Result, ok, err}
use minicore_runtime.Text.{max_text_bytes}

-- MAX_JSON_BYTES of src/value.rs.
abbrev pub max_json_bytes : ℕ
max_json_bytes = 64 * 1024

abbrev pub max_tool_calls : ℕ
max_tool_calls = 64

abbrev pub max_tool_name : ℕ
max_tool_name = 64

pub record LoopLimits : Type 0 where
  pub max_user_input_bytes : ℕ
  pub max_model_text_bytes : ℕ
  pub max_model_reasoning_bytes : ℕ
  pub max_tool_calls_per_response : ℕ
  pub max_tool_name_bytes : ℕ
  pub max_tool_schema_bytes : ℕ
  pub max_tool_arguments_bytes : ℕ
  pub max_tool_output_bytes : ℕ

-- LoopLimits::default
abbrev pub default_limits : LoopLimits
default_limits = record {
  max_user_input_bytes = max_text_bytes;
  max_model_text_bytes = max_text_bytes;
  max_model_reasoning_bytes = max_text_bytes;
  max_tool_calls_per_response = max_tool_calls;
  max_tool_name_bytes = max_tool_name;
  max_tool_schema_bytes = max_json_bytes;
  max_tool_arguments_bytes = max_json_bytes;
  max_tool_output_bytes = max_text_bytes;
}

pub data LoopLimitsError : Type 0 where
  invalid_bounds : LoopLimitsError

-- `n == 0 || n > cap`
abbrev pub outside : ℕ → ℕ → Bool
outside n cap = n == 0 || ltb cap n

unfoldable pub validate : LoopLimits → Result (Unit {0}) LoopLimitsError
validate l =
    if outside l.max_user_input_bytes max_text_bytes
      || outside l.max_model_text_bytes max_text_bytes
      || outside l.max_model_reasoning_bytes max_text_bytes
      || outside l.max_tool_calls_per_response max_tool_calls
      || outside l.max_tool_name_bytes max_tool_name
      || outside l.max_tool_schema_bytes max_json_bytes
      || outside l.max_tool_arguments_bytes max_json_bytes
      || outside l.max_tool_output_bytes max_text_bytes
    then err invalid_bounds
    else ok tt
