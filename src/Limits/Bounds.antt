-- ===== src/Limits/Bounds.antt =====
-- What `LoopLimits::validate` accepts.
use minicore_runtime.Base.{ℕ, ◌≤◌, ◌≡◌, ◌↔◌, ok, arith}
use minicore_runtime.Text.{max_text_bytes}
use minicore_runtime.Limits.{LoopLimits, validate, max_json_bytes, max_tool_calls, max_tool_name}

abbrev pub Within : ℕ → ℕ → Type 0
Within n cap = (1 ≤ n) × (n ≤ cap)

pub record IsBounded (l : LoopLimits) : Type 0 where
  pub user_input : Within l.max_user_input_bytes max_text_bytes
  pub model_text : Within l.max_model_text_bytes max_text_bytes
  pub model_reasoning : Within l.max_model_reasoning_bytes max_text_bytes
  pub tool_calls : Within l.max_tool_calls_per_response max_tool_calls
  pub tool_name : Within l.max_tool_name_bytes max_tool_name
  pub tool_schema : Within l.max_tool_schema_bytes max_json_bytes
  pub tool_arguments : Within l.max_tool_arguments_bytes max_json_bytes
  pub tool_output : Within l.max_tool_output_bytes max_text_bytes

IsBounded-validate : (l : LoopLimits) → validate l ≡ ok tt → IsBounded l
unfolding validate
IsBounded-validate l h = ground arith

validate-IsBounded : (l : LoopLimits) → IsBounded l → validate l ≡ ok tt
unfolding validate
validate-IsBounded l h = ground arith

-- Validation succeeds exactly when every budget is at least one and at most its absolute cap.
pub validate_iff : (l : LoopLimits) → (validate l ≡ ok tt) ↔ IsBounded l
validate_iff l = (IsBounded-validate l, validate-IsBounded l)
