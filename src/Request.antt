-- ===== src/Request.antt =====
-- src/model/request.rs: a model request, and the check of it that the driver makes,
-- `validate_request` of src/model/driver.rs.
use minicore_runtime.Base.{
  ℕ, Bool, true, false, List, [], ◌∷◌, Option, none, some, is_empty, ◌&&◌, ◌||◌, not, ltb, ◌==◌,
  if◌then◌else◌, Result, ok, err, ◌>>=◌,
}
use minicore_runtime.Ids.{Bytes}
use minicore_runtime.Message.{ModelValueError}
use minicore_runtime.Exchange.{ModelMessage, validate_tool_exchange}
use minicore_runtime.ModelError.{ModelError, ModelErrorKind, not_started}
use minicore_runtime.Driver.{generated_error}
use minicore_runtime.Execution.{ReasoningPreference, ModelDescriptor, ToolSpec, supports_reasoning}

pub data ModelLimitsError : Type 0 where
  zero_limit : ModelLimitsError

pub record ModelLimits : Type 0 where
  pub context_window_tokens : Option ℕ
  pub max_output_tokens : Option ℕ

abbrev pub default_model_limits : ModelLimits
default_model_limits = record { context_window_tokens = none; max_output_tokens = none }

abbrev pub is_zero : Option ℕ → Bool
is_zero none = false
is_zero (some n) = n == 0

-- ModelLimits::new
unfoldable pub new_limits : Option ℕ → Option ℕ → Result ModelLimits ModelLimitsError
new_limits context_window_tokens max_output_tokens =
    if is_zero context_window_tokens || is_zero max_output_tokens
    then err zero_limit
    else ok (record {
      context_window_tokens = context_window_tokens;
      max_output_tokens = max_output_tokens;
    })

pub record ModelRequest : Type 0 where
  pub messages : List ModelMessage
  pub tools : List ToolSpec
  pub limits : ModelLimits
  pub reasoning : ReasoningPreference

-- ModelRequest::with_validated_tools
unfoldable pub with_validated_tools :
    List ModelMessage
    → List ToolSpec
    → ModelLimits
    → ReasoningPreference
    → Result ModelRequest ModelValueError
unfolding validate_tool_exchange
with_validated_tools messages tools limits reasoning =
    if is_empty messages
    then err ModelValueError.empty_messages
    else validate_tool_exchange messages >>= λ u.
        ok (record { messages = messages; tools = tools; limits = limits; reasoning = reasoning })

-- The order of names: that of their bytes.
unfoldable pub bytes_lt : Bytes → Bytes → Bool
bytes_lt [] [] = false
bytes_lt [] (b ∷ bs) = true
bytes_lt (a ∷ rest) [] = false
bytes_lt (a ∷ rest) (b ∷ bs) = ltb a b || (a == b && bytes_lt rest bs)

-- No name is followed by one that is not greater: `windows(2)` of `ModelRequest::new`.
unfoldable pub ascending : List ToolSpec → Bool
unfolding bytes_lt
ascending [] = true
ascending (spec ∷ []) = true
ascending (spec ∷ next ∷ specs) = bytes_lt spec.name next.name && ascending (next ∷ specs)

-- ModelRequest::new
unfoldable pub new_model_request :
    List ModelMessage
    → List ToolSpec
    → ModelLimits
    → ReasoningPreference
    → Result ModelRequest ModelValueError
unfolding ascending with_validated_tools
new_model_request messages tools limits reasoning =
    if ascending tools
    then with_validated_tools messages tools limits reasoning
    else err ModelValueError.invalid_tools

abbrev exceeds : Option ℕ → ℕ → Bool
exceeds none window = false
exceeds (some limit) window = ltb window limit

-- ModelDriver::validate_request
unfoldable pub validate_request : ModelDescriptor → ModelRequest → Result (Unit {0}) ModelError
validate_request descriptor request =
    if not (supports_reasoning descriptor request.reasoning)
      || (not (is_empty request.tools) && not descriptor.supports_tools)
      || exceeds request.limits.context_window_tokens descriptor.context_window
    then err (generated_error ModelErrorKind.invalid_request not_started)
    else ok tt
