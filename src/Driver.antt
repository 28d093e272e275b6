-- ===== src/Driver.antt =====
-- src/model/driver/failure.rs and the loop of src/model/driver.rs: which failures of a model request
-- are tried again, how long the driver waits, and when it gives up. Durations and instants are
-- nanoseconds.
pub mod Run
pub mod Backoff
pub mod Attempts
pub mod Examples
use minicore_runtime.Base.{
  ℕ, suc, zero, ◌+◌, ◌-◌, ◌*◌, ◌^◌, min, max, Bool, true, false, ◌&&◌, ◌||◌, not, List, [], ◌∷◌,
  Option, none, some, Result, ok, err, ltb, leb, if◌then◌else◌, checked_add, u64_mod, ◌>>◌,
}
use minicore_runtime.Text.{Text}
use minicore_runtime.Diagnostic.{DiagnosticSummary, DiagnosticCode, DiagnosticCategory}
use minicore_runtime.ModelError.{
  Duration, DeliveryState, not_started, started, unknown, ModelErrorKind, RetryHint, never,
  retryable, ModelError, error_permanent, error_started, error_unknown,
}
use minicore_runtime.PortCall.{DeadlineSource, EffectiveDeadline}

-- MAX_MODEL_RETRY_DELAY: 30 seconds.
abbrev pub max_model_retry_delay : Duration
max_model_retry_delay = 30 * 10 ^ 9

-- A `Duration` has 64 bits of seconds.
abbrev pub duration_limit : ℕ
duration_limit = u64_mod * 10 ^ 9

pub record RetryPolicySnapshot : Type 0 where
  pub max_attempts : ℕ
  pub base_delay : Duration

pub record ModelDriverFailure : Type 0 where
  pub error : ModelError
  pub deadline_source : Option DeadlineSource

pub record AttemptFailure : Type 0 where
  pub error : ModelError
  pub observed_event : Bool
  pub deadline_source : Option DeadlineSource

-- The body of the loop of `delay_for_retry`.
abbrev pub double : Duration → Duration
double d =
    min (if ltb (d * 2) duration_limit then d * 2 else max_model_retry_delay) max_model_retry_delay

unfoldable pub backoff : ℕ → Duration → Duration
backoff zero exponential = exponential
backoff (suc n) exponential = backoff n (double exponential)

abbrev floor_delay : Option Duration → Duration → Option Duration
floor_delay none exponential = some exponential
floor_delay (some value) exponential =
    if ltb max_model_retry_delay value then none else some (max value exponential)

unfoldable pub delay_for_retry : RetryPolicySnapshot → ℕ → Option Duration → Option Duration
unfolding backoff
delay_for_retry policy retry_index retry_after =
    floor_delay retry_after (backoff retry_index policy.base_delay)

-- `limit` bounds the instants that can be represented.
unfoldable pub retry_fits : (limit now deadline delay : ℕ) → Bool
retry_fits limit now deadline delay = elim (checked_add limit now delay) [
  | none ↦ false
  | some retry_at ↦ ltb retry_at deadline
]

abbrev pub is_not_started : DeliveryState → Bool
is_not_started not_started = true
is_not_started _ = false

abbrev hinted_delay : RetryPolicySnapshot → ℕ → RetryHint → Option Duration
hinted_delay policy attempt never = none
hinted_delay policy attempt (retryable retry_after) = delay_for_retry policy attempt retry_after

-- RetryPolicySnapshot::evaluate_retry
unfoldable pub evaluate_retry :
    (limit now deadline : ℕ) → RetryPolicySnapshot → ℕ → AttemptFailure → Option Duration
unfolding delay_for_retry retry_fits
evaluate_retry limit now deadline policy attempt failure =
    if leb policy.max_attempts (attempt + 1)
      || failure.observed_event
      || not (is_not_started failure.error.delivery)
    then none
    else elim (hinted_delay policy attempt failure.error.retry_hint) [
      | none ↦ none
      | some delay ↦ if retry_fits limit now deadline delay then some delay else none
    ]

unfoldable pub observed_delivery : Bool → DeliveryState
observed_delivery observed_event = if observed_event then started else unknown

abbrev is_never : RetryHint → Bool
is_never never = true
is_never (retryable after) = false

abbrev is_started : DeliveryState → Bool
is_started started = true
is_started _ = false

unfoldable pub normalize_after_event : ModelError → Bool → ModelError
normalize_after_event error observed_event =
    if observed_event && (not (is_started error.delivery) || not (is_never error.retry_hint))
    then error_started error.kind error.diagnostic
    else error

-- "model request cancelled"
abbrev cancelled_text : Text
cancelled_text =
    109 ∷ 111 ∷ 100 ∷ 101 ∷ 108 ∷ 32 ∷ 114 ∷ 101 ∷ 113 ∷ 117 ∷ 101 ∷ 115 ∷ 116 ∷ 32 ∷ 99 ∷ 97 ∷ 110
    ∷ 99 ∷ 101 ∷ 108 ∷ 108 ∷ 101 ∷ 100 ∷ []

-- "model request timed out"
abbrev timed_out_text : Text
timed_out_text =
    109 ∷ 111 ∷ 100 ∷ 101 ∷ 108 ∷ 32 ∷ 114 ∷ 101 ∷ 113 ∷ 117 ∷ 101 ∷ 115 ∷ 116 ∷ 32 ∷ 116 ∷ 105
    ∷ 109 ∷ 101 ∷ 100 ∷ 32 ∷ 111 ∷ 117 ∷ 116 ∷ []

-- "model driver panicked"
abbrev panicked_text : Text
panicked_text =
    109 ∷ 111 ∷ 100 ∷ 101 ∷ 108 ∷ 32 ∷ 100 ∷ 114 ∷ 105 ∷ 118 ∷ 101 ∷ 114 ∷ 32 ∷ 112 ∷ 97 ∷ 110 ∷ 105
    ∷ 99 ∷ 107 ∷ 101 ∷ 100 ∷ []

-- "invalid model request"
abbrev invalid_text : Text
invalid_text =
    105 ∷ 110 ∷ 118 ∷ 97 ∷ 108 ∷ 105 ∷ 100 ∷ 32 ∷ 109 ∷ 111 ∷ 100 ∷ 101 ∷ 108 ∷ 32 ∷ 114 ∷ 101 ∷ 113
    ∷ 117 ∷ 101 ∷ 115 ∷ 116 ∷ []

-- "invalid model provider response"
abbrev response_text : Text
response_text =
    105 ∷ 110 ∷ 118 ∷ 97 ∷ 108 ∷ 105 ∷ 100 ∷ 32 ∷ 109 ∷ 111 ∷ 100 ∷ 101 ∷ 108 ∷ 32 ∷ 112 ∷ 114 ∷ 111
    ∷ 118 ∷ 105 ∷ 100 ∷ 101 ∷ 114 ∷ 32 ∷ 114 ∷ 101 ∷ 115 ∷ 112 ∷ 111 ∷ 110 ∷ 115 ∷ 101 ∷ []

-- "model provider unavailable"
abbrev unavailable_text : Text
unavailable_text =
    109 ∷ 111 ∷ 100 ∷ 101 ∷ 108 ∷ 32 ∷ 112 ∷ 114 ∷ 111 ∷ 118 ∷ 105 ∷ 100 ∷ 101 ∷ 114 ∷ 32 ∷ 117
    ∷ 110 ∷ 97 ∷ 118 ∷ 97 ∷ 105 ∷ 108 ∷ 97 ∷ 98 ∷ 108 ∷ 101 ∷ []

-- "model operation failed"
abbrev operation_text : Text
operation_text =
    109 ∷ 111 ∷ 100 ∷ 101 ∷ 108 ∷ 32 ∷ 111 ∷ 112 ∷ 101 ∷ 114 ∷ 97 ∷ 116 ∷ 105 ∷ 111 ∷ 110 ∷ 32 ∷ 102
    ∷ 97 ∷ 105 ∷ 108 ∷ 101 ∷ 100 ∷ []

-- The code and the message of an error that the driver makes itself.
abbrev pub generated : ModelErrorKind → DiagnosticCode × Text
generated ModelErrorKind.cancelled = (DiagnosticCode.runtime_terminated, cancelled_text)
generated ModelErrorKind.timeout = (DiagnosticCode.model_timeout, timed_out_text)
generated ModelErrorKind.panicked = (DiagnosticCode.internal, panicked_text)
generated ModelErrorKind.invalid_request = (DiagnosticCode.invalid_configuration, invalid_text)
generated ModelErrorKind.invalid_provider_response =
    (DiagnosticCode.model_malformed_response, response_text)
generated ModelErrorKind.unexpected_tool_call =
    (DiagnosticCode.model_malformed_response, response_text)
generated ModelErrorKind.incomplete_response =
    (DiagnosticCode.model_malformed_response, response_text)
generated ModelErrorKind.provider_unavailable = (DiagnosticCode.model_unavailable, unavailable_text)
generated ModelErrorKind.unavailable = (DiagnosticCode.model_unavailable, unavailable_text)
generated _ = (DiagnosticCode.internal, operation_text)

abbrev delivered : ModelErrorKind → DeliveryState → DiagnosticSummary → ModelError
delivered kind not_started diagnostic = error_permanent kind not_started diagnostic
delivered kind started diagnostic = error_started kind diagnostic
delivered kind unknown diagnostic = error_unknown kind diagnostic

unfoldable pub generated_error : ModelErrorKind → DeliveryState → ModelError
generated_error kind delivery =
    let (code, message) = generated kind in
    delivered kind delivery (record {
      code = code;
      category = DiagnosticCategory.model;
      message = message;
      retryable = false;
    })
