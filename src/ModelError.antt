-- ===== src/ModelError.antt =====
-- src/model/error.rs: errors of one model request, with the delivery state and the retry hint that
-- decide whether the request may be sent again.
pub mod Laws
pub mod Examples
use minicore_runtime.Base.{ℕ, Bool, true, false, Option, none, some, Result, ok, err}
use minicore_runtime.Diagnostic.{DiagnosticSummary}

-- A duration in nanoseconds.
abbrev pub Duration : Type 0
Duration = ℕ

pub data DeliveryState : Type 0 where
  not_started started unknown : DeliveryState

pub data ModelErrorKind : Type 0 where
  invalid_request unavailable provider_unavailable auth_missing auth_rejected : ModelErrorKind
  rate_limited quota_exceeded context_overflow timeout transport_unavailable : ModelErrorKind
  cancelled invalid_provider_response incomplete_response stream_interrupted : ModelErrorKind
  request_outcome_unknown unexpected_tool_call panicked internal : ModelErrorKind

pub data RetryHint : Type 0 where
  never : RetryHint
  retryable : Option Duration → RetryHint

pub record ModelError : Type 0 where
  pub kind : ModelErrorKind
  pub delivery : DeliveryState
  pub retry_hint : RetryHint
  pub diagnostic : DiagnosticSummary

-- ModelError::not_started
unfoldable pub error_not_started : ModelErrorKind → Option Duration → DiagnosticSummary → ModelError
error_not_started kind retry_after diagnostic = record {
  kind = kind;
  delivery = not_started;
  retry_hint = retryable retry_after;
  diagnostic = record diagnostic { retryable = true };
}

-- ModelError::permanent
unfoldable pub error_permanent : ModelErrorKind → DeliveryState → DiagnosticSummary → ModelError
error_permanent kind delivery diagnostic = record {
  kind = kind;
  delivery = delivery;
  retry_hint = never;
  diagnostic = record diagnostic { retryable = false };
}

-- ModelError::started
unfoldable pub error_started : ModelErrorKind → DiagnosticSummary → ModelError
unfolding error_permanent
error_started kind diagnostic = error_permanent kind started diagnostic

-- ModelError::unknown
unfoldable pub error_unknown : ModelErrorKind → DiagnosticSummary → ModelError
unfolding error_permanent
error_unknown kind diagnostic = error_permanent kind unknown diagnostic

pub data WireError : Type 0 where
  retryable_not_deliverable : WireError

-- The check of `Deserialize for ModelError` on the four fields that were read.
unfoldable pub from_wire :
    ModelErrorKind → DeliveryState → RetryHint → DiagnosticSummary → Result ModelError WireError
unfolding error_not_started error_permanent
from_wire kind not_started (retryable retry_after) diagnostic =
    ok (error_not_started kind retry_after diagnostic)
from_wire kind delivery (retryable retry_after) diagnostic = err retryable_not_deliverable
from_wire kind delivery never diagnostic = ok (error_permanent kind delivery diagnostic)
