-- ===== src/ModelError/Laws.antt =====
-- The retry hint, the delivery state and the diagnostic of a model error agree.
use minicore_runtime.Base.{◌≡◌, refl, Bool, true, false, ok, ◌⊎◌, inl, inr, arith}
use minicore_runtime.Diagnostic.{DiagnosticSummary}
use minicore_runtime.ModelError.{
  ModelError, ModelErrorKind, DeliveryState, RetryHint, never, retryable, not_started, started,
  unknown, error_not_started, error_permanent, from_wire,
}

abbrev pub is_retryable : RetryHint → Bool
is_retryable never = false
is_retryable (retryable after) = true

-- A retryable error was not delivered, and its diagnostic says that it is retryable; any other
-- diagnostic says that it is not.
pub record IsConsistent (e : ModelError) : Type 0 where
  pub flag : e.diagnostic.retryable ≡ is_retryable e.retry_hint
  pub undelivered : (is_retryable e.retry_hint ≡ false) ⊎ (e.delivery ≡ not_started)

pub error_not_started-IsConsistent :
    (k : ModelErrorKind) (a : _) (d : DiagnosticSummary) → IsConsistent (error_not_started k a d)
unfolding error_not_started
error_not_started-IsConsistent k a d = record { flag = refl; undelivered = inr refl }

pub error_permanent-IsConsistent :
    (k : ModelErrorKind) (s : DeliveryState) (d : DiagnosticSummary)
    → IsConsistent (error_permanent k s d)
unfolding error_permanent
error_permanent-IsConsistent k s d = record { flag = refl; undelivered = inl refl }

-- Whatever was read from the wire, an accepted error has a diagnostic that says whether it is
-- retryable, and was not delivered if it is.
pub from_wire-IsConsistent :
    (k : ModelErrorKind) (s : DeliveryState) (h : RetryHint) (d : DiagnosticSummary)
    (e : ModelError)
    → from_wire k s h d ≡ ok e
    → IsConsistent e
unfolding from_wire
from_wire-IsConsistent k not_started (retryable a) d e r = ground arith
from_wire-IsConsistent k started (retryable a) d e r = cc
from_wire-IsConsistent k unknown (retryable a) d e r = cc
from_wire-IsConsistent k s never d e r = ground arith

-- Reading back the fields of a consistent error gives that error.
pub from_wire_roundtrip :
    (e : ModelError) → IsConsistent e → from_wire e.kind e.delivery e.retry_hint e.diagnostic ≡ ok e
unfolding from_wire
from_wire_roundtrip e c = ground arith
