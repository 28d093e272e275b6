-- ===== src/Diagnostic.antt =====
-- src/error.rs: the diagnostic that goes with a failure.
use minicore_runtime.Base.{Bool, true, if◌then◌else◌, Result, ok, err}
use minicore_runtime.Text.{Text, valid_text, max_text_bytes, ValueError, invalid_text}

pub data DiagnosticCategory : Type 0 where
  configuration model tool policy context cancellation internal : DiagnosticCategory

pub data DiagnosticCode : Type 0 where
  invalid_configuration model_timeout model_malformed_response model_unavailable : DiagnosticCode
  runtime_terminated context_failed policy_denied policy_failed tool_not_found : DiagnosticCode
  tool_timeout tool_failed interaction_not_found interaction_kind_mismatch : DiagnosticCode
  turn_budget_exceeded internal : DiagnosticCode

pub record DiagnosticSummary : Type 0 where
  pub code : DiagnosticCode
  pub category : DiagnosticCategory
  pub message : Text
  pub retryable : Bool

-- DiagnosticSummary::new
unfoldable pub new_summary :
    DiagnosticCode → DiagnosticCategory → Text → Bool → Result DiagnosticSummary ValueError
new_summary code category message retryable =
    if valid_text message max_text_bytes true
    then ok (record { code = code; category = category; message = message; retryable = retryable })
    else err invalid_text
