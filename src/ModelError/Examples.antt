-- ===== src/ModelError/Examples.antt =====
-- Tests and concrete instances of the theorems on model errors.
use minicore_runtime.Base.{◌≡◌, refl, [], ◌∷◌, true, none, err}
use minicore_runtime.Diagnostic.{DiagnosticSummary, DiagnosticCode, DiagnosticCategory}
use minicore_runtime.ModelError.{started, retryable, timeout, retryable_not_deliverable, from_wire}

abbrev summary : DiagnosticSummary
summary = record {
  code = DiagnosticCode.model_timeout;
  category = DiagnosticCategory.model;
  message = 104 ∷ 105 ∷ [];
  retryable = true;
}

started_is_not_retryable :
    from_wire timeout started (retryable none) summary ≡ err retryable_not_deliverable
unfolding from_wire
started_is_not_retryable = refl
