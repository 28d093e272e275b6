-- ===== src/Assembler/Static.antt =====
-- assembler_error of src/model/driver/assembler.rs and generated_error of src/model/driver/failure.rs:
-- the expects on the texts of their diagnostics.
use minicore_runtime.Base.{◌≡◌, refl, true}
use minicore_runtime.Text.{Text, valid_text, byte_len, allowed_char, max_text_bytes}
use minicore_runtime.ModelError.{ModelErrorKind}
use minicore_runtime.Driver.{generated}
use minicore_runtime.Assembler.{assembler_message}

abbrev IsStatic : Text → Type 0
IsStatic text = valid_text text max_text_bytes true ≡ true

-- Every text that the two make a diagnostic of is valid and within the limit of a `BoundedText`, so
-- that none of their expects panics.
diagnostic_texts_fit :
    (kind : ModelErrorKind) → IsStatic (assembler_message kind) × IsStatic (generated kind).1
unfolding valid_text byte_len allowed_char
diagnostic_texts_fit ModelErrorKind.invalid_request = (refl, refl)
diagnostic_texts_fit ModelErrorKind.unavailable = (refl, refl)
diagnostic_texts_fit ModelErrorKind.provider_unavailable = (refl, refl)
diagnostic_texts_fit ModelErrorKind.auth_missing = (refl, refl)
diagnostic_texts_fit ModelErrorKind.auth_rejected = (refl, refl)
diagnostic_texts_fit ModelErrorKind.rate_limited = (refl, refl)
diagnostic_texts_fit ModelErrorKind.quota_exceeded = (refl, refl)
diagnostic_texts_fit ModelErrorKind.context_overflow = (refl, refl)
diagnostic_texts_fit ModelErrorKind.timeout = (refl, refl)
diagnostic_texts_fit ModelErrorKind.transport_unavailable = (refl, refl)
diagnostic_texts_fit ModelErrorKind.cancelled = (refl, refl)
diagnostic_texts_fit ModelErrorKind.invalid_provider_response = (refl, refl)
diagnostic_texts_fit ModelErrorKind.incomplete_response = (refl, refl)
diagnostic_texts_fit ModelErrorKind.stream_interrupted = (refl, refl)
diagnostic_texts_fit ModelErrorKind.request_outcome_unknown = (refl, refl)
diagnostic_texts_fit ModelErrorKind.unexpected_tool_call = (refl, refl)
diagnostic_texts_fit ModelErrorKind.panicked = (refl, refl)
diagnostic_texts_fit ModelErrorKind.internal = (refl, refl)
