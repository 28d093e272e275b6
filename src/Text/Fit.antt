-- ===== src/Text/Fit.antt =====
-- `normalized_delta` of src/model/driver/assembler.rs: its `expect`.
use minicore_runtime.Base.{
  ◌≤◌, ◌≡◌, refl, ◌||◌, ◌&&◌, ◌==◌, Bool, true, false, [], ◌∷◌, is_empty, if_cases, if◌then◌else◌,
  Result, is_ok, ltb, arith,
}
use minicore_runtime.Text.{
  Text, ValueError, byte_len, bounded_text, new_with_max_bytes, max_text_bytes,
  normalize_model_text, valid_text, usize_max,
}
use minicore_runtime.Text.Normalize.{normalize_model_text_safe}
use minicore_runtime.Text.Stream.{strip_newline, delta_panics}

byte_len-strip_newline : (s : Text) → byte_len (strip_newline s) ≤ byte_len s
unfolding strip_newline byte_len
byte_len-strip_newline [] = omega arith
byte_len-strip_newline (c ∷ s) = ground arith

bounded_text-is_ok : (s : Text) → byte_len s ≤ max_text_bytes → is_ok (bounded_text s) ≡ true
unfolding bounded_text new_with_max_bytes
bounded_text-is_ok s h =
    if_cases (λ (r : Result Text ValueError). is_ok r ≡ true) (ltb max_text_bytes (byte_len s))
      (λ t. absurd (ground arith)) (λ f. refl)

raw_within :
    (delta : Text) (ended_with_cr : Bool)
    → byte_len (if ended_with_cr then strip_newline delta else delta) ≤ byte_len delta
raw_within delta true = byte_len-strip_newline delta
raw_within delta false = omega arith

-- A delta that is a `BoundedText` has a normalized piece that is one.
pub delta_panics_never :
    (delta : Text) (ended_with_cr : Bool)
    → byte_len delta ≤ max_text_bytes
    → delta_panics delta ended_with_cr ≡ false
unfolding delta_panics
delta_panics_never delta ended_with_cr h =
    let raw = if ended_with_cr then strip_newline delta else delta in
    if_cases (λ b. b ≡ false)
      (is_empty delta || valid_text raw usize_max true && byte_len raw == byte_len delta)
      (λ t. refl)
      (λ f.
        rw
          (bounded_text-is_ok (normalize_model_text raw)
            (omega (arith, (normalize_model_text_safe raw).1, raw_within delta ended_with_cr, h)))
          refl)
