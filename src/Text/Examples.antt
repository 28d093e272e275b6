-- ===== src/Text/Examples.antt =====
-- Tests and concrete instances of the theorems on text.
use minicore_runtime.Base.{◌≤◌, ◌≡◌, refl, true, false, [], ◌∷◌, all}
use minicore_runtime.Text.{
  Text, byte_len, allowed_char, normalize_chars, normalize_model_text, carriage_return, newline,
}
use minicore_runtime.Text.Normalize.{normalize_model_text_safe}
use minicore_runtime.Text.Stream.{stream_normalize, stream_normalize-concat}

-- "a\r\n", NUL, "é".
abbrev sample : Text
sample = b'a' ∷ carriage_return ∷ newline ∷ 0 ∷ 0xe9 ∷ []

normalize_model_text_safe_example :
    (all allowed_char (normalize_model_text sample) ≡ true)
    × (byte_len (normalize_model_text sample) ≤ byte_len sample)
    × (normalize_model_text (normalize_model_text sample) ≡ normalize_model_text sample)
normalize_model_text_safe_example = normalize_model_text_safe sample

stream_normalize-concat_example :
    stream_normalize false ((b'a' ∷ carriage_return ∷ []) ∷ [] ∷ (newline ∷ b'b' ∷ []) ∷ [])
    ≡ normalize_model_text (b'a' ∷ carriage_return ∷ newline ∷ b'b' ∷ [])
stream_normalize-concat_example =
    stream_normalize-concat ((b'a' ∷ carriage_return ∷ []) ∷ [] ∷ (newline ∷ b'b' ∷ []) ∷ [])

sample_normalized : normalize_chars sample ≡ b'a' ∷ newline ∷ 0x20 ∷ 0xe9 ∷ []
unfolding normalize_chars
sample_normalized = refl

sample_bytes : byte_len sample ≡ 6
unfolding byte_len
sample_bytes = refl
