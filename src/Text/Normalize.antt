-- ===== src/Text/Normalize.antt =====
-- The laws of `normalize_model_text` of src/value.rs.
use minicore_runtime.Base.{ℕ, ◌≤◌, ◌≡◌, refl, ◌∙◌, true, false, [], ◌∷◌, arith, all, ◌==◌}
use minicore_runtime.Text.{
  Text, byte_len, allowed_char, valid_text, normalize_chars, normalize_model_text, newline,
  carriage_return,
}
use minicore_runtime.Text.Bytes.{
  normalize_char-allowed, normalize_char-len, normalize_char_id, char_len_pos,
}

normalize_chars-allowed : (s : Text) → all allowed_char (normalize_chars s) ≡ true
unfolding normalize_chars
normalize_chars-allowed [] = refl
normalize_chars-allowed (c ∷ []) = ground (arith, normalize_char-allowed c)
normalize_chars-allowed (c ∷ d ∷ s) = ground (
  arith,
  normalize_char-allowed c,
  normalize_chars-allowed s,
  normalize_chars-allowed (d ∷ s),
  normalize_char-allowed newline,
)

normalize_chars-len : (s : Text) → byte_len (normalize_chars s) ≤ byte_len s
unfolding normalize_chars byte_len
normalize_chars-len [] = omega arith
normalize_chars-len (c ∷ []) = omega (arith, normalize_char-len c)
normalize_chars-len (c ∷ d ∷ s) = ground (
  arith,
  normalize_char-len c,
  normalize_chars-len s,
  normalize_chars-len (d ∷ s),
  char_len_pos c,
)

allowed-ne-return : (c : ℕ) → allowed_char c ≡ true → (c == carriage_return) ≡ false
unfolding allowed_char
allowed-ne-return c h = ground arith

-- Allowed text is left as it is.
pub normalize_chars_id : (s : Text) → all allowed_char s ≡ true → normalize_chars s ≡ s
unfolding normalize_chars
normalize_chars_id [] h = refl
normalize_chars_id (c ∷ []) h = ground (arith, normalize_char_id c)
normalize_chars_id (c ∷ d ∷ s) h =
    ground (arith, allowed-ne-return c, normalize_char_id c, normalize_chars_id (d ∷ s))

-- The shortcut for text that is already valid changes nothing.
pub normalize_model_text_lem : (s : Text) → normalize_model_text s ≡ normalize_chars s
unfolding normalize_model_text valid_text
normalize_model_text_lem s = ground (arith, normalize_chars_id s)

-- Normalized text has no control character but line feed and tab, is never longer in bytes than the
-- text it comes from, and is unchanged by a second pass.
pub normalize_model_text_safe :
    (s : Text)
    → (all allowed_char (normalize_model_text s) ≡ true)
      × (byte_len (normalize_model_text s) ≤ byte_len s)
      × (normalize_model_text (normalize_model_text s) ≡ normalize_model_text s)
normalize_model_text_safe s = (
  rw (normalize_model_text_lem s) (normalize_chars-allowed s),
  rw (normalize_model_text_lem s) (normalize_chars-len s),
  normalize_model_text_lem (normalize_model_text s)
      ∙ normalize_chars_id _ (rw (normalize_model_text_lem s) (normalize_chars-allowed s)),
)
