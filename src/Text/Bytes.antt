-- ===== src/Text/Bytes.antt =====
-- Laws of the byte length, of the test for allowed text and of the equality of texts.
use minicore_runtime.Base.{ℕ, ◌+◌, ◌≤◌, ◌≡◌, refl, ◌↔◌, true, [], ◌∷◌, ◌++◌, arith}
use minicore_runtime.Text.{
  Text, char_len, byte_len, text_eq, is_control, allowed_char, normalize_char,
}

pub char_len_pos : (c : ℕ) → 1 ≤ char_len c
unfolding char_len
char_len_pos c = ground arith

pub byte_len-append : (xs ys : Text) → byte_len (xs ++ ys) ≡ byte_len xs + byte_len ys
unfolding byte_len
byte_len-append [] ys = omega arith
byte_len-append (c ∷ xs) ys = omega (arith, byte_len-append xs ys)

pub text_eq_iff : (s t : Text) → (text_eq s t ≡ true) ↔ (s ≡ t)
unfolding text_eq
text_eq_iff [] [] = (λ e. refl, λ e. refl)
text_eq_iff [] (b ∷ t) = (λ e. cc, λ e. cc)
text_eq_iff (a ∷ s) [] = (λ e. cc, λ e. cc)
text_eq_iff (a ∷ s) (b ∷ t) =
    (λ e. ground (arith, text_eq_iff s t), λ e. ground (arith, text_eq_iff s t))

-- A normalized character is allowed, and its UTF-8 form is no longer than the character's.
pub normalize_char-allowed : (c : ℕ) → allowed_char (normalize_char c) ≡ true
unfolding allowed_char normalize_char
normalize_char-allowed c = ground arith

pub normalize_char-len : (c : ℕ) → char_len (normalize_char c) ≤ char_len c
unfolding char_len normalize_char is_control
normalize_char-len c = ground arith

pub normalize_char_id : (c : ℕ) → allowed_char c ≡ true → normalize_char c ≡ c
unfolding allowed_char normalize_char
normalize_char_id c h = ground arith
