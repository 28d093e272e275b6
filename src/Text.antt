-- ===== src/Text.antt =====
-- src/value.rs, the text half: what text is allowed, the normalization of model text, and
-- `BoundedText`. A text is the list of its code points; its length is that of its UTF-8 form.
pub mod Bytes
pub mod Normalize
pub mod Stream
pub mod Fit
pub mod Examples
use minicore_runtime.Base.{
  ℕ, suc, ◌+◌, ◌-◌, ◌*◌, ◌^◌, Bool, true, false, ◌&&◌, ◌||◌, not, List, [], ◌∷◌, ltb, leb, ◌==◌,
  if◌then◌else◌, is_empty, all, Result, ok, err,
}

abbrev pub Text : Type 0
Text = List ℕ

-- str::len
unfoldable pub char_len : ℕ → ℕ
char_len c = if ltb c 0x80 then 1 else if ltb c 0x800 then 2 else if ltb c 0x10000 then 3 else 4

unfoldable pub byte_len : Text → ℕ
unfolding char_len
byte_len [] = 0
byte_len (c ∷ cs) = char_len c + byte_len cs

-- Equality of texts.
unfoldable pub text_eq : Text → Text → Bool
text_eq [] [] = true
text_eq (a ∷ s) (b ∷ t) = a == b && text_eq s t
text_eq _ _ = false

-- char::is_control: the general category Cc.
unfoldable pub is_control : ℕ → Bool
is_control c = ltb c 0x20 || (leb 0x7f c && leb c 0x9f)

abbrev pub usize_max : ℕ
usize_max = 2 ^ 64 - 1

abbrev pub max_text_bytes : ℕ
max_text_bytes = 256 * 1024

abbrev pub newline : ℕ
newline = 10

abbrev pub tab : ℕ
tab = 9

abbrev pub carriage_return : ℕ
carriage_return = 13

unfoldable pub allowed_char : ℕ → Bool
unfolding is_control
allowed_char c = not (is_control c) || (c == newline || c == tab)

unfoldable pub valid_text : Text → ℕ → Bool → Bool
valid_text value maximum allow_empty =
    (allow_empty || not (is_empty value)) && leb (byte_len value) maximum && all allowed_char value

-- The arms of the loop of `normalize_model_text` but for "\r\n".
unfoldable pub normalize_char : ℕ → ℕ
unfolding is_control
normalize_char c =
    if c == carriage_return
    then newline
    else if c == newline || c == tab
    then c
    else if is_control c
    then 0x20
    else c

-- The loop; a line feed that follows a carriage return is taken with it.
unfoldable pub normalize_chars : Text → Text
unfolding normalize_char
normalize_chars [] = []
normalize_chars (c ∷ []) = normalize_char c ∷ []
normalize_chars (c ∷ d ∷ cs) =
    let pair = newline ∷ normalize_chars cs in
    let single = normalize_char c ∷ normalize_chars (d ∷ cs) in
    if c == carriage_return && d == newline then pair else single

unfoldable pub normalize_model_text : Text → Text
normalize_model_text value =
    if valid_text value usize_max true then value else normalize_chars value

pub data ValueError : Type 0 where
  invalid_text text_limit_too_large text_too_large : ValueError
  json_limit_too_large json_too_large json_too_deep json_too_many_nodes : ValueError
  json_serialization : ValueError

-- BoundedText::new_with_max_bytes; a `BoundedText` is the text that it holds.
unfoldable pub new_with_max_bytes : Text → ℕ → Result Text ValueError
new_with_max_bytes value max_bytes =
    if ltb max_text_bytes max_bytes
    then err text_limit_too_large
    else if ltb max_bytes (byte_len value)
    then err text_too_large
    else ok value

-- BoundedText::new
unfoldable pub bounded_text : Text → Result Text ValueError
unfolding new_with_max_bytes
bounded_text value = new_with_max_bytes value max_text_bytes
