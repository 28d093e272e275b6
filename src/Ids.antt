-- ===== src/Ids.antt =====
-- src/ids.rs, and the symbolic names of src/tools/types.rs and src/model/model_ref.rs. These parse
-- the bytes of a string, so a string is here the list of its bytes.
pub mod Hex
pub mod Roundtrip
pub mod Examples
use minicore_runtime.Base.{
  ℕ, zero, suc, ◌+◌, ◌-◌, ◌*◌, ◌/◌, ◌%◌, Bool, true, false, ◌&&◌, ◌||◌, not, List, [], ◌∷◌, ◌++◌,
  Option, none, some, ltb, leb, ◌==◌, if◌then◌else◌, is_empty, all, length, Result, ok, err, ◌>>=◌,
}

abbrev pub Bytes : Type 0
Bytes = List ℕ

-- Equality of byte strings, and of the ids that hold them.
unfoldable pub bytes_eq : Bytes → Bytes → Bool
bytes_eq [] [] = true
bytes_eq (a ∷ s) (b ∷ t) = a == b && bytes_eq s t
bytes_eq _ _ = false

pub data IdError : Type 0 where
  invalid_prefix invalid_length invalid_hex zero_payload entropy_unavailable : IdError

-- The 16 bytes of a `LoopId` or an `InteractionId`.
abbrev pub RuntimeId : Type 0
RuntimeId = Bytes

unfoldable pub all_zero : Bytes → Bool
all_zero bytes = all (λ byte. byte == 0) bytes

-- Each element is what one `getrandom::fill` gives; the list ends while the loop still draws.
pub random_nonzero_bytes : List (Option Bytes) → Option (Result Bytes IdError)
unfolding all_zero
random_nonzero_bytes [] = none
random_nonzero_bytes (none ∷ draws) = some (err entropy_unavailable)
random_nonzero_bytes (some bytes ∷ draws) =
    let again = random_nonzero_bytes draws in if all_zero bytes then again else some (ok bytes)

unfoldable pub strip_prefix : Bytes → Bytes → Option Bytes
strip_prefix [] value = some value
strip_prefix (p ∷ prefix) [] = none
strip_prefix (p ∷ prefix) (c ∷ value) = if p == c then strip_prefix prefix value else none

unfoldable pub decode_lower_hex : ℕ → Option ℕ
decode_lower_hex value =
    if leb b'0' value && leb value b'9'
    then some (value - b'0')
    else if leb b'a' value && leb value b'f'
    then some (value - b'a' + 10)
    else none

-- `(high << 4) | low`, of two numbers below 16.
abbrev pub join_nibbles : ℕ → ℕ → ℕ
join_nibbles high low = high * 16 + low

or_invalid_hex : Option ℕ → Result ℕ IdError
or_invalid_hex none = err invalid_hex
or_invalid_hex (some digit) = ok digit

-- The loop over `as_chunks::<2>`; an odd byte at the end is in no chunk.
unfoldable pub decode_chunks : Bytes → Result Bytes IdError
unfolding or_invalid_hex decode_lower_hex
decode_chunks [] = ok []
decode_chunks (h ∷ []) = ok []
decode_chunks (h ∷ l ∷ rest) = do
  high ← or_invalid_hex (decode_lower_hex h)
  low ← or_invalid_hex (decode_lower_hex l)
  bytes ← decode_chunks rest
  ok (join_nibbles high low ∷ bytes)

pub check_payload : Bytes → Result Bytes IdError
unfolding all_zero
check_payload bytes = if all_zero bytes then err zero_payload else ok bytes

pub decode_payload : Option Bytes → Result Bytes IdError
decode_payload none = err invalid_prefix
decode_payload (some payload) =
    if length payload == 32 then (decode_chunks payload >>= check_payload) else err invalid_length

pub decode_runtime_id : Bytes → Bytes → Result Bytes IdError
decode_runtime_id value prefix = decode_payload (strip_prefix prefix value)

-- One digit of `{byte:02x}`.
unfoldable pub lower_hex : ℕ → ℕ
lower_hex digit = if ltb digit 10 then b'0' + digit else b'a' + (digit - 10)

unfoldable pub encode_bytes : Bytes → Bytes
unfolding lower_hex
encode_bytes [] = []
encode_bytes (byte ∷ bytes) = lower_hex (byte / 16) ∷ lower_hex (byte % 16) ∷ encode_bytes bytes

pub encode_runtime_id : Bytes → Bytes → Bytes
unfolding encode_bytes
encode_runtime_id prefix bytes = prefix ++ encode_bytes bytes

-- "int_" and "lup_".
abbrev pub interaction_prefix : Bytes
interaction_prefix = b'i' ∷ b'n' ∷ b't' ∷ b'_' ∷ []

abbrev pub loop_prefix : Bytes
loop_prefix = b'l' ∷ b'u' ∷ b'p' ∷ b'_' ∷ []

pub data NameError : Type 0 where
  length_out_of_range grammar : NameError

unfoldable pub is_ascii_alphanumeric : ℕ → Bool
is_ascii_alphanumeric b =
    (leb b'0' b && leb b b'9') || (leb b'A' b && leb b b'Z') || (leb b'a' b && leb b b'z')

checked_name : ℕ → (ℕ → Bool) → Bytes → Result Bytes NameError
checked_name maximum allowed value =
    if is_empty value || ltb maximum (length value)
    then err length_out_of_range
    else if all allowed value
    then ok value
    else err grammar

-- ToolCallId::new
unfoldable pub tool_call_id : Bytes → Result Bytes NameError
unfolding checked_name
tool_call_id value =
    checked_name 256
      (λ byte. leb 0x21 byte && leb byte 0x7e && not (byte == b'"') && not (byte == 92)) value

-- ToolName::from_str
unfoldable pub tool_name : Bytes → Result Bytes NameError
unfolding checked_name is_ascii_alphanumeric
tool_name value =
    checked_name 64 (λ byte. is_ascii_alphanumeric byte || (byte == b'_' || byte == b'-')) value

-- ModelRef::from_str
unfoldable pub model_ref : Bytes → Result Bytes NameError
unfolding checked_name is_ascii_alphanumeric
model_ref value =
    checked_name 256
      (λ byte.
        is_ascii_alphanumeric byte
        || (byte == b'_' || byte == b'-' || byte == b'.' || byte == b':' || byte == b'/'))
      value
