-- ===== src/Ids/Roundtrip.antt =====
-- `encode_runtime_id` and `decode_runtime_id` of src/ids.rs are inverse to one another.
use minicore_runtime.Base.{
  ◌+◌, ◌<◌, ◌≡◌, refl, false, [], ◌∷◌, Option, none, some, arith, length, All, Result, ok, err,
  ◌>>=◌, sym,
}
use minicore_runtime.Ids.{
  Bytes, IdError, all_zero, decode_chunks, check_payload, decode_payload, decode_runtime_id,
  encode_bytes, encode_runtime_id, strip_prefix,
}
use minicore_runtime.Ids.Hex.{
  decode_chunks-encode_bytes, encode_bytes-decode_chunks, strip_prefix-append, strip_prefix-eq-some,
}

-- What `random_nonzero_bytes` returns, and what every parsed id holds.
abbrev pub IsRuntimeId : Bytes → Type 0
IsRuntimeId bytes = (length bytes ≡ 16) × All (λ b. b < 256) bytes × (all_zero bytes ≡ false)

length-encode_bytes : (bytes : Bytes) → length (encode_bytes bytes) ≡ length bytes + length bytes
unfolding encode_bytes
length-encode_bytes [] = omega arith
length-encode_bytes (b ∷ bytes) = omega (arith, length-encode_bytes bytes)

-- Every id prints as a string that parses back to it.
pub decode_runtime_id-encode_runtime_id :
    (prefix bytes : Bytes)
    → IsRuntimeId bytes
    → decode_runtime_id (encode_runtime_id prefix bytes) prefix ≡ ok bytes
unfolding decode_runtime_id encode_runtime_id decode_payload check_payload
decode_runtime_id-encode_runtime_id prefix bytes (n, below, nonzero) =
    rw strip_prefix-append
      (ground (arith, length-encode_bytes bytes, decode_chunks-encode_bytes bytes below))

check_payload-eq-ok :
    (r : Result Bytes IdError) (bytes : Bytes)
    → (r >>= check_payload) ≡ ok bytes
    → (r ≡ ok bytes) × (all_zero bytes ≡ false)
unfolding check_payload
check_payload-eq-ok (ok b) bytes h = ground arith
check_payload-eq-ok (err e) bytes h = cc

decode_payload-eq-ok :
    (prefix value bytes : Bytes) (o : Option Bytes)
    → strip_prefix prefix value ≡ o
    → decode_payload o ≡ ok bytes
    → (encode_runtime_id prefix bytes ≡ value) × IsRuntimeId bytes
unfolding decode_payload encode_runtime_id
decode_payload-eq-ok prefix value bytes none e h = cc
decode_payload-eq-ok prefix value bytes (some payload) e h =
    let n : length payload ≡ 16 + 16 = ground arith in
    let (decoded, nonzero) = check_payload-eq-ok (decode_chunks payload) bytes (ground arith) in
    let (back, size, below) = encode_bytes-decode_chunks 16 payload bytes n decoded in
    (rw back (sym (strip_prefix-eq-some prefix value payload e)), (size, below, nonzero))

-- A string that parses is the one that the parsed id prints: no other spelling of an id is
-- accepted, and the id has 16 bytes that are not all zero.
pub encode_runtime_id-decode_runtime_id :
    (prefix value bytes : Bytes)
    → decode_runtime_id value prefix ≡ ok bytes
    → (encode_runtime_id prefix bytes ≡ value) × IsRuntimeId bytes
unfolding decode_runtime_id
encode_runtime_id-decode_runtime_id prefix value bytes h =
    decode_payload-eq-ok prefix value bytes (strip_prefix prefix value) refl h
