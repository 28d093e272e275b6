-- ===== src/Ids/Examples.antt =====
-- Tests and concrete instances of the theorems on ids.
use minicore_runtime.Base.{◌≡◌, refl, [], ◌∷◌, some, arith, ok, err}
use minicore_runtime.Ids.{
  Bytes, all_zero, strip_prefix, decode_payload, decode_chunks, check_payload, zero_payload,
  invalid_prefix, decode_runtime_id, encode_runtime_id, loop_prefix, interaction_prefix,
  random_nonzero_bytes, tool_name, tool_call_id, grammar,
}
use minicore_runtime.Ids.Roundtrip.{
  decode_runtime_id-encode_runtime_id, encode_runtime_id-decode_runtime_id, IsRuntimeId,
}

abbrev sample : Bytes
sample = 0 ∷ 1 ∷ 2 ∷ 3 ∷ 4 ∷ 5 ∷ 6 ∷ 7 ∷ 8 ∷ 9 ∷ 10 ∷ 11 ∷ 127 ∷ 128 ∷ 254 ∷ 255 ∷ []

abbrev zeros : Bytes
zeros = 0 ∷ 0 ∷ 0 ∷ 0 ∷ 0 ∷ 0 ∷ 0 ∷ 0 ∷ 0 ∷ 0 ∷ 0 ∷ 0 ∷ 0 ∷ 0 ∷ 0 ∷ 0 ∷ []

sample_nonzero : IsRuntimeId sample
unfolding all_zero
sample_nonzero = (refl, omega arith, refl)

decode_runtime_id-encode_runtime_id_example :
    decode_runtime_id (encode_runtime_id loop_prefix sample) loop_prefix ≡ ok sample
decode_runtime_id-encode_runtime_id_example =
    decode_runtime_id-encode_runtime_id loop_prefix sample sample_nonzero

encode_runtime_id-decode_runtime_id_example :
    (encode_runtime_id loop_prefix sample ≡ encode_runtime_id loop_prefix sample)
    × IsRuntimeId sample
encode_runtime_id-decode_runtime_id_example =
    encode_runtime_id-decode_runtime_id loop_prefix (encode_runtime_id loop_prefix sample) sample
      decode_runtime_id-encode_runtime_id_example

zero_id_refused :
    decode_runtime_id (encode_runtime_id loop_prefix zeros) loop_prefix ≡ err zero_payload
unfolding decode_runtime_id encode_runtime_id strip_prefix decode_payload decode_chunks
    check_payload
zero_id_refused = refl

other_prefix_refused :
    decode_runtime_id (encode_runtime_id loop_prefix sample) interaction_prefix ≡ err invalid_prefix
unfolding decode_runtime_id encode_runtime_id strip_prefix decode_payload decode_chunks
    check_payload
other_prefix_refused = refl

draws_again : random_nonzero_bytes (some zeros ∷ some sample ∷ []) ≡ some (ok sample)
unfolding random_nonzero_bytes
draws_again = refl

names :
    (tool_name (b'a' ∷ b'-' ∷ b'1' ∷ []) ≡ ok (b'a' ∷ b'-' ∷ b'1' ∷ []))
    × (tool_call_id (32 ∷ []) ≡ err grammar)
unfolding tool_name tool_call_id
names = (refl, refl)
