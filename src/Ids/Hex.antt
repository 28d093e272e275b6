-- ===== src/Ids/Hex.antt =====
-- One byte as two hexadecimal digits, and back.
use minicore_runtime.Base.{
  ℕ, ◌+◌, ◌/◌, ◌%◌, ◌<◌, ◌≡◌, refl, ◌↔◌, true, [], ◌∷◌, ◌++◌, none, some, arith, length, All, ok,
  ap, ◌∙◌, err, Option, Result, ◌-◌,
}
use minicore_runtime.Ids.{
  Bytes, IdError, bytes_eq, decode_lower_hex, lower_hex, decode_chunks, encode_bytes, strip_prefix,
  join_nibbles,
}

pub bytes_eq_iff : (s t : Bytes) → (bytes_eq s t ≡ true) ↔ (s ≡ t)
unfolding bytes_eq
bytes_eq_iff [] [] = (λ e. refl, λ e. refl)
bytes_eq_iff [] (b ∷ t) = (λ e. cc, λ e. cc)
bytes_eq_iff (a ∷ s) [] = (λ e. cc, λ e. cc)
bytes_eq_iff (a ∷ s) (b ∷ t) =
    (λ e. ground (arith, bytes_eq_iff s t), λ e. ground (arith, bytes_eq_iff s t))

decode_lower_hex-lower_hex : (d : ℕ) → d < 16 → decode_lower_hex (lower_hex d) ≡ some d
unfolding decode_lower_hex lower_hex
decode_lower_hex-lower_hex d h = ground arith

lower_hex-decode_lower_hex : (c d : ℕ) → decode_lower_hex c ≡ some d → (lower_hex d ≡ c) × (d < 16)
unfolding decode_lower_hex lower_hex
lower_hex-decode_lower_hex c d h = ground arith

decode_pair :
    (h l a b : ℕ) (rest bytes : Bytes)
    → decode_lower_hex h ≡ some a
    → decode_lower_hex l ≡ some b
    → decode_chunks rest ≡ ok bytes
    → decode_chunks (h ∷ l ∷ rest) ≡ ok (join_nibbles a b ∷ bytes)
unfolding decode_chunks
decode_pair h l a b rest bytes p q r = rw (p, q, r)

pub decode_chunks-encode_bytes :
    (bytes : Bytes) → All (λ b. b < 256) bytes → decode_chunks (encode_bytes bytes) ≡ ok bytes
unfolding decode_chunks encode_bytes
decode_chunks-encode_bytes [] h = refl
decode_chunks-encode_bytes (b ∷ bytes) h =
    decode_pair (lower_hex (b / 16)) (lower_hex (b % 16)) (b / 16) (b % 16) (encode_bytes bytes)
      bytes (decode_lower_hex-lower_hex (b / 16) (omega arith))
      (decode_lower_hex-lower_hex (b % 16) (omega arith)) (decode_chunks-encode_bytes bytes h.1)
    ∙ ap (λ x. ok (x ∷ bytes)) (omega arith)

abbrev Pair : ℕ → ℕ → Bytes → Bytes → Type 0
Pair h l rest bytes =
    (a : ℕ) × (b : ℕ) × (tail : Bytes) × (decode_lower_hex h ≡ some a)
    × (decode_lower_hex l ≡ some b)
    × (decode_chunks rest ≡ ok tail)
    × (bytes ≡ join_nibbles a b ∷ tail)

-- A decoded string begins with the two digits of the first byte.
decode_chunks-Pair :
    (h l : ℕ) (rest bytes : Bytes) → decode_chunks (h ∷ l ∷ rest) ≡ ok bytes → Pair h l rest bytes
unfolding decode_chunks
decode_chunks-Pair h l rest bytes e =
    go (decode_lower_hex h) refl (decode_lower_hex l) refl (decode_chunks rest) refl
  where
    go :
        (o : Option ℕ)
        → decode_lower_hex h ≡ o
        → (p : Option ℕ) → decode_lower_hex l ≡ p
        → (r : Result Bytes IdError) → decode_chunks rest ≡ r
        → Pair h l rest bytes
    go none eo p ep r er = ground arith
    go (some a) eo none ep r er = ground arith
    go (some a) eo (some b) ep (err x) er = ground arith
    go (some a) eo (some b) ep (ok tail) er = (a, b, tail, eo, ep, er, ground arith)

pub encode_bytes-decode_chunks :
    (n : ℕ) (payload bytes : Bytes)
    → length payload ≡ n + n
    → decode_chunks payload ≡ ok bytes
    → (encode_bytes bytes ≡ payload) × (length bytes ≡ n) × All (λ b. b < 256) bytes
unfolding decode_chunks encode_bytes
encode_bytes-decode_chunks n [] bytes e h = ground arith
encode_bytes-decode_chunks n (x ∷ []) bytes e h = absurd (omega arith)
encode_bytes-decode_chunks n (x ∷ y ∷ payload) bytes e h =
    let (a, b, tail, pa, pb, pt, eq) = decode_chunks-Pair x y payload bytes h in
    let (ea, ba) = lower_hex-decode_lower_hex x a pa in
    let (eb, bb) = lower_hex-decode_lower_hex y b pb in
    let (et, nt, bt) = encode_bytes-decode_chunks (n - 1) payload tail (omega arith) pt in
    let high : join_nibbles a b / 16 ≡ a = omega arith in
    let low : join_nibbles a b % 16 ≡ b = omega arith in
    rw eq (rw (high, low, ea, eb, et) refl, omega arith, (omega arith, bt))

pub strip_prefix-append : (p s : Bytes) → strip_prefix p (p ++ s) ≡ some s
unfolding strip_prefix
strip_prefix-append [] s = refl
strip_prefix-append (c ∷ p) s = ground (arith, strip_prefix-append p s)

pub strip_prefix-eq-some : (p value s : Bytes) → strip_prefix p value ≡ some s → value ≡ p ++ s
unfolding strip_prefix
strip_prefix-eq-some [] value s h = ground arith
strip_prefix-eq-some (c ∷ p) [] s h = cc
strip_prefix-eq-some (c ∷ p) (d ∷ value) s h = ground (arith, strip_prefix-eq-some p value s)
