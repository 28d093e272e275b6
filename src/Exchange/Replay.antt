-- ===== src/Exchange/Replay.antt =====
-- src/model/replay.rs: the metadata of a provider that an assistant message carries. `to_writer` is the
-- serializer of the JSON library on the envelope, with the format and the payload.
use minicore_runtime.Base.{
  ℕ, ◌+◌, ◌-◌, ◌≤◌, ◌≡◌, refl, ◌↔◌, ap, ◌∙◌, Bool, true, false, ◌||◌, not, List, [], ◌∷◌, all,
  is_empty, ltb, ◌==◌, Option, none, some, Result, ok, err, ◌>>=◌, if◌then◌else◌, arith, inl, inr,
  Result-cases, if_cases, Ok, Ok-bind, Ok-intro, subst,
}
use minicore_runtime.Text.{Text, byte_len}
use minicore_runtime.Ids.{is_ascii_alphanumeric}
use minicore_runtime.Json.{JsonValue, Serialized, validate_shape, validate_items, validate_members}
use minicore_runtime.Json.Shape.{total}
use minicore_runtime.Json.Walk.{height, nodes, validate_shape_iff}
use minicore_runtime.Message.{ModelValueError, invalid_provider_replay}
use minicore_runtime.Exchange.{ProviderReplay}

abbrev pub max_replay_bytes : ℕ
max_replay_bytes = 262144

abbrev pub max_replay_depth : ℕ
max_replay_depth = 32

abbrev pub max_replay_nodes : ℕ
max_replay_nodes = 16384

-- `validate_shape value depth nodes`.
abbrev pub validate_replay_shape : JsonValue → ℕ → ℕ → Result ℕ ModelValueError
validate_replay_shape =
    validate_shape max_replay_depth max_replay_nodes invalid_provider_replay invalid_provider_replay

-- A byte that is no ASCII is in no character that this allows.
unfoldable pub format_char : ℕ → Bool
unfolding is_ascii_alphanumeric
format_char c =
    is_ascii_alphanumeric c || c == b'_' || c == b'-' || c == b'.' || c == b':' || c == b'/'

-- CountingWriter::write for each chunk of a value, from the count so far; none if it fails.
unfoldable pub count_all : ℕ → List ℕ → Bool → Option ℕ
count_all written [] succeeds = if succeeds then some written else none
count_all written (chunk ∷ chunks) succeeds =
    let rest = count_all (written + chunk) chunks succeeds in
    if ltb (max_replay_bytes - written) chunk then none else rest

module _ (to_writer : Text → JsonValue → Serialized) where
  abbrev replay_of : Text → JsonValue → Option ℕ → Result ProviderReplay ModelValueError
  replay_of format payload none = err invalid_provider_replay
  replay_of format payload (some bytes) =
      ok (record { format = format; payload = payload; bytes = bytes })

  -- ProviderReplay::new
  unfoldable pub new_replay : Text → JsonValue → Result ProviderReplay ModelValueError
  unfolding validate_shape validate_items validate_members count_all format_char
  new_replay format payload =
      if is_empty format || ltb 128 (byte_len format) || not (all format_char format)
      then err invalid_provider_replay
      else (validate_replay_shape payload 0 0 >>= λ nodes.
          replay_of format payload
            (count_all 0 (to_writer format payload).chunks (to_writer format payload).succeeds))

  count_all_iff :
      (written : ℕ) (chunks : List ℕ) (b : Bool) (n : ℕ)
      → written ≤ max_replay_bytes
      → (count_all written chunks b ≡ some n)
        ↔ ((b ≡ true) × (n ≡ written + total chunks) × (n ≤ max_replay_bytes))
  unfolding count_all
  count_all_iff w [] b n h = ground arith
  count_all_iff w (c ∷ cs) b n h =
      let fits = λ (m : w + c ≤ max_replay_bytes). count_all_iff (w + c) cs b n m in
      if_cases
        (λ o. (o ≡ some n) ↔ ((b ≡ true) × (n ≡ w + (c + total cs)) × (n ≤ max_replay_bytes)))
        (ltb (max_replay_bytes - w) c) {x = none} {y = count_all (w + c) cs b}
        (λ t. (λ e. cc, λ e. absurd (ground (arith, t, e))))
        (λ f.
          let m : w + c ≤ max_replay_bytes = ground (arith, f) in
          (λ e. ground (arith, (fits m).0 e), λ e. (fits m).1 (e.0, omega (arith, e), e.2)))

  replay_bytes :
      (format : Text) (payload : JsonValue) (o : Option ℕ) (bytes : ℕ)
      → replay_of format payload o
        ≡ ok (record { format = format; payload = payload; bytes = bytes })
      → o ≡ some bytes
  replay_bytes format payload none bytes e = cc
  replay_bytes format payload (some b) bytes e =
      ap (λ r. elim r [ ok replay ↦ some replay.bytes | err x ↦ none ]) e

  module _ (format : Text) (payload : JsonValue) (bytes : ℕ) where
    abbrev Fits : Type 0
    Fits =
        (is_empty format ≡ false)
        × (byte_len format ≤ 128)
        × (all format_char format ≡ true)
        × (height payload ≤ max_replay_depth)
        × (nodes payload ≤ max_replay_nodes)
        × ((to_writer format payload).succeeds ≡ true)
        × (bytes ≡ total (to_writer format payload).chunks)
        × (bytes ≤ max_replay_bytes)

    abbrev IsMade : Result ProviderReplay ModelValueError → Type 0
    IsMade r = r ≡ ok (record { format = format; payload = payload; bytes = bytes })

    shape_iff :
        (m : ℕ)
        → (validate_replay_shape payload 0 0 ≡ ok m) ↔ (
            (height payload ≤ max_replay_depth)
            × (nodes payload ≤ max_replay_nodes)
            × (m ≡ nodes payload))
    shape_iff =
        validate_shape_iff max_replay_depth max_replay_nodes invalid_provider_replay
          invalid_provider_replay payload

    count_iff :
        (count_all 0 (to_writer format payload).chunks (to_writer format payload).succeeds
          ≡ some bytes)
        ↔ (((to_writer format payload).succeeds ≡ true)
            × (bytes ≡ 0 + total (to_writer format payload).chunks)
            × (bytes ≤ max_replay_bytes))
    count_iff =
        count_all_iff 0 (to_writer format payload).chunks (to_writer format payload).succeeds bytes
          (omega arith)

    new_replay-Fits : IsMade (new_replay format payload) → Fits
    unfolding new_replay
    new_replay-Fits =
        if_cases (λ r. IsMade r → Fits)
          (is_empty format || ltb 128 (byte_len format) || not (all format_char format)) (λ t e. cc)
          (λ f e. elim (Result-cases (validate_replay_shape payload 0 0)) [
            | inl (m, s) ↦ ground (
              arith,
              f,
              (shape_iff m).0 s,
              count_iff.0 (replay_bytes format payload _ bytes (rw s at e)),
            )
            | inr (x, s) ↦ absurd (cc (rw s at e))
          ])

    Fits-new_replay : Fits → IsMade (new_replay format payload)
    unfolding new_replay
    Fits-new_replay h =
        let c = count_iff.1 (ground (arith, h)) in
        let s = (shape_iff (nodes payload)).1 (omega (arith, h), omega (arith, h), refl) in
        if_cases IsMade
          (is_empty format || ltb 128 (byte_len format) || not (all format_char format))
          (λ t. absurd (ground (arith, h, t))) (λ f. rw (s, c) refl)

  -- A replay is made of a format and a payload exactly if the format is one to 128 of the allowed
  -- characters, the payload is at most 32 deep and has at most 16384 nodes, and the serialization of
  -- both succeeds with at most 262144 bytes; it keeps the two and the number of these bytes.
  pub new_replay_iff :
      (format : Text) (payload : JsonValue) (bytes : ℕ)
      → (new_replay format payload
          ≡ ok (record { format = format; payload = payload; bytes = bytes }))
        ↔ ((is_empty format ≡ false)
            × (byte_len format ≤ 128)
            × (all format_char format ≡ true)
            × (height payload ≤ max_replay_depth)
            × (nodes payload ≤ max_replay_nodes)
            × ((to_writer format payload).succeeds ≡ true)
            × (bytes ≡ total (to_writer format payload).chunks)
            × (bytes ≤ max_replay_bytes))
  new_replay_iff format payload bytes =
      (new_replay-Fits format payload bytes, Fits-new_replay format payload bytes)

  replay_of-again :
      (format : Text) (payload : JsonValue) (o : Option ℕ)
      → Ok
          (λ (r : ProviderReplay). (r.format ≡ format) × (r.payload ≡ payload))
          (replay_of format payload o)
  replay_of-again format payload none = tt
  replay_of-again format payload (some bytes) = (refl, refl)

  new_replay-fields :
      (format : Text) (payload : JsonValue)
      → Ok
          (λ (r : ProviderReplay). (r.format ≡ format) × (r.payload ≡ payload))
          (new_replay format payload)
  unfolding new_replay
  new_replay-fields format payload =
      let P : ProviderReplay → Type 0 = λ r. (r.format ≡ format) × (r.payload ≡ payload) in
      if_cases (Ok P) (is_empty format || ltb 128 (byte_len format) || not (all format_char format))
        (λ t. tt)
        (λ f.
          Ok-bind (λ n. Unit {0}) P (validate_replay_shape payload 0 0) _
            (Ok-intro (λ n. Unit {0}) (validate_replay_shape payload 0 0) (λ n. tt))
            (λ n u.
              replay_of-again format payload (
                count_all 0 (to_writer format payload).chunks (to_writer format payload).succeeds)))

  -- A replay is made again of what it keeps.
  pub new_replay-again :
      (format : Text) (payload : JsonValue) (r : ProviderReplay)
      → new_replay format payload ≡ ok r
      → new_replay r.format r.payload ≡ ok r
  new_replay-again format payload r e =
      let h : (r.format ≡ format) × (r.payload ≡ payload) =
        subst (Ok (λ (r : ProviderReplay). (r.format ≡ format) × (r.payload ≡ payload))) e
          (new_replay-fields format payload) in
      (λ i. new_replay (h.0 i) (h.1 i)) ∙ e
