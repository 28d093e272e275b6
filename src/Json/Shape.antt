-- ===== src/Json/Shape.antt =====
-- The shape and size checks accept exactly the values within their bounds.
use minicore_runtime.Base.{
  ℕ, ◌≡◌, refl, ◌≤◌, ◌+◌, Bool, true, false, List, [], ◌∷◌, ok, inl, inr, Result-cases, arith, ◌↔◌,
}
use minicore_runtime.Limits.{max_json_bytes}
use minicore_runtime.Text.{json_too_deep, json_too_many_nodes}
use minicore_runtime.Json.{
  JsonValue, validate_json_shape, max_json_depth, max_json_nodes, Serialized, write_all, new_writer,
  JsonCountingWriter, validate_json_size,
}
use minicore_runtime.Json.Walk.{height, nodes, validate_shape_iff}

-- A value passes the shape check exactly if it is at most 32 deep and has at most 4096 nodes, and
-- the check counts those.
pub validate_json_shape_iff :
    (v : JsonValue) (m : ℕ)
    → (validate_json_shape v 0 0 ≡ ok m)
      ↔ ((height v ≤ max_json_depth) × (nodes v ≤ max_json_nodes) × (m ≡ nodes v))
unfolding validate_json_shape
validate_json_shape_iff =
    validate_shape_iff max_json_depth max_json_nodes json_too_deep json_too_many_nodes

abbrev pub total : List ℕ → ℕ
total [] = 0
total (n ∷ ns) = n + total ns

write_all_iff :
    (w : JsonCountingWriter) (chunks : List ℕ) (b : Bool)
    → w.written ≤ w.max_bytes
    → w.exceeded ≡ false
    → ((write_all w chunks b).1 ≡ true) ↔ ((b ≡ true) × (w.written + total chunks ≤ w.max_bytes))
unfolding write_all
write_all_iff w [] b i x = ground arith
write_all_iff w (c ∷ cs) b i x =
    ground (arith, write_all_iff (record w { written = w.written + c }) cs b)

module _ (to_writer : JsonValue → Serialized) where
  size_sound :
      (v : JsonValue) (max_bytes : ℕ)
      → validate_json_size to_writer v max_bytes ≡ ok tt
      → ((max_bytes ≤ max_json_bytes)
          × (height v ≤ max_json_depth)
          × (nodes v ≤ max_json_nodes)
          × ((to_writer v).succeeds ≡ true)
          × (total (to_writer v).chunks ≤ max_bytes))
  unfolding validate_json_size
  size_sound v max_bytes h = elim (Result-cases (validate_json_shape v 0 0)) [
    | inl (m, e) ↦ ground (
      arith,
      e,
      (validate_json_shape_iff v m).0 e,
      write_all_iff (new_writer max_bytes) (to_writer v).chunks (to_writer v).succeeds,
    )
    | inr (x, e) ↦ ground (arith, e)
  ]

  size_complete :
      (v : JsonValue) (max_bytes : ℕ)
      → ((max_bytes ≤ max_json_bytes)
          × (height v ≤ max_json_depth)
          × (nodes v ≤ max_json_nodes)
          × ((to_writer v).succeeds ≡ true)
          × (total (to_writer v).chunks ≤ max_bytes))
      → validate_json_size to_writer v max_bytes ≡ ok tt
  unfolding validate_json_size
  size_complete v max_bytes h = ground (
    arith,
    (validate_json_shape_iff v (nodes v)).1 (omega (arith, h), omega (arith, h), refl),
    write_all_iff (new_writer max_bytes) (to_writer v).chunks (to_writer v).succeeds,
  )

  -- A value passes the size check exactly if the limit itself is allowed, the shape is within its
  -- bounds, and its serialization succeeds with at most the allowed number of bytes.
  pub validate_json_size_iff :
      (v : JsonValue) (max_bytes : ℕ)
      → (validate_json_size to_writer v max_bytes ≡ ok tt) ↔ (
          (max_bytes ≤ max_json_bytes)
          × (height v ≤ max_json_depth)
          × (nodes v ≤ max_json_nodes)
          × ((to_writer v).succeeds ≡ true)
          × (total (to_writer v).chunks ≤ max_bytes))
  unfolding validate_json_size
  validate_json_size_iff v max_bytes =
      (λ h. size_sound v max_bytes h, λ h. size_complete v max_bytes h)
