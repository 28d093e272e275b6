-- ===== src/Json/Examples.antt =====
-- Tests and concrete instances of the theorems on the JSON bounds.
use minicore_runtime.Base.{◌≡◌, refl, ◌≤◌, true, [], ◌∷◌, ok, err, ◌↔◌}
use minicore_runtime.Text.{json_too_large}
use minicore_runtime.Limits.{max_json_bytes}
use minicore_runtime.Json.{
  JsonValue, Serialized, json_null, json_array, json_object, no_items, item, no_members,
  validate_json_shape, validate_json_size, max_json_depth, max_json_nodes,
}
use minicore_runtime.Json.Shape.{total, validate_json_size_iff}
use minicore_runtime.Json.Walk.{height, nodes}

abbrev pair : JsonValue
pair = json_array (item json_null (item (json_object no_members) no_items))

abbrev to_writer : JsonValue → Serialized
to_writer v = record { chunks = 1 ∷ 4 ∷ 1 ∷ 2 ∷ 1 ∷ []; succeeds = true }

validate_json_size_iff_example : (validate_json_size to_writer pair 9 ≡ ok tt) ↔ (
    (9 ≤ max_json_bytes)
    × (height pair ≤ max_json_depth)
    × (nodes pair ≤ max_json_nodes)
    × (true ≡ true)
    × (total (1 ∷ 4 ∷ 1 ∷ 2 ∷ 1 ∷ []) ≤ 9))
validate_json_size_iff_example = validate_json_size_iff to_writer pair 9

nine_bytes_fit : validate_json_size to_writer pair 9 ≡ ok tt
unfolding validate_json_size validate_json_shape
nine_bytes_fit = refl

nine_bytes_do_not_fit_in_eight : validate_json_size to_writer pair 8 ≡ err json_too_large
unfolding validate_json_size validate_json_shape
nine_bytes_do_not_fit_in_eight = refl
