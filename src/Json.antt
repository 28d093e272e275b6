-- ===== src/Json.antt =====
-- src/value.rs, the JSON half: how deep and how large a
-- JSON value may be.
pub mod Walk
pub mod Shape
pub mod Examples
use minicore_runtime.Base.{
  ℕ, suc, ◌+◌, ◌-◌, ◌*◌, ◌^◌, Bool, true, false, ◌||◌, List, [], ◌∷◌, ltb, if◌then◌else◌, Result,
  ok, err, ◌>>=◌,
}
use minicore_runtime.Text.{
  Text, ValueError, json_limit_too_large, json_too_large, json_too_deep, json_too_many_nodes,
  json_serialization, usize_max,
}
use minicore_runtime.Limits.{max_json_bytes}

-- serde_json::Value, by its constructors; a number is its text. The members of an object are in
-- the order of its map.
mutual
  pub data JsonValue : Type 0 where
    json_null : JsonValue
    json_bool : Bool → JsonValue
    json_number json_string : Text → JsonValue
    json_array : Items → JsonValue
    json_object : Members → JsonValue

  pub data Items : Type 0 where
    no_items : Items
    item : JsonValue → Items → Items

  pub data Members : Type 0 where
    no_members : Members
    member : Text → JsonValue → Members → Members

abbrev pub max_json_depth : ℕ
max_json_depth = 32

abbrev pub max_json_nodes : ℕ
max_json_nodes = 4096

-- The walk over a value, with the mutable count of the nodes as a result. The values of the library and
-- the payloads of a provider replay have their own bounds and errors.
module _ {E : Type 0} (max_depth max_nodes : ℕ) (too_deep too_many_nodes : E) where
  abbrev pub enter : ℕ → ℕ → Result ℕ E
  enter depth nodes =
      if ltb max_depth depth
      then err too_deep
      else if ltb max_nodes (suc nodes)
      then err too_many_nodes
      else ok (suc nodes)

  unfoldable mutual
    pub validate_shape : JsonValue → ℕ → ℕ → Result ℕ E
    validate_shape (json_array values) depth nodes =
        enter depth nodes >>= λ n. validate_items values (suc depth) n
    validate_shape (json_object values) depth nodes =
        enter depth nodes >>= λ n. validate_members values (suc depth) n
    validate_shape _ depth nodes = enter depth nodes

    pub validate_items : Items → ℕ → ℕ → Result ℕ E
    validate_items no_items depth nodes = ok nodes
    validate_items (item value values) depth nodes =
        validate_shape value depth nodes >>= λ n. validate_items values depth n

    pub validate_members : Members → ℕ → ℕ → Result ℕ E
    validate_members no_members depth nodes = ok nodes
    validate_members (member key value values) depth nodes =
        validate_shape value depth nodes >>= λ n. validate_members values depth n

-- `validate_json_shape value depth nodes`.
unfoldable pub validate_json_shape : JsonValue → ℕ → ℕ → Result ℕ ValueError
unfolding validate_shape validate_items validate_members
validate_json_shape = validate_shape max_json_depth max_json_nodes json_too_deep json_too_many_nodes

-- JsonCountingWriter
pub record JsonCountingWriter : Type 0 where
  pub max_bytes : ℕ
  pub written : ℕ
  pub exceeded : Bool

abbrev pub new_writer : ℕ → JsonCountingWriter
new_writer max_bytes = record { max_bytes = max_bytes; written = 0; exceeded = false }

-- JsonCountingWriter::write of a chunk of so many bytes: the writer, and whether it took them.
unfoldable pub write : JsonCountingWriter → ℕ → JsonCountingWriter × Bool
write writer bytes =
    if ltb (writer.max_bytes - writer.written) bytes
    then (record writer { exceeded = true }, false)
    else (record writer { written = writer.written + bytes }, true)

-- What `serde_json::to_writer` does with a value: the lengths of the chunks that it writes, and
-- whether it then succeeds. A chunk that is refused ends it.
pub record Serialized : Type 0 where
  pub chunks : List ℕ
  pub succeeds : Bool

unfoldable pub write_all : JsonCountingWriter → List ℕ → Bool → JsonCountingWriter × Bool
unfolding write
write_all writer [] succeeds = (writer, succeeds)
write_all writer (chunk ∷ chunks) succeeds =
    let (writer', taken) = write writer chunk in
    let rest = write_all writer' chunks succeeds in if taken then rest else (writer', false)

module _ (to_writer : JsonValue → Serialized) where
  unfoldable pub validate_json_size : JsonValue → ℕ → Result (Unit {0}) ValueError
  unfolding write_all
  validate_json_size value max_bytes =
      if ltb max_json_bytes max_bytes
      then err json_limit_too_large
      else validate_json_shape value 0 0 >>= λ nodes.
          (let (sink, done) =
              write_all (new_writer max_bytes) (to_writer value).chunks
                (to_writer value).succeeds in
            if done
            then ok tt
            else if sink.exceeded
            then err json_too_large
            else err json_serialization)

  -- json_bytes, where the serialization of a `Value` succeeds.
  unfoldable pub json_bytes : JsonValue → ℕ
  unfolding write_all
  json_bytes value =
      (write_all (new_writer usize_max) (to_writer value).chunks
        (to_writer value).succeeds).0.written
