-- ===== src/Exchange/Examples.antt =====
-- Tests and concrete instances of the theorems on the messages of a request.
use minicore_runtime.Base.{some, none, ◌↔◌, ℕ, ◌≤◌, true, false, ◌≡◌, refl, List, [], ◌∷◌, ok, err}
use minicore_runtime.Text.{
  normalize_model_text, normalize_chars, Text, valid_text, byte_len, allowed_char,
}
use minicore_runtime.Ids.{bytes_eq}
use minicore_runtime.Json.{
  JsonValue, Serialized, json_null, json_object, no_members, validate_json_size,
  validate_json_shape,
}
use minicore_runtime.Json.Shape.{total}
use minicore_runtime.Json.Walk.{height, nodes}
use minicore_runtime.Tools.{success, failed}
use minicore_runtime.Message.{
  new_reasoning, reasoning, AssistantPart, text, new_tool_call, tool_call, incomplete_tool_exchange,
  duplicate_tool_result, validate_tool_call_order,
}
use minicore_runtime.Exchange.{
  ProviderReplay, assistant_with_replay, validate_message, ModelMessage, user, assistant, tool,
  validate_tool_exchange,
}
use minicore_runtime.Exchange.Replay.{
  new_replay, new_replay_iff, format_char, max_replay_bytes, max_replay_depth, max_replay_nodes,
}
use minicore_runtime.Exchange.Wire.{deserialize, serialize, deserialize-serialize}
use minicore_runtime.Exchange.Turns.{Turns}
use minicore_runtime.Exchange.Complete.{validate_tool_exchange_iff}

abbrev call : ℕ → ℕ → AssistantPart
call id index = tool_call (record {
  tool_call_id = id ∷ [];
  name = 120 ∷ [];
  arguments = json_object no_members;
  call_index = index;
})

-- Two calls, answered in the other order.
abbrev answered : List ModelMessage
answered =
    user (104 ∷ [])
    ∷ assistant (call 49 0 ∷ call 50 1 ∷ [])
    ∷ tool (50 ∷ []) [] success
    ∷ tool (49 ∷ []) [] failed
    ∷ user (105 ∷ [])
    ∷ []

answered_passes : validate_tool_exchange answered ≡ ok tt
unfolding validate_tool_exchange validate_tool_call_order valid_text byte_len allowed_char bytes_eq
answered_passes = refl

validate_tool_exchange_iff_example : (validate_tool_exchange answered ≡ ok tt) ↔ Turns answered
validate_tool_exchange_iff_example = validate_tool_exchange_iff answered

unanswered_fails :
    validate_tool_exchange (assistant (call 49 0 ∷ []) ∷ user (104 ∷ []) ∷ [])
    ≡ err incomplete_tool_exchange
unfolding validate_tool_exchange validate_tool_call_order bytes_eq
unanswered_fails = refl

answered_twice_fails :
    validate_tool_exchange
      (assistant (call 49 0 ∷ []) ∷ tool (49 ∷ []) [] success ∷ tool (49 ∷ []) [] success ∷ [])
    ≡ err duplicate_tool_result
unfolding validate_tool_exchange validate_tool_call_order bytes_eq
answered_twice_fails = refl

abbrev writes : JsonValue → Serialized
writes value = record { chunks = 2 ∷ []; succeeds = true }

abbrev writes_replay : Text → JsonValue → Serialized
writes_replay format payload = record { chunks = 30 ∷ 4 ∷ []; succeeds = true }

abbrev metadata : ProviderReplay
metadata = record { format = b'v' ∷ b'/' ∷ b'1' ∷ []; payload = json_null; bytes = 34 }

-- The reasoning that is made of a text with a carriage return.
abbrev thought : AssistantPart
thought =
    reasoning
      (record { text = some (104 ∷ 10 ∷ []); summary = none; encrypted = none; signature = none })

abbrev replayed : ModelMessage
replayed = assistant_with_replay (text (104 ∷ 10 ∷ []) ∷ thought ∷ call 49 0 ∷ []) metadata

new_replay_iff_example : (new_replay writes_replay metadata.format json_null ≡ ok metadata) ↔ (
    (false ≡ false)
    × (3 ≤ 128)
    × (true ≡ true)
    × (0 ≤ max_replay_depth)
    × (1 ≤ max_replay_nodes)
    × (true ≡ true)
    × (34 ≡ total (30 ∷ 4 ∷ []))
    × (34 ≤ max_replay_bytes))
unfolding byte_len format_char height nodes
new_replay_iff_example = new_replay_iff writes_replay metadata.format json_null 34

deserialize-serialize_example : deserialize writes writes_replay (serialize replayed) ≡ ok replayed
unfolding validate_message validate_tool_call_order valid_text byte_len allowed_char new_tool_call
    validate_json_size validate_json_shape new_replay bytes_eq new_reasoning normalize_model_text
    normalize_chars
deserialize-serialize_example = deserialize-serialize writes writes_replay replayed refl (
  (
    tt,
    (
      (some (104 ∷ 13 ∷ []), none, none, none, refl),
      ((49 ∷ [], 120 ∷ [], json_object no_members, 0, 100, refl), tt),
    ),
  ),
  (b'v' ∷ b'/' ∷ b'1' ∷ [], json_null, refl),
)
