-- ===== src/Exchange/Wire.antt =====
-- src/model/message.rs: what a message is written as, and how it is read again. The forms of a part and
-- of a replay have the fields of the values. The ids, the outputs and the encoding of these forms by
-- serde are left out.
use minicore_runtime.Base.{
  ℕ, subst, Ok, ◌≡◌, refl, ◌∙◌, true, List, [], ◌∷◌, all, All, Option, none, some, Result, ok,
  ◌>>=◌, ◌>>◌, arith,
}
use minicore_runtime.Text.{Text, valid_text, normalize_model_text}
use minicore_runtime.Text.Normalize.{normalize_model_text_lem, normalize_chars_id}
use minicore_runtime.Ids.{Bytes}
use minicore_runtime.Json.{JsonValue, Serialized}
use minicore_runtime.Limits.{max_json_bytes}
use minicore_runtime.Tools.{ToolResultOutcome}
use minicore_runtime.Message.{
  AssistantPart, ReasoningContent, ToolCall, text, reasoning, tool_call, ModelValueError,
  max_model_message_text_bytes, validate_part, new_reasoning, new_tool_call, normalize_part,
  normalize_parts,
}
use minicore_runtime.Message.Order.{valid_text_part, validate_tool_call_order_iff}
use minicore_runtime.Exchange.{
  ProviderReplay, ModelMessage, system, user, assistant, assistant_with_replay, tool,
  validate_message, new_assistant,
}
use minicore_runtime.Exchange.Replay.{new_replay, new_replay-again}
use minicore_runtime.Message.Made.{new_reasoning-again, new_tool_call-again}

pub data AssistantMessageWire : Type 0 where
  legacy : List AssistantPart → AssistantMessageWire
  replay : List AssistantPart → Option ProviderReplay → AssistantMessageWire

pub data ModelMessageWire : Type 0 where
  system_wire user_wire : Text → ModelMessageWire
  assistant_wire : AssistantMessageWire → ModelMessageWire
  tool_wire : Bytes → Text → ToolResultOutcome → ModelMessageWire

-- ModelMessage::serialize
unfoldable pub serialize : ModelMessage → ModelMessageWire
serialize (system t) = system_wire t
serialize (user t) = user_wire t
serialize (assistant parts) = assistant_wire (legacy parts)
serialize (assistant_with_replay parts metadata) = assistant_wire (replay parts (some metadata))
serialize (tool id output outcome) = tool_wire id output outcome

module _ (to_writer : JsonValue → Serialized) (replay_writer : Text → JsonValue → Serialized) where
  -- The forms of the reasoning and of a call go through their constructors.
  abbrev read_part : AssistantPart → Result AssistantPart ModelValueError
  read_part (text t) = ok (text (normalize_model_text t))
  read_part (reasoning r) =
      new_reasoning r.text r.summary r.encrypted r.signature >>= λ r'. ok (reasoning r')
  read_part (tool_call c) =
      new_tool_call to_writer c.tool_call_id c.name c.arguments c.call_index max_json_bytes
      >>= λ c'. ok (tool_call c')

  -- AssistantPart::deserialize
  unfoldable pub deserialize_part : AssistantPart → Result AssistantPart ModelValueError
  unfolding validate_part
  deserialize_part part = read_part part >>= λ value. validate_part value >> ok value

  unfoldable pub deserialize_parts :
      List AssistantPart → Result (List AssistantPart) ModelValueError
  unfolding deserialize_part
  deserialize_parts [] = ok []
  deserialize_parts (part ∷ parts) =
      deserialize_part part >>= λ value. deserialize_parts parts >>= λ values. ok (value ∷ values)

  -- ProviderReplay::deserialize
  unfoldable pub deserialize_replay :
      Option ProviderReplay → Result (Option ProviderReplay) ModelValueError
  unfolding new_replay
  deserialize_replay none = ok none
  deserialize_replay (some metadata) =
      new_replay replay_writer metadata.format metadata.payload >>= λ value. ok (some value)

  abbrev read_message : ModelMessageWire → Result ModelMessage ModelValueError
  read_message (system_wire t) = ok (system t)
  read_message (user_wire t) = ok (user t)
  read_message (assistant_wire (legacy parts)) =
      deserialize_parts parts >>= λ parts'. ok (assistant parts')
  read_message (assistant_wire (replay parts metadata)) = deserialize_parts parts >>= λ parts'.
      deserialize_replay metadata >>= λ metadata'. new_assistant parts' metadata'
  read_message (tool_wire id output outcome) = ok (tool id output outcome)

  -- ModelMessage::deserialize
  unfoldable pub deserialize : ModelMessageWire → Result ModelMessage ModelValueError
  unfolding deserialize_parts deserialize_replay new_assistant validate_message
  deserialize wire = read_message wire >>= λ value. validate_message value >> ok value

  -- A part, and the metadata, are what their constructors give, of whatever they were given.
  abbrev pub IsMade : AssistantPart → Type 0
  IsMade (text t) = Unit
  IsMade (reasoning r) =
      (content : Option Text) × (summary : Option Text) × (encrypted : Option Text)
      × (signature : Option Text) × (new_reasoning content summary encrypted signature ≡ ok r)
  IsMade (tool_call c) =
      (id : Bytes) × (name : Bytes) × (arguments : JsonValue) × (index : ℕ) × (max_bytes : ℕ)
      × (new_tool_call to_writer id name arguments index max_bytes ≡ ok c)

  abbrev pub AreMade : ModelMessage → Type 0
  AreMade (assistant parts) = All IsMade parts
  AreMade (assistant_with_replay parts metadata) =
      All IsMade parts
      × ((format : Text) × (payload : JsonValue) × (new_replay replay_writer format payload
            ≡ ok metadata))
  AreMade _ = Unit

  valid-normal :
      (t : Text)
      → valid_text t max_model_message_text_bytes true ≡ true
      → normalize_model_text t ≡ t
  unfolding valid_text
  valid-normal t h = normalize_model_text_lem t ∙ normalize_chars_id t (ground arith)

  part_back :
      (part : AssistantPart)
      → IsMade part
      → valid_text_part part ≡ true
      → (deserialize_part part ≡ ok part) × (normalize_part part ≡ part)
  unfolding deserialize_part normalize_part
  part_back (text t) m v = rw (valid-normal t v, v) (refl, refl)
  part_back (reasoning r) (content, summary, encrypted, signature, e) v =
      let again : new_reasoning r.text r.summary r.encrypted r.signature ≡ ok r =
        subst
          (Ok (λ (r : ReasoningContent).
            new_reasoning r.text r.summary r.encrypted r.signature ≡ ok r))
          e (new_reasoning-again content summary encrypted signature) in
      rw again (refl, refl)
  part_back (tool_call c) (id, name, arguments, index, max_bytes, e) v =
      let again : new_tool_call to_writer c.tool_call_id c.name c.arguments c.call_index
            max_json_bytes
          ≡ ok c =
        subst
          (Ok (λ (c : ToolCall).
            new_tool_call to_writer c.tool_call_id c.name c.arguments c.call_index max_json_bytes
            ≡ ok c))
          e (new_tool_call-again to_writer id name arguments index max_bytes) in
      rw again (refl, refl)

  parts_back :
      (parts : List AssistantPart)
      → All IsMade parts
      → all valid_text_part parts ≡ true
      → (deserialize_parts parts ≡ ok parts) × (normalize_parts parts ≡ parts)
  unfolding deserialize_parts normalize_parts
  parts_back [] m v = (refl, refl)
  parts_back (part ∷ parts) m v =
      let (d, n) = part_back part m.0 (ground arith) in
      let (ds, ns) = parts_back parts m.1 (ground arith) in (rw (d, ds) refl, rw (n, ns) refl)

  -- A message that passes its check, of parts and metadata as their constructors give them, is read
  -- again from what it is written as.
  pub deserialize-serialize :
      (message : ModelMessage)
      → validate_message message ≡ ok tt
      → AreMade message
      → deserialize (serialize message) ≡ ok message
  unfolding deserialize serialize validate_message
  deserialize-serialize (system t) v m = rw v refl
  deserialize-serialize (user t) v m = rw v refl
  deserialize-serialize (tool id output outcome) v m = refl
  deserialize-serialize (assistant []) v m = cc
  deserialize-serialize (assistant (part ∷ parts)) v m =
      let (d, n) =
        parts_back (part ∷ parts) m ((validate_tool_call_order_iff (part ∷ parts)).0 v).0 in
      rw (d, v) refl
  deserialize-serialize (assistant_with_replay parts metadata) v m =
      let (d, n) = parts_back parts m.0 ((validate_tool_call_order_iff parts).0 v).0 in
      let (format, payload, e) = m.1 in
      rw (d, new_replay-again replay_writer format payload metadata e, n, v, v) refl
