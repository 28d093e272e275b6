-- ===== src/Execution.antt =====
-- src/execution.rs: the configuration of a loop, with the descriptor of src/model/port.rs and the tool
-- specifications of src/tools/tool.rs. The model, the policy and the prompt provider are ports of the
-- host: their outcomes are parameters of the code that calls them.
use minicore_runtime.Base.{
  ℕ, Bool, false, List, [], ◌∷◌, Option, none, some, any, is_empty, ◌==◌, ◌||◌, not, ltb, min,
  if◌then◌else◌, Result, ok, err, ◌>>=◌, ◌>>◌, guard, length, map_err, is_ok,
}
use minicore_runtime.Text.{Text, byte_len, valid_text, new_with_max_bytes, bounded_text}
use minicore_runtime.Ids.{Bytes, bytes_eq}
use minicore_runtime.Json.{JsonValue, Serialized, validate_json_size}
use minicore_runtime.Limits.{LoopLimits, max_json_bytes}
use minicore_runtime.Interaction.{ToolValueError}
use minicore_runtime.Message.{is_object, ModelValueError}

-- ReasoningPreference of src/model/request.rs
pub data ReasoningPreference : Type 0 where
  auto disabled low medium high xhigh max_reasoning ultra : ReasoningPreference

abbrev preference_rank : ReasoningPreference → ℕ
preference_rank auto = 0
preference_rank disabled = 1
preference_rank low = 2
preference_rank medium = 3
preference_rank high = 4
preference_rank xhigh = 5
preference_rank max_reasoning = 6
preference_rank ultra = 7

-- ModelDescriptor of src/model/port.rs
pub record ModelDescriptor : Type 0 where
  pub model_ref : Bytes
  pub context_window : ℕ
  pub supported_reasoning : List ReasoningPreference
  pub supports_tools : Bool

unfoldable pub validate_descriptor : ModelDescriptor → Result (Unit {0}) ModelValueError
validate_descriptor descriptor =
    if descriptor.context_window == 0 || is_empty descriptor.supported_reasoning
    then err ModelValueError.invalid_descriptor
    else ok tt

unfoldable pub supports_reasoning : ModelDescriptor → ReasoningPreference → Bool
supports_reasoning descriptor preference =
    any (λ p. preference_rank p == preference_rank preference) descriptor.supported_reasoning

abbrev pub max_tool_description_bytes : ℕ
max_tool_description_bytes = 4096

-- ToolSpec of src/tools/tool.rs
pub record ToolSpec : Type 0 where
  pub name : Bytes
  pub description : Text
  pub input_schema : JsonValue

-- `to_writer` is the serializer of the JSON library.
module _ (to_writer : JsonValue → Serialized) where
  -- ToolSpec::validate
  unfoldable pub validate_spec : ToolSpec → Result (Unit {0}) ToolValueError
  validate_spec spec =
      if not (valid_text spec.description max_tool_description_bytes false)
      then err ToolValueError.invalid_text
      else if not (is_object spec.input_schema)
          || not (is_ok (validate_json_size to_writer spec.input_schema max_json_bytes))
      then err ToolValueError.invalid_schema
      else ok tt

  -- ToolSpec::new
  unfoldable pub new_spec : Bytes → Text → JsonValue → Result ToolSpec ToolValueError
  unfolding validate_spec
  new_spec name description input_schema = do
    description' ←
        map_err (λ e. ToolValueError.invalid_text)
          (new_with_max_bytes description max_tool_description_bytes)
    let spec : ToolSpec = record {
      name = name;
      description = description';
      input_schema = input_schema;
    }
    _ ← validate_spec spec
    ok spec

-- ToolSpec::validate_for_bindings; `json_bytes` counts what the JSON library writes.
unfoldable pub validate_for_bindings :
    (JsonValue → ℕ) → ToolSpec → ℕ → ℕ → Result (Unit {0}) ToolValueError
validate_for_bindings json_bytes spec max_name_bytes max_schema_bytes =
    if ltb max_name_bytes (length spec.name)
      || ltb (min max_schema_bytes max_tool_description_bytes) (byte_len spec.description)
    then err ToolValueError.invalid_text
    else if ltb max_schema_bytes (json_bytes spec.input_schema)
    then err ToolValueError.invalid_schema
    else ok tt

pub data UserInputError : Type 0 where
  invalid_text : UserInputError

-- UserInput::text; a `UserInput` is its text.
unfoldable pub user_text : Text → Result Text UserInputError
user_text value = map_err (λ e. UserInputError.invalid_text) (bounded_text value) >>= λ text.
    if is_empty text then err UserInputError.invalid_text else ok text

pub data ExecutionConfigError : Type 0 where
  model_descriptor_panicked invalid_descriptor unsupported_reasoning tools_unsupported
        invalid_tools :
      ExecutionConfigError

-- ExecutionConfig, but for its ports; `tools` are the frozen specifications of its tool set.
pub record ExecutionConfig : Type 0 where
  pub descriptor : ModelDescriptor
  pub reasoning : ReasoningPreference
  pub tools : List ToolSpec

-- ExecutionConfig::new; the access to the model's descriptor may panic.
unfoldable pub new_config :
    Option ModelDescriptor
    → ReasoningPreference
    → List ToolSpec
    → Result ExecutionConfig ExecutionConfigError
unfolding validate_descriptor supports_reasoning
new_config none reasoning tools = err model_descriptor_panicked
new_config (some descriptor) reasoning tools = do
  _ ← map_err (λ e. ExecutionConfigError.invalid_descriptor) (validate_descriptor descriptor)
  _ ← guard (supports_reasoning descriptor reasoning) unsupported_reasoning
  _ ← guard (is_empty tools || descriptor.supports_tools) tools_unsupported
  ok (record { descriptor = descriptor; reasoning = reasoning; tools = tools })

-- ExecutionConfig::validate_against_limits
unfoldable pub validate_specs :
    (JsonValue → ℕ) → LoopLimits → List ToolSpec → Result (Unit {0}) ExecutionConfigError
unfolding validate_for_bindings
validate_specs json_bytes limits [] = ok tt
validate_specs json_bytes limits (spec ∷ specs) =
    map_err (λ e. invalid_tools)
      (validate_for_bindings json_bytes spec limits.max_tool_name_bytes
        limits.max_tool_schema_bytes)
    >> validate_specs json_bytes limits specs

unfoldable pub validate_against_limits :
    (JsonValue → ℕ) → LoopLimits → ExecutionConfig → Result (Unit {0}) ExecutionConfigError
unfolding validate_specs
validate_against_limits json_bytes limits config = validate_specs json_bytes limits config.tools

-- EnabledTools: the tools that the frozen set has.
abbrev pub has_tool : List ToolSpec → Bytes → Bool
has_tool specs name = any (λ spec. bytes_eq spec.name name) specs
