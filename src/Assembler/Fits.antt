-- ===== src/Assembler/Fits.antt =====
-- src/model/driver/assembler.rs, tool_mut and what push does with the tool that it finds: each started
-- tool is an offered one, and its call has its name.
use minicore_runtime.Base.{
  ℕ, ◌≡◌, refl, true, ◌||◌, List, [], ◌∷◌, length, All, is_empty, Option, none, some, is_some,
  if_cases, if◌then◌else◌, Result, ok, err, ◌>>=◌, map_err, Ok, Ok-bind, Ok-intro, arith,
}
use minicore_runtime.Text.{Text, ValueError}
use minicore_runtime.Ids.{Bytes, bytes_eq}
use minicore_runtime.Json.{JsonValue, Serialized, validate_json_size}
use minicore_runtime.Limits.{max_json_bytes}
use minicore_runtime.ModelError.{ModelError}
use minicore_runtime.Message.{
  ModelValueError, ToolCall, new_tool_call, is_object, invalid_tool_arguments,
}
use minicore_runtime.Execution.{ToolSpec, has_tool}
use minicore_runtime.Assembler.{
  ToolAssembly, append_bounded, update_tool, with_arguments, with_call, parsed_call,
  invalid_response,
}

-- The call of a tool, if it is there, has the tool's name.
abbrev pub Named : Bytes → Option ToolCall → Type 0
Named name none = Unit
Named name (some call) = call.name ≡ name

abbrev pub Fits : List ToolSpec → ToolAssembly → Type 0
Fits specs tool = (has_tool specs tool.name ≡ true) × Named tool.name tool.call

pub update_tool-All :
    (P : ToolAssembly → Type 0) (id : Bytes) (f : ToolAssembly → Result ToolAssembly ModelError)
    (tools : List ToolAssembly)
    → ((tool : ToolAssembly) → P tool → Ok P (f tool))
    → All P tools
    → Ok (λ tools'. (length tools' ≡ length tools) × All P tools') (update_tool id f tools)
unfolding update_tool
update_tool-All P id f [] keeps w = tt
update_tool-All P id f (tool ∷ tools) keeps w =
    let Q : List ToolAssembly → Type 0 = λ ts. (length ts ≡ length (tool ∷ tools)) × All P ts in
    if_cases (Ok Q) (bytes_eq tool.tool_call_id id)
      (λ t.
        Ok-bind P Q (f tool) (λ tool'. ok (tool' ∷ tools)) (keeps tool w.0)
          (λ tool' p. (refl, (p, w.1))))
      (λ n.
        Ok-bind (λ ts. (length ts ≡ length tools) × All P ts) Q (update_tool id f tools)
          (λ ts. ok (tool ∷ ts)) (update_tool-All P id f tools keeps w.1)
          (λ ts h. (omega (arith, h.0), (w.0, h.1))))

module _ (specs : List ToolSpec) where
  pub with_arguments-Fits :
      (delta : Text) (tool : ToolAssembly)
      → Fits specs tool
      → Ok (Fits specs) (with_arguments delta tool)
  with_arguments-Fits delta tool w =
      if_cases (Ok (Fits specs)) (is_some tool.call) {x = err invalid_response} (λ t. tt)
        (λ f.
          Ok-bind (λ s. Unit {0}) (Fits specs)
            (append_bounded tool.arguments_text delta max_json_bytes) _
            (Ok-intro (λ s. Unit {0}) (append_bounded tool.arguments_text delta max_json_bytes)
              (λ s. tt))
            (λ s u. w))

  module _ (parse : Text → Option JsonValue) (to_writer : JsonValue → Serialized) where
    new_tool_call-named :
        (id name : Bytes) (arguments : JsonValue) (index maximum : ℕ)
        → Ok
            (λ (call : ToolCall). call.name ≡ name)
            (new_tool_call to_writer id name arguments index maximum)
    unfolding new_tool_call
    new_tool_call-named id name arguments index maximum =
        sized (validate_json_size to_writer arguments maximum)
      where
        sized :
            (r : Result (Unit {0}) ValueError)
            → Ok
                (λ (call : ToolCall). call.name ≡ name)
                (elim r [
                  | err e ↦ err invalid_tool_arguments
                  | ok u ↦
                      if is_object arguments
                      then ok (record {
                        tool_call_id = id;
                        name = name;
                        arguments = arguments;
                        call_index = index;
                      })
                      else err invalid_tool_arguments
                ])
        sized (err e) = tt
        sized (ok u) =
            if_cases (Ok (λ (call : ToolCall). call.name ≡ name)) (is_object arguments) (λ t. refl)
              (λ f. tt)

    parsed_call-Fits :
        (maximum : ℕ) (tool : ToolAssembly) (o : Option JsonValue)
        → Fits specs tool
        → Ok (Fits specs) (parsed_call parse to_writer maximum tool o)
    parsed_call-Fits maximum tool none w = tt
    parsed_call-Fits maximum tool (some arguments) w =
        made _ (new_tool_call-named tool.tool_call_id tool.name arguments tool.call_index maximum)
      where
        made :
            (r : Result ToolCall ModelValueError)
            → Ok (λ (call : ToolCall). call.name ≡ tool.name) r
            → Ok (Fits specs) (
                map_err (λ e. invalid_response) r >>= λ call. ok (record tool { call = some call }))
        made (err e) h = tt
        made (ok call) h = (w.0, h)

    pub with_call-Fits :
        (maximum : ℕ) (tool : ToolAssembly)
        → Fits specs tool
        → Ok (Fits specs) (with_call parse to_writer maximum tool)
    with_call-Fits maximum tool w =
        if_cases (Ok (Fits specs)) (is_some tool.call || is_empty tool.arguments_text)
          {x = err invalid_response} (λ t. tt)
          (λ f. parsed_call-Fits maximum tool (parse tool.arguments_text) w)
