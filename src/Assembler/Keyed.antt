-- ===== src/Assembler/Keyed.antt =====
-- src/model/driver/assembler.rs: the tools of an assembler and the starts of the stream.
use minicore_runtime.Base.{
  ℕ, ◌≡◌, refl, sym, subst, ap, ◌∙◌, Bool, true, not, ◌||◌, List, [], ◌∷◌, ◌++◌, append-nil,
  append_assoc, map, map-append, All, All-append, any, is_empty, Option, none, some, is_some,
  if_cases, if◌then◌else◌, Result, ok, err, ◌>>=◌, map_err, Ok, Ok-bind, Ok-intro,
}
use minicore_runtime.Text.{Text, ValueError, normalize_model_text}
use minicore_runtime.Text.Stream.{normalized_delta}
use minicore_runtime.Ids.{Bytes, bytes_eq}
use minicore_runtime.Json.{JsonValue, Serialized, validate_json_size}
use minicore_runtime.Limits.{max_json_bytes}
use minicore_runtime.ModelError.{ModelError}
use minicore_runtime.Message.{
  ModelValueError, ToolCall, new_tool_call, is_object, invalid_tool_arguments,
}
use minicore_runtime.Execution.{has_tool}
use minicore_runtime.Response.{
  ModelEvent, text_delta, reasoning_delta, tool_call_start, tool_call_arguments_delta,
  tool_call_end, usage_event, provider_replay_event, finish, validate_event,
}
use minicore_runtime.Assembler.{
  Assembler, ToolAssembly, Pushed, append_bounded, update_tool, with_tools, with_arguments,
  with_call, parsed_call, invalid_response, push_text, push_reasoning, push_start, with_start,
  start_refused, push_event, push_checked, push, ModelDriverProgress,
}
use minicore_runtime.Assembler.Finish.{push_all}

-- The ids and names of the tool calls that an event, and a stream, starts.
abbrev pub started : ModelEvent → List (Bytes × Bytes)
started (tool_call_start id name) = (id, name) ∷ []
started _ = []

abbrev pub starts : List ModelEvent → List (Bytes × Bytes)
starts [] = []
starts (event ∷ events) = started event ++ starts events

abbrev pub call_key : ToolCall → Bytes × Bytes
call_key call = (call.tool_call_id, call.name)

abbrev pub tool_key : ToolAssembly → Bytes × Bytes
tool_key tool = (tool.tool_call_id, tool.name)

-- The call of a tool, if it is there, is of this tool.
abbrev pub Own : Bytes × Bytes → Option ToolCall → Type 0
Own key none = Unit
Own key (some call) = call_key call ≡ key

abbrev pub IsOwn : ToolAssembly → Type 0
IsOwn tool = Own (tool_key tool) tool.call

-- A tool that is updated stays the same tool.
abbrev Same : ToolAssembly → ToolAssembly → Type 0
Same tool tool' = (tool_key tool' ≡ tool_key tool) × IsOwn tool'

update_tool-Same :
    (id : Bytes) (f : ToolAssembly → Result ToolAssembly ModelError) (tools : List ToolAssembly)
    → ((tool : ToolAssembly) → IsOwn tool → Ok (Same tool) (f tool))
    → All IsOwn tools
    → Ok (λ ts. (map tool_key ts ≡ map tool_key tools) × All IsOwn ts) (update_tool id f tools)
unfolding update_tool
update_tool-Same id f [] keeps w = tt
update_tool-Same id f (tool ∷ tools) keeps w =
    let Q : List ToolAssembly → Type 0 =
      λ ts. (map tool_key ts ≡ map tool_key (tool ∷ tools)) × All IsOwn ts in
    if_cases (Ok Q) (bytes_eq tool.tool_call_id id)
      (λ t.
        Ok-bind (Same tool) Q (f tool) (λ tool'. ok (tool' ∷ tools)) (keeps tool w.0)
          (λ tool' p. (ap (λ k. k ∷ map tool_key tools) p.0, (p.1, w.1))))
      (λ n.
        Ok-bind (λ ts. (map tool_key ts ≡ map tool_key tools) × All IsOwn ts) Q
          (update_tool id f tools) (λ ts. ok (tool ∷ ts)) (update_tool-Same id f tools keeps w.1)
          (λ ts h. (ap (λ ks. tool_key tool ∷ ks) h.0, (w.0, h.1))))

with_arguments-Same :
    (delta : Text) (tool : ToolAssembly) → IsOwn tool → Ok (Same tool) (with_arguments delta tool)
with_arguments-Same delta tool w =
    if_cases (Ok (Same tool)) (is_some tool.call) {x = err invalid_response} (λ t. tt)
      (λ f.
        Ok-bind (λ s. Unit {0}) (Same tool)
          (append_bounded tool.arguments_text delta max_json_bytes) _
          (Ok-intro (λ s. Unit {0}) (append_bounded tool.arguments_text delta max_json_bytes)
            (λ s. tt))
          (λ s u. (refl, w)))

module _ (parse : Text → Option JsonValue) (to_writer : JsonValue → Serialized) where
  new_tool_call-key :
      (id name : Bytes) (arguments : JsonValue) (index maximum : ℕ)
      → Ok
          (λ (call : ToolCall). call_key call ≡ (id, name))
          (new_tool_call to_writer id name arguments index maximum)
  unfolding new_tool_call
  new_tool_call-key id name arguments index maximum =
      sized (validate_json_size to_writer arguments maximum)
    where
      sized :
          (r : Result (Unit {0}) ValueError)
          → Ok
              (λ (call : ToolCall). call_key call ≡ (id, name))
              (elim r [
                | err e ↦ err invalid_tool_arguments
                | ok u ↦
                    if is_object arguments
                    then ok (record {
                      tool_call_id = id;
                      name = name;
                      arguments = arguments;
                      call_index = index;
                    })
                    else err invalid_tool_arguments
              ])
      sized (err e) = tt
      sized (ok u) =
          if_cases (Ok (λ (call : ToolCall). call_key call ≡ (id, name))) (is_object arguments)
            (λ t. refl) (λ f. tt)

  parsed_call-Same :
      (maximum : ℕ) (tool : ToolAssembly) (o : Option JsonValue)
      → Ok (Same tool) (parsed_call parse to_writer maximum tool o)
  parsed_call-Same maximum tool none = tt
  parsed_call-Same maximum tool (some arguments) =
      made _ (new_tool_call-key tool.tool_call_id tool.name arguments tool.call_index maximum)
    where
      made :
          (r : Result ToolCall ModelValueError)
          → Ok (λ (call : ToolCall). call_key call ≡ tool_key tool) r
          → Ok
              (Same tool)
              (map_err (λ e. invalid_response) r >>= λ call. ok (record tool { call = some call }))
      made (err e) h = tt
      made (ok call) h = (refl, h)

  with_call-Same :
      (maximum : ℕ) (tool : ToolAssembly)
      → IsOwn tool
      → Ok (Same tool) (with_call parse to_writer maximum tool)
  with_call-Same maximum tool w =
      if_cases (Ok (Same tool)) (is_some tool.call || is_empty tool.arguments_text)
        {x = err invalid_response} (λ t. tt)
        (λ f. parsed_call-Same maximum tool (parse tool.arguments_text))

  module _ (a : Assembler) (w : All IsOwn a.tools) where
    -- The tools grow by those that are started.
    abbrev Grows : List (Bytes × Bytes) → Pushed → Type 0
    Grows keys = Ok (λ (r : Assembler × Option ModelDriverProgress).
        (map tool_key r.0.tools ≡ map tool_key a.tools ++ keys) × All IsOwn r.0.tools)

    kept : (map tool_key a.tools ≡ map tool_key a.tools ++ []) × All IsOwn a.tools
    kept = (sym (append-nil (map tool_key a.tools)), w)

    append-Grows :
        (target delta : Text) (maximum : ℕ) (f : Text → Pushed)
        → ((content : Text) → Grows [] (f content))
        → Grows [] (append_bounded target delta maximum >>= f)
    append-Grows target delta maximum f grows =
        Ok-bind (λ content. Unit {0}) _ (append_bounded target delta maximum) f
          (Ok-intro (λ content. Unit {0}) (append_bounded target delta maximum) (λ content. tt))
          (λ content u. grows content)

    push_text-Grows : (d : Text × Bool) → Grows [] (push_text a d)
    push_text-Grows (delta, ended) =
        if_cases (Grows []) (is_empty delta)
          {x = ok (record a { text_ended_with_cr = ended }, none)} (λ t. kept)
          (λ f. append-Grows a.text delta a.limits.max_model_text_bytes _ (λ c. kept))

    push_reasoning-Grows : (d : Text × Bool) → Grows [] (push_reasoning a d)
    push_reasoning-Grows (delta, ended) =
        if_cases (Grows []) (is_empty delta)
          {x = ok (record a { reasoning_ended_with_cr = ended }, none)} (λ t. kept)
          (λ f. append-Grows a.reasoning delta a.limits.max_model_reasoning_bytes _ (λ c. kept))

    push_start-Grows : (id name : Bytes) → Grows ((id, name) ∷ []) (push_start a id name)
    push_start-Grows id name =
        let P = Grows ((id, name) ∷ []) in
        if_cases P (not (has_tool a.request_tools name)) (λ t. tt)
          (λ f.
            if_cases P (start_refused a id) {y = ok (with_start a id name, none)} (λ t. tt)
              (λ g. (map-append tool_key a.tools _, All-append IsOwn a.tools _ w (tt, tt))))

    tools-Grows :
        (id : Bytes) (f : ToolAssembly → Result ToolAssembly ModelError)
        → ((tool : ToolAssembly) → IsOwn tool → Ok (Same tool) (f tool))
        → Grows [] (with_tools a (update_tool id f a.tools))
    tools-Grows id f keeps =
        Ok-bind (λ ts. (map tool_key ts ≡ map tool_key a.tools) × All IsOwn ts) _
          (update_tool id f a.tools) _ (update_tool-Same id f a.tools keeps w)
          (λ ts h. (h.0 ∙ kept.0, h.1))

    push_event-Grows :
        (event : ModelEvent) → Grows (started event) (push_event parse to_writer a event)
    unfolding push_event
    push_event-Grows (text_delta delta) =
        push_text-Grows (normalized_delta delta a.text_ended_with_cr)
    push_event-Grows (reasoning_delta delta) =
        push_reasoning-Grows (normalized_delta delta a.reasoning_ended_with_cr)
    push_event-Grows (tool_call_start id name) = push_start-Grows id name
    push_event-Grows (tool_call_arguments_delta id delta) =
        tools-Grows id _ (with_arguments-Same (normalize_model_text delta))
    push_event-Grows (tool_call_end id) =
        tools-Grows id _ (with_call-Same a.limits.max_tool_arguments_bytes)
    push_event-Grows (usage_event usage) =
        if_cases (Grows []) (is_some a.usage) {y = ok (record a { usage = some usage }, none)}
          (λ t. tt) (λ f. kept)
    push_event-Grows (provider_replay_event replay) =
        if_cases (Grows []) (is_some a.provider_replay)
          {y = ok (record a { provider_replay = some replay }, none)} (λ t. tt) (λ f. kept)
    push_event-Grows (finish reason) =
        if_cases (Grows []) (any (λ (tool : ToolAssembly). not (is_some tool.call)) a.tools)
          {y = ok (record a { finish_reason = some reason }, none)} (λ t. tt) (λ f. kept)

    push_checked-Grows :
        (event : ModelEvent) (v : Result (Unit {0}) ModelValueError)
        → Grows (started event) (push_checked parse to_writer a event v)
    push_checked-Grows event (err e) = tt
    push_checked-Grows event (ok u) =
        if_cases (Grows (started event)) (is_some a.finish_reason) (λ t. tt)
          (λ f. push_event-Grows event)

  pub push_all-Grows :
      (a : Assembler) (events : List ModelEvent)
      → All IsOwn a.tools
      → Ok
          (λ b. (map tool_key b.tools ≡ map tool_key a.tools ++ starts events) × All IsOwn b.tools)
          (push_all parse to_writer a events)
  unfolding push_all push
  push_all-Grows a [] w = kept a w
  push_all-Grows a (event ∷ events) w =
      let a' = record a { observed_event = true } in
      Ok-bind _ _ (push parse to_writer a' event) _
        (push_checked-Grows a' w event (validate_event event))
        (λ r h.
          subst
            (λ ks.
              Ok (λ b. (map tool_key b.tools ≡ ks) × All IsOwn b.tools)
                (push_all parse to_writer r.0 events))
            (ap (λ l. l ++ starts events) h.0
              ∙ append_assoc (map tool_key a.tools) (started event) (starts events))
            (push_all-Grows r.0 events h.1))
