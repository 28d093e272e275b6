-- ===== src/Assembler/Ordered.antt =====
-- src/model/driver/assembler.rs, push: the slots name the tools in the order of their starts, and a
-- finished response has all its calls.
use minicore_runtime.Base.{
  ℕ, suc, ◌+◌, ◌≡◌, refl, sym, subst, Bool, true, false, not, List, [], ◌∷◌, ◌++◌, length,
  length-append, any, is_empty, Option, none, some, is_some, if_cases, Result, ok, err, ◌>>=◌, Ok,
  Ok-bind, Ok-intro, arith,
}
use minicore_runtime.Text.{Text}
use minicore_runtime.Text.Stream.{normalized_delta}
use minicore_runtime.Ids.{Bytes, bytes_eq}
use minicore_runtime.Json.{JsonValue, Serialized}
use minicore_runtime.ModelError.{ModelError}
use minicore_runtime.Execution.{has_tool}
use minicore_runtime.Message.{ModelValueError}
use minicore_runtime.Response.{
  ModelEvent, ModelFinishReason, text_delta, reasoning_delta, tool_call_start,
  tool_call_arguments_delta, tool_call_end, usage_event, provider_replay_event, finish,
  validate_event,
}
use minicore_runtime.Assembler.{
  Assembler, ToolAssembly, PartSlot, text_slot, reasoning_slot, tool_slot, Pushed, append_bounded,
  update_tool, with_tools, push_text, push_reasoning, push_start, with_start, start_refused,
  push_event, push_checked, push, ModelDriverProgress,
}
use minicore_runtime.Assembler.Finish.{push_all}

-- The tools that the slots name are those from the first index to the second, each once.
abbrev pub IsOrdered : ℕ → ℕ → List PartSlot → Type 0
IsOrdered next total [] = next ≡ total
IsOrdered next total (text_slot ∷ slots) = IsOrdered next total slots
IsOrdered next total (reasoning_slot ∷ slots) = IsOrdered next total slots
IsOrdered next total (tool_slot index ∷ slots) = (index ≡ next) × IsOrdered (suc next) total slots

abbrev pub is_open : ToolAssembly → Bool
is_open tool = not (is_some tool.call)

abbrev pub Closed : Option ModelFinishReason → List ToolAssembly → Type 0
Closed none tools = Unit
Closed (some reason) tools = any is_open tools ≡ false

abbrev pub IsAssembly : Assembler → Type 0
IsAssembly a = IsOrdered 0 (length a.tools) a.slots × Closed a.finish_reason a.tools

abbrev pub KeepsAssembly : Pushed → Type 0
KeepsAssembly = Ok (λ (w : Assembler × Option ModelDriverProgress). IsAssembly w.0)

IsOrdered-tool :
    (next total : ℕ) (slots : List PartSlot)
    → IsOrdered next total slots
    → IsOrdered next (total + 1) (slots ++ tool_slot total ∷ [])
IsOrdered-tool next total [] w = (sym w, omega (arith, w))
IsOrdered-tool next total (text_slot ∷ slots) w = IsOrdered-tool next total slots w
IsOrdered-tool next total (reasoning_slot ∷ slots) w = IsOrdered-tool next total slots w
IsOrdered-tool next total (tool_slot index ∷ slots) w =
    (w.0, IsOrdered-tool (suc next) total slots w.1)

IsOrdered-text :
    (next total : ℕ) (slots : List PartSlot)
    → IsOrdered next total slots
    → IsOrdered next total (slots ++ text_slot ∷ [])
IsOrdered-text next total [] w = w
IsOrdered-text next total (text_slot ∷ slots) w = IsOrdered-text next total slots w
IsOrdered-text next total (reasoning_slot ∷ slots) w = IsOrdered-text next total slots w
IsOrdered-text next total (tool_slot index ∷ slots) w =
    (w.0, IsOrdered-text (suc next) total slots w.1)

IsOrdered-reasoning :
    (next total : ℕ) (slots : List PartSlot)
    → IsOrdered next total slots
    → IsOrdered next total (slots ++ reasoning_slot ∷ [])
IsOrdered-reasoning next total [] w = w
IsOrdered-reasoning next total (text_slot ∷ slots) w = IsOrdered-reasoning next total slots w
IsOrdered-reasoning next total (reasoning_slot ∷ slots) w = IsOrdered-reasoning next total slots w
IsOrdered-reasoning next total (tool_slot index ∷ slots) w =
    (w.0, IsOrdered-reasoning (suc next) total slots w.1)

update_tool-length :
    (id : Bytes) (f : ToolAssembly → Result ToolAssembly ModelError) (tools : List ToolAssembly)
    → Ok (λ tools'. length tools' ≡ length tools) (update_tool id f tools)
unfolding update_tool
update_tool-length id f [] = tt
update_tool-length id f (tool ∷ tools) =
    if_cases (Ok (λ tools'. length tools' ≡ suc (length tools))) (bytes_eq tool.tool_call_id id)
      (λ t.
        Ok-bind (λ a. Unit {0}) (λ tools'. length tools' ≡ suc (length tools)) (f tool)
          (λ tool'. ok (tool' ∷ tools)) (Ok-intro (λ a. Unit {0}) (f tool) (λ a. tt))
          (λ tool' u. refl))
      (λ n.
        Ok-bind (λ tools'. length tools' ≡ length tools)
          (λ tools'. length tools' ≡ suc (length tools)) (update_tool id f tools)
          (λ tools'. ok (tool ∷ tools')) (update_tool-length id f tools)
          (λ tools' h. omega (arith, h)))

module _ (a : Assembler) (closed : (tools : List ToolAssembly) → Closed a.finish_reason tools)
    (w : IsOrdered 0 (length a.tools) a.slots) where
  append-Keeps :
      (target delta : Text) (maximum : ℕ) (f : Text → Pushed)
      → ((content : Text) → KeepsAssembly (f content))
      → KeepsAssembly (append_bounded target delta maximum >>= f)
  append-Keeps target delta maximum f keeps =
      Ok-bind (λ content. Unit {0}) (λ r. IsAssembly r.0) (append_bounded target delta maximum) f
        (Ok-intro (λ content. Unit {0}) (append_bounded target delta maximum) (λ content. tt))
        (λ content u. keeps content)

  push_text-Keeps : (d : Text × Bool) → KeepsAssembly (push_text a d)
  push_text-Keeps (delta, ended) =
      if_cases KeepsAssembly (is_empty delta) (λ t. (w, closed a.tools))
        (λ f. append-Keeps a.text delta a.limits.max_model_text_bytes _ (λ content. (
          if_cases (IsOrdered 0 (length a.tools)) (is_empty a.text)
              (λ t. IsOrdered-text 0 (length a.tools) a.slots w) (λ n. w),
          closed a.tools,
        )))

  push_reasoning-Keeps : (d : Text × Bool) → KeepsAssembly (push_reasoning a d)
  push_reasoning-Keeps (delta, ended) =
      if_cases KeepsAssembly (is_empty delta) (λ t. (w, closed a.tools))
        (λ f. append-Keeps a.reasoning delta a.limits.max_model_reasoning_bytes _ (λ content. (
          if_cases (IsOrdered 0 (length a.tools)) (is_empty a.reasoning)
              (λ t. IsOrdered-reasoning 0 (length a.tools) a.slots w) (λ n. w),
          closed a.tools,
        )))

  push_start-Keeps : (id name : Bytes) → KeepsAssembly (push_start a id name)
  push_start-Keeps id name =
      if_cases KeepsAssembly (not (has_tool a.request_tools name)) (λ t. tt)
        (λ f.
          if_cases KeepsAssembly (start_refused a id) {y = ok (with_start a id name, none)}
            (λ t. tt)
            (λ g. (
              subst (λ n. IsOrdered 0 n (a.slots ++ tool_slot (length a.tools) ∷ []))
                  (sym (length-append a.tools _)) (IsOrdered-tool 0 (length a.tools) a.slots w),
              closed _,
            )))

  tools-Keeps :
      (id : Bytes) (f : ToolAssembly → Result ToolAssembly ModelError)
      → KeepsAssembly (with_tools a (update_tool id f a.tools))
  tools-Keeps id f =
      Ok-bind (λ tools'. length tools' ≡ length a.tools) (λ r. IsAssembly r.0)
        (update_tool id f a.tools) _ (update_tool-length id f a.tools)
        (λ tools' h. (subst (λ n. IsOrdered 0 n a.slots) (sym h) w, closed tools'))

  module _ (parse : Text → Option JsonValue) (to_writer : JsonValue → Serialized) where
    push_event-Keeps : (event : ModelEvent) → KeepsAssembly (push_event parse to_writer a event)
    unfolding push_event
    push_event-Keeps (text_delta delta) =
        push_text-Keeps (normalized_delta delta a.text_ended_with_cr)
    push_event-Keeps (reasoning_delta delta) =
        push_reasoning-Keeps (normalized_delta delta a.reasoning_ended_with_cr)
    push_event-Keeps (tool_call_start id name) = push_start-Keeps id name
    push_event-Keeps (tool_call_arguments_delta id delta) = tools-Keeps id _
    push_event-Keeps (tool_call_end id) = tools-Keeps id _
    push_event-Keeps (usage_event usage) =
        if_cases KeepsAssembly (is_some a.usage) {y = ok (record a { usage = some usage }, none)}
          (λ t. tt) (λ f. (w, closed a.tools))
    push_event-Keeps (provider_replay_event replay) =
        if_cases KeepsAssembly (is_some a.provider_replay)
          {y = ok (record a { provider_replay = some replay }, none)} (λ t. tt)
          (λ f. (w, closed a.tools))
    push_event-Keeps (finish reason) =
        if_cases KeepsAssembly (any is_open a.tools)
          {y = ok (record a { finish_reason = some reason }, none)} (λ t. tt) (λ f. (w, f))

Closed-none :
    (reason : Option ModelFinishReason) (tools : List ToolAssembly)
    → is_some reason ≡ false
    → Closed reason tools
Closed-none none tools h = tt
Closed-none (some reason) tools h = ground arith

module _ (parse : Text → Option JsonValue) (to_writer : JsonValue → Serialized) where
  pub push-Keeps :
      (a : Assembler) (event : ModelEvent)
      → IsAssembly a
      → KeepsAssembly (push parse to_writer a event)
  unfolding push
  push-Keeps a event w = checked (validate_event event)
    where
      checked :
          (v : Result (Unit {0}) ModelValueError)
          → KeepsAssembly (push_checked parse to_writer a event v)
      checked (err e) = tt
      checked (ok u) =
          if_cases KeepsAssembly (is_some a.finish_reason) (λ t. tt)
            (λ f.
              push_event-Keeps a (λ tools. Closed-none a.finish_reason tools f) w.0 parse to_writer
                event)

  -- What the events of a stream have assembled is in order, and closed once it has a finish.
  pub push_all-IsAssembly :
      (a : Assembler) (events : List ModelEvent)
      → IsAssembly a
      → Ok IsAssembly (push_all parse to_writer a events)
  unfolding push_all
  push_all-IsAssembly a [] w = w
  push_all-IsAssembly a (event ∷ events) w =
      Ok-bind (λ r. IsAssembly r.0) IsAssembly
        (push parse to_writer (record a { observed_event = true }) event) _
        (push-Keeps (record a { observed_event = true }) event w)
        (λ r h. push_all-IsAssembly r.0 events h)
