-- ===== src/ModelCall/Deltas.antt =====
-- src/model/driver/assembler.rs, push: the progress of an event is what the event adds to the text.
use minicore_runtime.Base.{
  ◌≡◌, refl, sym, ap, ◌∙◌, Bool, true, false, not, List, [], ◌∷◌, ◌++◌, append-nil, any, all,
  any-append, is_empty, length, Option, none, some, is_some, Result, ok, err, Ok, Ok-bind, if_cases,
  arith, ◌≤◌,
}
use minicore_runtime.Text.{Text, byte_len, allowed_char}
use minicore_runtime.Text.Normalize.{normalize_model_text_safe}
use minicore_runtime.Text.Stream.{normalized_delta}
use minicore_runtime.Ids.{Bytes}
use minicore_runtime.Json.{JsonValue, Serialized}
use minicore_runtime.ModelError.{ModelError}
use minicore_runtime.Message.{ModelValueError}
use minicore_runtime.Execution.{has_tool}
use minicore_runtime.Response.{
  ModelEvent, text_delta, reasoning_delta, tool_call_start, tool_call_arguments_delta,
  tool_call_end, usage_event, provider_replay_event, finish, validate_event,
}
use minicore_runtime.Assembler.{
  Assembler, ToolAssembly, ModelDriverProgress, text_progress, PartSlot, text_slot, reasoning_slot,
  tool_slot, Pushed, append_bounded, with_tools, with_slot, push_text, push_reasoning, push_start,
  with_start, start_refused, push_event, push_checked, push,
}
use minicore_runtime.Assembler.Deltas.{append_bounded_lem}

abbrev pub shown_of : Option ModelDriverProgress → Text
shown_of (some (text_progress delta)) = delta
shown_of _ = []

abbrev pub is_text_slot : PartSlot → Bool
is_text_slot text_slot = true
is_text_slot _ = false

-- There is a slot for the text as soon as there is a text.
abbrev pub HasSlot : Assembler → Type 0
HasSlot a = any is_text_slot a.slots ≡ not (is_empty a.text)

-- The text grows by what is shown of the event.
abbrev pub Adds : Assembler → Assembler × Option ModelDriverProgress → Type 0
Adds a (b, progress) =
    (b.text ≡ a.text ++ shown_of progress)
    × (all allowed_char (shown_of progress) ≡ true)
    × (HasSlot a → HasSlot b)
    × (b.observed_event ≡ a.observed_event)

normalized_delta-allowed :
    (delta : Text) (ended : Bool)
    → is_empty (normalized_delta delta ended).0 ≡ false
    → all allowed_char (normalized_delta delta ended).0 ≡ true
unfolding normalized_delta
normalized_delta-allowed [] ended h = absurd (ground arith)
normalized_delta-allowed (c ∷ delta) ended h = (normalize_model_text_safe _).0

text_slot-HasSlot :
    (slots : List PartSlot) (content piece : Text)
    → is_empty piece ≡ false
    → any is_text_slot slots ≡ not (is_empty content)
    → any is_text_slot (with_slot text_slot content slots) ≡ not (is_empty (content ++ piece))
text_slot-HasSlot slots [] [] e h = absurd (ground arith)
text_slot-HasSlot slots [] (c ∷ piece) e h =
    ground (arith, any-append is_text_slot slots (text_slot ∷ []))
text_slot-HasSlot slots (d ∷ content) piece e h = h

reasoning_slot-any :
    (slots : List PartSlot) (content : Text)
    → any is_text_slot (with_slot reasoning_slot content slots) ≡ any is_text_slot slots
reasoning_slot-any slots [] = ground (arith, any-append is_text_slot slots (reasoning_slot ∷ []))
reasoning_slot-any slots (d ∷ content) = refl

module _ (a : Assembler) where
  abbrev AddsTo : Pushed → Type 0
  AddsTo = Ok (Adds a)

  -- An event that shows nothing and leaves the text.
  kept :
      (b : Assembler)
      → b.text ≡ a.text
      → (HasSlot a → HasSlot b)
      → b.observed_event ≡ a.observed_event
      → Adds a (b, none)
  kept b t s o = (t ∙ sym (append-nil a.text), refl, s, o)

  push_text-Adds :
      (delta : Text) → AddsTo (push_text a (normalized_delta delta a.text_ended_with_cr))
  push_text-Adds delta =
      let (piece, ended) = normalized_delta delta a.text_ended_with_cr in
      let maximum = a.limits.max_model_text_bytes in
      if_cases AddsTo (is_empty piece) {x = ok (record a { text_ended_with_cr = ended }, none)}
        (λ t. kept (record a { text_ended_with_cr = ended }) refl (λ h. h) refl)
        (λ f.
          Ok-bind (λ content. (content ≡ a.text ++ piece) × (byte_len content ≤ maximum)) (Adds a)
            (append_bounded a.text piece maximum) _ (append_bounded_lem a.text piece maximum)
            (λ content h. (
              h.0,
              normalized_delta-allowed delta a.text_ended_with_cr f,
              λ w.
                  text_slot-HasSlot a.slots a.text piece f w ∙ ap (λ t. not (is_empty t)) (sym h.0),
              refl,
            )))

  push_reasoning-Adds : (d : Text × Bool) → AddsTo (push_reasoning a d)
  push_reasoning-Adds (delta, ended) =
      let maximum = a.limits.max_model_reasoning_bytes in
      if_cases AddsTo (is_empty delta) {x = ok (record a { reasoning_ended_with_cr = ended }, none)}
        (λ t. kept (record a { reasoning_ended_with_cr = ended }) refl (λ h. h) refl)
        (λ f.
          Ok-bind (λ content. (content ≡ a.reasoning ++ delta) × (byte_len content ≤ maximum))
            (Adds a) (append_bounded a.reasoning delta maximum) _
            (append_bounded_lem a.reasoning delta maximum)
            (λ content h. (
              sym (append-nil a.text),
              refl,
              λ w. reasoning_slot-any a.slots a.reasoning ∙ w,
              refl,
            )))

  push_start-Adds : (id name : Bytes) → AddsTo (push_start a id name)
  push_start-Adds id name =
      if_cases AddsTo (not (has_tool a.request_tools name)) (λ t. tt)
        (λ f.
          if_cases AddsTo (start_refused a id) {y = ok (with_start a id name, none)} (λ t. tt)
            (λ g.
              kept (with_start a id name) refl
                (λ w.
                  ground
                    (arith, w, any-append is_text_slot a.slots (tool_slot (length a.tools) ∷ [])))
                refl))

  with_tools-Adds : (r : Result (List ToolAssembly) ModelError) → AddsTo (with_tools a r)
  with_tools-Adds (ok tools) = kept (record a { tools = tools }) refl (λ w. w) refl
  with_tools-Adds (err e) = tt

  push_event-Adds :
      (parse : Text → Option JsonValue) (to_writer : JsonValue → Serialized) (event : ModelEvent)
      → AddsTo (push_event parse to_writer a event)
  unfolding push_event
  push_event-Adds parse to_writer (text_delta delta) = push_text-Adds delta
  push_event-Adds parse to_writer (reasoning_delta delta) =
      push_reasoning-Adds (normalized_delta delta a.reasoning_ended_with_cr)
  push_event-Adds parse to_writer (tool_call_start id name) = push_start-Adds id name
  push_event-Adds parse to_writer (tool_call_arguments_delta id delta) = with_tools-Adds _
  push_event-Adds parse to_writer (tool_call_end id) = with_tools-Adds _
  push_event-Adds parse to_writer (usage_event usage) =
      if_cases AddsTo (is_some a.usage) {y = ok (record a { usage = some usage }, none)} (λ t. tt)
        (λ f. kept (record a { usage = some usage }) refl (λ w. w) refl)
  push_event-Adds parse to_writer (provider_replay_event replay) =
      if_cases AddsTo (is_some a.provider_replay)
        {y = ok (record a { provider_replay = some replay }, none)} (λ t. tt)
        (λ f. kept (record a { provider_replay = some replay }) refl (λ w. w) refl)
  push_event-Adds parse to_writer (finish reason) =
      if_cases AddsTo (any (λ (tool : ToolAssembly). not (is_some tool.call)) a.tools)
        {y = ok (record a { finish_reason = some reason }, none)} (λ t. tt)
        (λ f. kept (record a { finish_reason = some reason }) refl (λ w. w) refl)

  pub push-Adds :
      (parse : Text → Option JsonValue) (to_writer : JsonValue → Serialized) (event : ModelEvent)
      → Ok (Adds a) (push parse to_writer a event)
  unfolding push
  push-Adds parse to_writer event = checked (validate_event event)
    where
      checked :
          (v : Result (Unit {0}) ModelValueError)
          → Ok (Adds a) (push_checked parse to_writer a event v)
      checked (err e) = tt
      checked (ok u) =
          if_cases AddsTo (is_some a.finish_reason) (λ t. tt)
            (λ f. push_event-Adds parse to_writer event)
