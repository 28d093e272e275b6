-- ===== src/Assembler/Offered.antt =====
-- src/model/driver/assembler.rs: the calls of a response are of tools that the request offered, and no
-- more than the limit.
use minicore_runtime.Base.{
  ℕ, ◌≤◌, ◌≡◌, refl, sym, subst, ap, ◌∙◌, Bool, true, not, List, [], ◌∷◌, map, length,
  length-append, length-map, All, All-append, any, is_empty, Option, none, some, is_some, if_cases,
  Result, ok, err, ◌>>=◌, Ok, Ok-bind, Ok-intro, arith,
}
use minicore_runtime.Text.{Text, normalize_model_text}
use minicore_runtime.Text.Stream.{normalized_delta}
use minicore_runtime.Ids.{Bytes}
use minicore_runtime.Json.{JsonValue, Serialized}
use minicore_runtime.Limits.{LoopLimits}
use minicore_runtime.ModelError.{ModelError}
use minicore_runtime.Message.{ModelValueError, ToolCall}
use minicore_runtime.Execution.{ToolSpec, has_tool}
use minicore_runtime.Response.{
  ModelEvent, ModelResponse, text_delta, reasoning_delta, tool_call_start,
  tool_call_arguments_delta, tool_call_end, usage_event, provider_replay_event, finish,
  validate_event,
}
use minicore_runtime.Runner.Turn.{calls_of}
use minicore_runtime.Assembler.{
  Assembler, ToolAssembly, Pushed, new_assembler, append_bounded, update_tool, with_tools,
  push_text, push_reasoning, push_start, with_start, start_refused, push_event, push_checked, push,
  ModelDriverProgress,
}
use minicore_runtime.Assembler.Finish.{push_all, finish_response}
use minicore_runtime.Assembler.Calls.{Answers, finish_response-Answers}
use minicore_runtime.Assembler.Fits.{
  Named, Fits, update_tool-All, with_arguments-Fits, with_call-Fits,
}

abbrev pub AreOffered : List ToolSpec → LoopLimits → Assembler → Type 0
AreOffered specs limits a =
    (a.request_tools ≡ specs)
    × (a.limits ≡ limits)
    × (length a.tools ≤ a.limits.max_tool_calls_per_response)
    × All (Fits a.request_tools) a.tools

module _ (specs : List ToolSpec) (limits : LoopLimits) (a : Assembler)
    (w : AreOffered specs limits a) where
  abbrev Offers : Pushed → Type 0
  Offers = Ok (λ (r : Assembler × Option ModelDriverProgress). AreOffered specs limits r.0)

  append-Offers :
      (target delta : Text) (maximum : ℕ) (f : Text → Pushed)
      → ((content : Text) → Offers (f content))
      → Offers (append_bounded target delta maximum >>= f)
  append-Offers target delta maximum f offers =
      Ok-bind (λ content. Unit {0}) (λ r. AreOffered specs limits r.0)
        (append_bounded target delta maximum) f
        (Ok-intro (λ content. Unit {0}) (append_bounded target delta maximum) (λ content. tt))
        (λ content u. offers content)

  push_text-Offers : (d : Text × Bool) → Offers (push_text a d)
  push_text-Offers (delta, ended) =
      if_cases Offers (is_empty delta) {x = ok (record a { text_ended_with_cr = ended }, none)}
        (λ t. w) (λ f. append-Offers a.text delta a.limits.max_model_text_bytes _ (λ content. w))

  push_reasoning-Offers : (d : Text × Bool) → Offers (push_reasoning a d)
  push_reasoning-Offers (delta, ended) =
      if_cases Offers (is_empty delta) {x = ok (record a { reasoning_ended_with_cr = ended }, none)}
        (λ t. w)
        (λ f. append-Offers a.reasoning delta a.limits.max_model_reasoning_bytes _ (λ content. w))

  push_start-Offers : (id name : Bytes) → Offers (push_start a id name)
  push_start-Offers id name =
      if_cases Offers (not (has_tool a.request_tools name)) (λ t. tt)
        (λ f.
          if_cases Offers (start_refused a id) {y = ok (with_start a id name, none)} (λ t. tt)
            (λ g. (
              w.0,
              w.1,
              subst (λ n. n ≤ a.limits.max_tool_calls_per_response) (sym (length-append a.tools _))
                  (ground (arith, g)),
              All-append (Fits a.request_tools) a.tools _ w.3 ((ground (arith, f), tt), tt),
            )))

  tools-Offers :
      (id : Bytes) (f : ToolAssembly → Result ToolAssembly ModelError)
      → ((tool : ToolAssembly) → Fits a.request_tools tool → Ok (Fits a.request_tools) (f tool))
      → Offers (with_tools a (update_tool id f a.tools))
  tools-Offers id f keeps =
      Ok-bind (λ ts. (length ts ≡ length a.tools) × All (Fits a.request_tools) ts)
        (λ r. AreOffered specs limits r.0) (update_tool id f a.tools) _
        (update_tool-All (Fits a.request_tools) id f a.tools keeps w.3)
        (λ ts h. (w.0, w.1, omega (arith, h.0, w.2), h.1))

  module _ (parse : Text → Option JsonValue) (to_writer : JsonValue → Serialized) where
    push_event-Offers : (event : ModelEvent) → Offers (push_event parse to_writer a event)
    unfolding push_event
    push_event-Offers (text_delta delta) =
        push_text-Offers (normalized_delta delta a.text_ended_with_cr)
    push_event-Offers (reasoning_delta delta) =
        push_reasoning-Offers (normalized_delta delta a.reasoning_ended_with_cr)
    push_event-Offers (tool_call_start id name) = push_start-Offers id name
    push_event-Offers (tool_call_arguments_delta id delta) =
        tools-Offers id _ (with_arguments-Fits a.request_tools (normalize_model_text delta))
    push_event-Offers (tool_call_end id) =
        tools-Offers id _
          (with_call-Fits a.request_tools parse to_writer a.limits.max_tool_arguments_bytes)
    push_event-Offers (usage_event usage) =
        if_cases Offers (is_some a.usage) {y = ok (record a { usage = some usage }, none)} (λ t. tt)
          (λ f. w)
    push_event-Offers (provider_replay_event replay) =
        if_cases Offers (is_some a.provider_replay)
          {y = ok (record a { provider_replay = some replay }, none)} (λ t. tt) (λ f. w)
    push_event-Offers (finish reason) =
        if_cases Offers (any (λ (tool : ToolAssembly). not (is_some tool.call)) a.tools)
          {y = ok (record a { finish_reason = some reason }, none)} (λ t. tt) (λ f. w)

    pub push_checked-Offers :
        (event : ModelEvent) (v : Result (Unit {0}) ModelValueError)
        → Offers (push_checked parse to_writer a event v)
    push_checked-Offers event (err e) = tt
    push_checked-Offers event (ok u) =
        if_cases Offers (is_some a.finish_reason) (λ t. tt) (λ f. push_event-Offers event)

push_all-AreOffered :
    (parse : Text → Option JsonValue) (to_writer : JsonValue → Serialized) (specs : List ToolSpec)
    (limits : LoopLimits) (a : Assembler) (events : List ModelEvent)
    → AreOffered specs limits a
    → Ok (AreOffered specs limits) (push_all parse to_writer a events)
unfolding push_all push
push_all-AreOffered parse to_writer specs limits a [] w = w
push_all-AreOffered parse to_writer specs limits a (event ∷ events) w =
    let a' = record a { observed_event = true } in
    Ok-bind (λ (r : Assembler × Option ModelDriverProgress). AreOffered specs limits r.0)
      (AreOffered specs limits) (push parse to_writer a' event) _
      (push_checked-Offers specs limits a' w parse to_writer event (validate_event event))
      (λ r h. push_all-AreOffered parse to_writer specs limits r.0 events h)

abbrev OfferedCall : List ToolSpec → Option ToolCall → Type 0
OfferedCall specs none = Unit
OfferedCall specs (some call) = has_tool specs call.name ≡ true

offered_name :
    (specs : List ToolSpec) (name : Bytes) (call : Option ToolCall)
    → has_tool specs name ≡ true
    → Named name call
    → OfferedCall specs call
offered_name specs name none h n = tt
offered_name specs name (some call) h n = subst (λ x. has_tool specs x ≡ true) (sym n) h

offered_calls :
    (specs : List ToolSpec) (tools : List ToolAssembly)
    → All (Fits specs) tools
    → All (OfferedCall specs) (map (λ (t : ToolAssembly). t.call) tools)
offered_calls specs [] w = tt
offered_calls specs (tool ∷ tools) w =
    (offered_name specs tool.name tool.call w.0.0 w.0.1, offered_calls specs tools w.1)

present_calls :
    (specs : List ToolSpec) (calls : List ToolCall)
    → All (OfferedCall specs) (map some calls)
    → All (λ call. has_tool specs call.name ≡ true) calls
present_calls specs [] w = tt
present_calls specs (call ∷ calls) w = (w.0, present_calls specs calls w.1)

-- The calls are of offered tools, and no more than the limit.
abbrev pub IsOffered : List ToolSpec → LoopLimits → ModelResponse → Type 0
IsOffered specs limits response =
    All (λ call. has_tool specs call.name ≡ true) (calls_of response.parts)
    × (length (calls_of response.parts) ≤ limits.max_tool_calls_per_response)

pub calls_within :
    (specs : List ToolSpec) (limits : LoopLimits) (a : Assembler) (response : ModelResponse)
    → AreOffered specs limits a
    → map some (calls_of response.parts) ≡ map (λ (t : ToolAssembly). t.call) a.tools
    → IsOffered specs limits response
calls_within specs limits a response w e =
    let calls = calls_of response.parts in
    let same : length calls ≡ length a.tools =
      sym (length-map calls some) ∙ ap length e ∙ length-map a.tools (λ t. t.call) in
    (
      present_calls specs calls (
          subst (All (OfferedCall specs)) (sym e)
            (offered_calls specs a.tools (subst (λ s. All (Fits s) a.tools) w.0 w.3))),
      subst (λ l. length calls ≤ l.max_tool_calls_per_response) w.1 (omega (arith, same, w.2)),
    )

-- When a new assembler has taken all the events of a stream and its finish gives a response, every
-- call of the response is of a tool that the request offered, and the calls are no more than the
-- limit.
pub finish_response-IsOffered :
    (parse : Text → Option JsonValue) (to_writer : JsonValue → Serialized) (specs : List ToolSpec)
    (limits : LoopLimits) (events : List ModelEvent) (a : Assembler) (response : ModelResponse)
    → push_all parse to_writer (new_assembler specs limits) events ≡ ok a
    → finish_response a ≡ ok (ok response)
    → IsOffered specs limits response
finish_response-IsOffered parse to_writer specs limits events a response e f =
    calls_within specs limits a response
      (subst (Ok (AreOffered specs limits)) e (
        push_all-AreOffered parse to_writer specs limits (new_assembler specs limits) events
          (refl, refl, omega arith, tt)))
      (subst (Answers (map (λ (t : ToolAssembly). t.call) a.tools)) f
        (finish_response-Answers parse to_writer specs limits events a e))
