-- ===== src/Assembler/Deltas.antt =====
-- src/model/driver/assembler.rs, push: what one event does to the assembled text and reasoning.
use minicore_runtime.Base.{
  ℕ, ◌+◌, ◌≤◌, ◌≡◌, refl, sym, Bool, true, List, [], ◌∷◌, ◌++◌, append-nil, any, is_empty, not,
  Option, none, some, is_some, ltb, if_cases, if◌then◌else◌, Result, ok, err, Ok, Ok-bind, arith,
}
use minicore_runtime.Text.{Text, byte_len, usize_max}
use minicore_runtime.Text.Bytes.{byte_len-append}
use minicore_runtime.Text.Stream.{normalized_delta}
use minicore_runtime.Ids.{Bytes}
use minicore_runtime.Json.{JsonValue, Serialized}
use minicore_runtime.ModelError.{ModelError}
use minicore_runtime.Execution.{has_tool}
use minicore_runtime.Response.{
  ModelEvent, text_delta, reasoning_delta, tool_call_start, tool_call_arguments_delta,
  tool_call_end, usage_event, provider_replay_event, finish,
}
use minicore_runtime.Assembler.{
  Assembler, ToolAssembly, Pushed, append_bounded, with_tools, push_text, push_reasoning,
  push_start, with_start, start_refused, push_event, invalid_response, ModelDriverProgress,
}

-- The text that an assembler has, its flag, and the limit on it.
abbrev pub Content : Type 0
Content = Text × Bool × ℕ

abbrev pub text_of : Assembler → Content
text_of a = (a.text, a.text_ended_with_cr, a.limits.max_model_text_bytes)

abbrev pub reasoning_of : Assembler → Content
reasoning_of a = (a.reasoning, a.reasoning_ended_with_cr, a.limits.max_model_reasoning_bytes)

-- The content after a delta, which is within its limit if the one before is.
abbrev pub Grows : Text → Content → Content → Type 0
Grows delta (content, ended, maximum) (content', ended', maximum') =
    (content' ≡ content ++ (normalized_delta delta ended).0)
    × (ended' ≡ (normalized_delta delta ended).1)
    × (maximum' ≡ maximum)
    × (byte_len content ≤ maximum → byte_len content' ≤ maximum)

-- What an event does to the two contents.
abbrev pub Moves : ModelEvent → Assembler → Assembler → Type 0
Moves (text_delta delta) a b =
    Grows delta (text_of a) (text_of b) × (reasoning_of b ≡ reasoning_of a)
Moves (reasoning_delta delta) a b =
    (text_of b ≡ text_of a) × Grows delta (reasoning_of a) (reasoning_of b)
Moves event a b = (text_of b ≡ text_of a) × (reasoning_of b ≡ reasoning_of a)

abbrev pub Moved : ModelEvent → Assembler → Pushed → Type 0
Moved event a = Ok (λ (w : Assembler × Option ModelDriverProgress). Moves event a w.0)

pub append_bounded_lem :
    (target delta : Text) (maximum : ℕ)
    → Ok
        (λ content. (content ≡ target ++ delta) × (byte_len content ≤ maximum))
        (append_bounded target delta maximum)
unfolding append_bounded
append_bounded_lem target delta maximum =
    if_cases
      (λ (o : Option ℕ).
        Ok (λ content. (content ≡ target ++ delta) × (byte_len content ≤ maximum))
          (elim o [
            | none ↦ err invalid_response
            | some n ↦ if ltb maximum n then err invalid_response else ok (target ++ delta)
          ]))
      (ltb (byte_len target + byte_len delta) (usize_max + 1))
      (λ t.
        if_cases (Ok (λ content. (content ≡ target ++ delta) × (byte_len content ≤ maximum)))
          (ltb maximum (byte_len target + byte_len delta)) {x = err invalid_response}
          {y = ok (target ++ delta)} (λ t. tt)
          (λ f. (refl, rw (byte_len-append target delta) (ground arith))))
      (λ f. tt)

pub is_empty_lem : {A : Type 0} (xs : List A) → is_empty xs ≡ true → xs ≡ []
is_empty_lem [] h = refl
is_empty_lem (x ∷ xs) h = absurd (ground arith)

module _ (a : Assembler) where
  push_text-Moved :
      (delta : Text)
      → Moved (text_delta delta) a (push_text a (normalized_delta delta a.text_ended_with_cr))
  push_text-Moved delta =
      let (piece, ended) = normalized_delta delta a.text_ended_with_cr in
      if_cases (Moved (text_delta delta) a) (is_empty piece)
        {x = ok (record a { text_ended_with_cr = ended }, none)}
        (λ t. ((rw (is_empty_lem piece t) (sym (append-nil a.text)), refl, refl, λ h. h), refl))
        (λ f.
          Ok-bind
            (λ content.
              (content ≡ a.text ++ piece) × (byte_len content ≤ a.limits.max_model_text_bytes))
            (λ r. Moves (text_delta delta) a r.0)
            (append_bounded a.text piece a.limits.max_model_text_bytes) _
            (append_bounded_lem a.text piece a.limits.max_model_text_bytes)
            (λ content h. ((h.0, refl, refl, λ _. h.1), refl)))

  push_reasoning-Moved :
      (delta : Text)
      → Moved
          (reasoning_delta delta)
          a
          (push_reasoning a (normalized_delta delta a.reasoning_ended_with_cr))
  push_reasoning-Moved delta =
      let (piece, ended) = normalized_delta delta a.reasoning_ended_with_cr in
      let maximum = a.limits.max_model_reasoning_bytes in
      if_cases (Moved (reasoning_delta delta) a) (is_empty piece)
        {x = ok (record a { reasoning_ended_with_cr = ended }, none)}
        (λ t.
          (refl, (rw (is_empty_lem piece t) (sym (append-nil a.reasoning)), refl, refl, λ h. h)))
        (λ f.
          Ok-bind (λ content. (content ≡ a.reasoning ++ piece) × (byte_len content ≤ maximum))
            (λ r. Moves (reasoning_delta delta) a r.0) (append_bounded a.reasoning piece maximum) _
            (append_bounded_lem a.reasoning piece maximum)
            (λ content h. (refl, (h.0, refl, refl, λ _. h.1))))

  -- The other events leave both contents.
  abbrev Left : Pushed → Type 0
  Left = Ok (λ (w : Assembler × Option ModelDriverProgress).
      (text_of w.0 ≡ text_of a) × (reasoning_of w.0 ≡ reasoning_of a))

  push_start-Left : (id name : Bytes) → Left (push_start a id name)
  push_start-Left id name =
      if_cases Left (not (has_tool a.request_tools name)) (λ t. tt)
        (λ f.
          if_cases Left (start_refused a id) {y = ok (with_start a id name, none)} (λ t. tt)
            (λ g. (refl, refl)))

  with_tools-Left : (r : Result (List ToolAssembly) ModelError) → Left (with_tools a r)
  with_tools-Left (ok tools) = (refl, refl)
  with_tools-Left (err e) = tt

  pub push_event-Moved :
      (parse : Text → Option JsonValue) (to_writer : JsonValue → Serialized) (event : ModelEvent)
      → Moved event a (push_event parse to_writer a event)
  unfolding push_event
  push_event-Moved parse to_writer (text_delta delta) = push_text-Moved delta
  push_event-Moved parse to_writer (reasoning_delta delta) = push_reasoning-Moved delta
  push_event-Moved parse to_writer (tool_call_start id name) = push_start-Left id name
  push_event-Moved parse to_writer (tool_call_arguments_delta id delta) = with_tools-Left _
  push_event-Moved parse to_writer (tool_call_end id) = with_tools-Left _
  push_event-Moved parse to_writer (usage_event usage) =
      if_cases Left (is_some a.usage) {y = ok (record a { usage = some usage }, none)} (λ t. tt)
        (λ f. (refl, refl))
  push_event-Moved parse to_writer (provider_replay_event replay) =
      if_cases Left (is_some a.provider_replay)
        {y = ok (record a { provider_replay = some replay }, none)} (λ t. tt) (λ f. (refl, refl))
  push_event-Moved parse to_writer (finish reason) =
      if_cases Left (any (λ (tool : ToolAssembly). not (is_some tool.call)) a.tools)
        {y = ok (record a { finish_reason = some reason }, none)} (λ t. tt) (λ f. (refl, refl))
