-- ===== src/Message/Made.antt =====
-- src/model/message.rs, ReasoningContent::new and ToolCall::new: what a constructor gives, it takes again.
use minicore_runtime.Base.{
  ℕ, ◌≡◌, refl, true, ◌||◌, is_some, Option, none, some, Result, ok, err, ◌>>=◌, arith, ltb,
  if◌then◌else◌, Ok, Ok-bind, if_cases,
}
use minicore_runtime.Text.{Text, ValueError, byte_len, normalize_model_text}
use minicore_runtime.Text.Normalize.{normalize_model_text_safe}
use minicore_runtime.Ids.{Bytes}
use minicore_runtime.Limits.{max_json_bytes}
use minicore_runtime.Json.{JsonValue, Serialized, validate_json_size}
use minicore_runtime.Json.Shape.{validate_json_size_iff}
use minicore_runtime.Message.{
  ReasoningContent, ToolCall, ModelValueError, invalid_tool_arguments, normalize_optional_text,
  validate_optional_opaque, new_reasoning, new_tool_call, is_object, empty_reasoning_content,
}

-- A kept text is normal and within its limit, so that it is kept again.
normalize_optional_text_again :
    (o : Option Text) (maximum : ℕ)
    → Ok
        (λ kept. (normalize_optional_text kept maximum ≡ ok kept) × (is_some kept ≡ is_some o))
        (normalize_optional_text o maximum)
unfolding normalize_optional_text
normalize_optional_text_again none maximum = (refl, refl)
normalize_optional_text_again (some t) maximum =
    let kept = normalize_model_text t in
    if_cases (Ok (λ k. (normalize_optional_text k maximum ≡ ok k) × (is_some k ≡ true)))
      (ltb maximum (byte_len kept)) {y = ok (some kept)} (λ h. tt)
      (λ f. (rw ((normalize_model_text_safe t).2, f) refl, refl))

-- The reasoning is taken again.
abbrev Keeps : ReasoningContent → Type 0
Keeps r = new_reasoning r.text r.summary r.encrypted r.signature ≡ ok r

pub new_reasoning-again :
    (content summary encrypted signature : Option Text)
    → Ok Keeps (new_reasoning content summary encrypted signature)
unfolding new_reasoning
new_reasoning-again content summary encrypted signature =
    Ok-bind _ Keeps (normalize_optional_text content 262144) _
      (normalize_optional_text_again content 262144)
      (λ content' c.
        Ok-bind _ Keeps (normalize_optional_text summary 131072) _
          (normalize_optional_text_again summary 131072)
          (λ summary' s. opaque content' summary' c.0 s.0 _ refl _ refl))
  where
    opaque :
        (content' summary' : Option Text)
        → normalize_optional_text content' 262144 ≡ ok content'
        → normalize_optional_text summary' 131072 ≡ ok summary'
        → (e : Result (Unit {0}) ModelValueError) → validate_optional_opaque encrypted 262144 ≡ e
        → (v : Result (Unit {0}) ModelValueError) → validate_optional_opaque signature 16384 ≡ v
        → Ok Keeps (
            e >>= λ _. v >>= λ _.
            if is_some content' || is_some summary' || is_some encrypted || is_some signature
            then ok (record {
              text = content';
              summary = summary';
              encrypted = encrypted;
              signature = signature;
            })
            else err empty_reasoning_content)
    opaque content' summary' c s (err x) ee v ve = tt
    opaque content' summary' c s (ok u) ee (err x) ve = tt
    opaque content' summary' c s (ok u) ee (ok w) ve =
        if_cases (Ok Keeps)
          (is_some content' || is_some summary' || is_some encrypted || is_some signature)
          (λ t. rw (c, s, ee, ve, t) refl) (λ f. tt)

module _ (to_writer : JsonValue → Serialized) where
  abbrev IsTaken : ToolCall → Type 0
  IsTaken c =
      new_tool_call to_writer c.tool_call_id c.name c.arguments c.call_index max_json_bytes ≡ ok c

  accepted_call :
      (id name : Bytes) (arguments : JsonValue) (index : ℕ)
      → validate_json_size to_writer arguments max_json_bytes ≡ ok tt
      → is_object arguments ≡ true
      → IsTaken
          (record { tool_call_id = id; name = name; arguments = arguments; call_index = index })
  unfolding new_tool_call
  accepted_call id name arguments index f t = ground (arith, f, t)

  -- A call within some limit is within the largest one.
  pub new_tool_call-again :
      (id name : Bytes) (arguments : JsonValue) (index max_bytes : ℕ)
      → Ok IsTaken (new_tool_call to_writer id name arguments index max_bytes)
  unfolding new_tool_call
  new_tool_call-again id name arguments index max_bytes =
      sized (validate_json_size to_writer arguments max_bytes) refl
    where
      sized :
          (r : Result (Unit {0}) ValueError)
          → validate_json_size to_writer arguments max_bytes ≡ r
          → Ok IsTaken (elim r [
            | err e ↦ err invalid_tool_arguments
            | ok u ↦
                if is_object arguments
                then ok (record {
                  tool_call_id = id;
                  name = name;
                  arguments = arguments;
                  call_index = index;
                })
                else err invalid_tool_arguments
          ])
      sized (err x) e = tt
      sized (ok u) e =
          let (a, b, c, d, f) = (validate_json_size_iff to_writer arguments max_bytes).0 e in
          let fits : validate_json_size to_writer arguments max_json_bytes ≡ ok tt =
            (validate_json_size_iff to_writer arguments max_json_bytes).1
              (omega arith, b, c, d, omega arith) in
          if_cases (Ok IsTaken) (is_object arguments)
            (λ t. accepted_call id name arguments index fits t) (λ n. tt)
