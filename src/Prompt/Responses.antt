-- ===== src/Prompt/Responses.antt =====
-- src/model/response.rs: what a response that is made keeps is what the default provider needs of it.
use minicore_runtime.Base.{
  ◌≡◌, refl, true, false, ◌&&◌, not, List, [], ◌∷◌, all, is_empty, Option, is_some, Result, ok, err,
  ◌>>=◌, Ok, if_cases, arith,
}
use minicore_runtime.Text.{valid_text}
use minicore_runtime.Usage.{Usage}
use minicore_runtime.Message.{
  AssistantPart, ModelValueError, text, reasoning, tool_call, normalize_parts,
  validate_tool_call_order,
}
use minicore_runtime.Message.Order.{valid_text_part, validate_tool_call_order_iff}
use minicore_runtime.Exchange.{ProviderReplay}
use minicore_runtime.Response.{ModelFinishReason, ModelResponse, new_response}
use minicore_runtime.Prompt.Conversation.{text_within, AreInOrder}

valid_parts_within :
    (parts : List AssistantPart) → all valid_text_part parts ≡ true → all text_within parts ≡ true
unfolding valid_text
valid_parts_within [] h = refl
valid_parts_within (text t ∷ parts) h = ground (arith, h, valid_parts_within parts)
valid_parts_within (reasoning r ∷ parts) h = valid_parts_within parts h
valid_parts_within (tool_call c ∷ parts) h = valid_parts_within parts h

checked_in_order :
    (parts : List AssistantPart) (replay : Option ProviderReplay)
    → (is_empty parts && not (is_some replay)) ≡ false
    → validate_tool_call_order parts ≡ ok tt
    → AreInOrder parts replay
checked_in_order parts replay e v =
    let (texts, numbered, fresh, fewer) = (validate_tool_call_order_iff parts).0 v in
    (e, valid_parts_within parts texts, numbered, fresh, fewer)

-- The parts and the metadata of every response that is made are in order.
new_response-AreInOrder :
    (parts : List AssistantPart) (reason : ModelFinishReason) (usage : Option Usage)
    (replay : Option ProviderReplay)
    → Ok
        (λ (r : ModelResponse). AreInOrder r.parts r.provider_replay)
        (new_response parts reason usage replay)
unfolding new_response
new_response-AreInOrder parts reason usage replay =
    let P : Result ModelResponse ModelValueError → Type 0 =
      Ok (λ r. AreInOrder r.parts r.provider_replay) in
    if_cases P (is_empty (normalize_parts parts) && not (is_some replay)) (λ t. tt)
      (λ f.
        checked (validate_tool_call_order (normalize_parts parts))
          (checked_in_order (normalize_parts parts) replay f))
  where
    checked :
        (v : Result (Unit {0}) ModelValueError)
        → (v ≡ ok tt → AreInOrder (normalize_parts parts) replay)
        → Ok
            (λ (r : ModelResponse). AreInOrder r.parts r.provider_replay)
            (v >>= λ u. ok (record {
              parts = normalize_parts parts;
              finish_reason = reason;
              usage = usage;
              provider_replay = replay;
            }))
    checked (err e) h = tt
    checked (ok u) h = h refl
