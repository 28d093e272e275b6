-- ===== src/Message/Examples.antt =====
-- Tests and concrete instances of the theorems on the parts of a message.
use minicore_runtime.Base.{
  ℕ, ◌≡◌, refl, ◌<◌, true, List, [], ◌∷◌, all, length, ok, err, ◌↔◌, u32_mod,
}
use minicore_runtime.Text.{valid_text, byte_len, allowed_char}
use minicore_runtime.Ids.{bytes_eq}
use minicore_runtime.Json.{json_object, no_members}
use minicore_runtime.Message.{
  AssistantPart, text, tool_call, validate_tool_call_order, duplicate_tool_call_id,
  invalid_tool_call_order,
}
use minicore_runtime.Message.Order.{
  tool_calls, valid_text_part, NumberedFrom, FreshIds, validate_tool_call_order_iff,
}

abbrev call : ℕ → ℕ → AssistantPart
call id index = tool_call (record {
  tool_call_id = id ∷ [];
  name = 120 ∷ [];
  arguments = json_object no_members;
  call_index = index;
})

abbrev two_calls : List AssistantPart
two_calls = text (104 ∷ []) ∷ call 49 0 ∷ call 50 1 ∷ []

validate_tool_call_order_iff_example : (validate_tool_call_order two_calls ≡ ok tt) ↔ (
    (all valid_text_part two_calls ≡ true)
    × NumberedFrom 0 (tool_calls two_calls)
    × FreshIds [] (tool_calls two_calls)
    × (length (tool_calls two_calls) < u32_mod))
validate_tool_call_order_iff_example = validate_tool_call_order_iff two_calls

two_calls_pass : validate_tool_call_order two_calls ≡ ok tt
unfolding validate_tool_call_order valid_text byte_len allowed_char bytes_eq
two_calls_pass = refl

same_id_fails : validate_tool_call_order (call 49 0 ∷ call 49 1 ∷ []) ≡ err duplicate_tool_call_id
unfolding validate_tool_call_order bytes_eq
same_id_fails = refl

gap_fails : validate_tool_call_order (call 49 0 ∷ call 50 2 ∷ []) ≡ err invalid_tool_call_order
unfolding validate_tool_call_order bytes_eq
gap_fails = refl
