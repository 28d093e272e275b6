-- ===== src/Message/Order.antt =====
-- The order check accepts exactly the parts whose calls are numbered from zero and have distinct ids.
use minicore_runtime.Base.{
  ℕ, ◌+◌, ◌≡◌, ◌<◌, refl, Bool, true, false, List, [], ◌∷◌, all, length, ltb, ok, arith, ◌↔◌,
  u32_mod,
}
use minicore_runtime.Text.{valid_text}
use minicore_runtime.Ids.{Bytes}
use minicore_runtime.Message.{
  AssistantPart, ToolCall, text, reasoning, tool_call, contains_id, contains_index, check_order,
  validate_tool_call_order, max_model_message_text_bytes,
}

unfoldable pub tool_calls : List AssistantPart → List ToolCall
tool_calls [] = []
tool_calls (tool_call c ∷ parts) = c ∷ tool_calls parts
tool_calls (part ∷ parts) = tool_calls parts

abbrev pub valid_text_part : AssistantPart → Bool
valid_text_part (text t) = valid_text t max_model_message_text_bytes true
valid_text_part _ = true

-- The calls are numbered in sequence, the first by `i`.
abbrev pub NumberedFrom : ℕ → List ToolCall → Type 0
NumberedFrom i [] = Unit
NumberedFrom i (c ∷ cs) = (c.call_index ≡ i) × NumberedFrom (i + 1) cs

-- The ids of the calls differ from those in `seen` and from those of the calls before them.
abbrev pub FreshIds : List Bytes → List ToolCall → Type 0
FreshIds seen [] = Unit
FreshIds seen (c ∷ cs) =
    (contains_id c.tool_call_id seen ≡ false) × FreshIds (c.tool_call_id ∷ seen) cs

not_below : (e : ℕ) (is : List ℕ) → all (λ j. ltb j e) is ≡ true → contains_index e is ≡ false
not_below e [] h = refl
not_below e (i ∷ is) h = ground (arith, not_below e is)

below_more :
    (e : ℕ) (is : List ℕ) → all (λ j. ltb j e) is ≡ true → all (λ j. ltb j (e + 1)) is ≡ true
below_more e [] h = refl
below_more e (i ∷ is) h = ground (arith, below_more e is)

below_next :
    (e i : ℕ) (is : List ℕ)
    → i ≡ e
    → all (λ j. ltb j e) is ≡ true
    → all (λ j. ltb j (e + 1)) (i ∷ is) ≡ true
below_next e i is q h = ground (arith, below_more e is h)

Ordered : List AssistantPart → List Bytes → ℕ → Type 0
Ordered parts seen i =
    (all valid_text_part parts ≡ true)
    × NumberedFrom i (tool_calls parts)
    × FreshIds seen (tool_calls parts)
    × (i + length (tool_calls parts) < u32_mod)

check_order_sound :
    (parts : List AssistantPart) (seen : List Bytes) (is : List ℕ) (i : ℕ)
    → all (λ j. ltb j i) is ≡ true
    → i < u32_mod
    → check_order parts seen is i ≡ ok tt
    → Ordered parts seen i
unfolding check_order tool_calls Ordered
check_order_sound [] seen is i b l h = ground arith
check_order_sound (text t ∷ parts) seen is i b l h =
    ground (arith, check_order_sound parts seen is i b l)
check_order_sound (reasoning r ∷ parts) seen is i b l h =
    ground (arith, check_order_sound parts seen is i b l)
check_order_sound (tool_call c ∷ parts) seen is i b l h = ground (
  arith,
  check_order_sound parts (c.tool_call_id ∷ seen) (c.call_index ∷ is) (i + 1),
  below_next i c.call_index is,
)

check_order_complete :
    (parts : List AssistantPart) (seen : List Bytes) (is : List ℕ) (i : ℕ)
    → all (λ j. ltb j i) is ≡ true
    → Ordered parts seen i
    → check_order parts seen is i ≡ ok tt
unfolding check_order tool_calls Ordered
check_order_complete [] seen is i b h = ground arith
check_order_complete (text t ∷ parts) seen is i b h =
    ground (arith, check_order_complete parts seen is i b)
check_order_complete (reasoning r ∷ parts) seen is i b h =
    ground (arith, check_order_complete parts seen is i b)
check_order_complete (tool_call c ∷ parts) seen is i b h = ground (
  arith,
  not_below i is b,
  check_order_complete parts (c.tool_call_id ∷ seen) (c.call_index ∷ is) (i + 1),
  below_next i c.call_index is,
)

-- The parts of a message pass the check exactly if their texts are valid, their tool calls are
-- numbered from zero in their order, no two calls have the same id, and there are fewer calls than
-- a `u32` counts.
pub validate_tool_call_order_iff :
    (parts : List AssistantPart)
    → (validate_tool_call_order parts ≡ ok tt) ↔ (
        (all valid_text_part parts ≡ true)
        × NumberedFrom 0 (tool_calls parts)
        × FreshIds [] (tool_calls parts)
        × (length (tool_calls parts) < u32_mod))
unfolding validate_tool_call_order Ordered
validate_tool_call_order_iff parts = (
  λ h. ground (arith, check_order_sound parts [] [] 0 refl (omega arith) h),
  λ h. check_order_complete parts [] [] 0 refl (ground (arith, h)),
)
