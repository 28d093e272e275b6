-- ===== src/Prompt/Conversation.antt =====
-- src/prompt.rs with src/model/request.rs: the prompt of a conversation passes the check of requests.
use minicore_runtime.Base.{
  is_empty, leb, not, is_some, length, u32_mod, ok, ◌&&◌, ◌<◌, Bool, Option, none, some, arith,
  append_assoc, ℕ, ◌≡◌, refl, sym, subst, ap, ◌∙◌, true, false, List, [], ◌∷◌, ◌++◌, map, all,
  is_ok,
}
use minicore_runtime.Text.{Text, byte_len, valid_text, allowed_char, normalize_model_text}
use minicore_runtime.Text.Normalize.{normalize_model_text_safe}
use minicore_runtime.Ids.{Bytes}
use minicore_runtime.Message.{
  AssistantPart, ToolCall, text, reasoning, tool_call, as_tool_call, normalize_parts,
  normalize_part, validate_tool_call_order, max_model_message_text_bytes,
}
use minicore_runtime.Message.Order.{
  tool_calls, valid_text_part, NumberedFrom, FreshIds, validate_tool_call_order_iff,
}
use minicore_runtime.Exchange.{ProviderReplay, new_assistant, validate_message}
use minicore_runtime.Exchange.Turns.{call_ids}
use minicore_runtime.Batch.{ToolResultHistory, Site}
use minicore_runtime.Batch.Results.{AreResultsOf}
use minicore_runtime.History.{
  HistoryItem, AssistantHistory, UserHistory, user_item, assistant_item, result_item, summary_item,
}
use minicore_runtime.Options.{LoopOptions}
use minicore_runtime.Runner.Turn.{calls_of}
use minicore_runtime.Runner.Pass.{site_of}
use minicore_runtime.Runner.Exchange.{Exchanges, nothing, input, response}
use minicore_runtime.Prompt.{assistant_message}

abbrev pub result_ids : List ToolResultHistory → List Bytes
result_ids results = map (λ r. r.call_id) results

-- A history in which every response is directly followed by one result for each of its calls, in
-- their order.
pub data Conversation : List HistoryItem → Type 0 where
  empty : Conversation []
  said :
      (u : UserHistory) (items : List HistoryItem)
      → Conversation items
      → Conversation (user_item u ∷ items)
  summarized :
      (t : Text) (items : List HistoryItem)
      → Conversation items
      → Conversation (summary_item t ∷ items)
  answered :
      (a : AssistantHistory) (results : List ToolResultHistory) (items : List HistoryItem)
      → result_ids results ≡ call_ids a.content
      → Conversation items
      → Conversation (assistant_item a ∷ (map result_item results ++ items))

abbrev pub text_within : AssistantPart → Bool
text_within (text t) = leb (byte_len t) max_model_message_text_bytes
text_within _ = true

-- What the runtime keeps of a response: there are parts or metadata of the provider, the texts are
-- within the limit of a message, and the calls are numbered from zero and have distinct ids.
abbrev pub AreInOrder : List AssistantPart → Option ProviderReplay → Type 0
AreInOrder parts replay =
    ((is_empty parts && not (is_some replay)) ≡ false)
    × (all text_within parts ≡ true)
    × NumberedFrom 0 (tool_calls parts)
    × FreshIds [] (tool_calls parts)
    × (length (tool_calls parts) < u32_mod)

abbrev pub IsResponse : AssistantHistory → Type 0
IsResponse a = AreInOrder a.content a.provider_replay

-- The texts of an item are allowed in a message, and a response is in order.
abbrev pub IsAllowed : HistoryItem → Type 0
IsAllowed (user_item u) = valid_text u.input max_model_message_text_bytes false ≡ true
IsAllowed (assistant_item a) = IsResponse a
IsAllowed (result_item r) = Unit
IsAllowed (summary_item t) = all allowed_char t ≡ true

calls_of_lem : (parts : List AssistantPart) → calls_of parts ≡ tool_calls parts
unfolding tool_calls as_tool_call
calls_of_lem [] = refl
calls_of_lem (text t ∷ parts) = calls_of_lem parts
calls_of_lem (reasoning r ∷ parts) = calls_of_lem parts
calls_of_lem (tool_call c ∷ parts) = ap (◌∷◌ c) (calls_of_lem parts)

tool_calls-normalize_parts :
    (parts : List AssistantPart) → tool_calls (normalize_parts parts) ≡ tool_calls parts
unfolding normalize_parts normalize_part tool_calls
tool_calls-normalize_parts [] = refl
tool_calls-normalize_parts (text t ∷ parts) = tool_calls-normalize_parts parts
tool_calls-normalize_parts (reasoning r ∷ parts) = tool_calls-normalize_parts parts
tool_calls-normalize_parts (tool_call c ∷ parts) =
    ap (λ calls. c ∷ calls) (tool_calls-normalize_parts parts)

pub call_ids-normalize_parts :
    (parts : List AssistantPart) → call_ids (normalize_parts parts) ≡ call_ids parts
call_ids-normalize_parts parts = ap (map (λ c. c.tool_call_id)) (tool_calls-normalize_parts parts)

normalized_within :
    (t : Text)
    → leb (byte_len t) max_model_message_text_bytes ≡ true
    → valid_text (normalize_model_text t) max_model_message_text_bytes true ≡ true
unfolding valid_text
normalized_within t h = ground (arith, normalize_model_text_safe t)

-- Normalization makes texts within the limit valid ones.
normalized_parts_valid :
    (parts : List AssistantPart)
    → all text_within parts ≡ true
    → all valid_text_part (normalize_parts parts) ≡ true
unfolding normalize_parts normalize_part
normalized_parts_valid [] h = refl
normalized_parts_valid (text t ∷ parts) h =
    ground (arith, normalized_within t, normalized_parts_valid parts)
normalized_parts_valid (reasoning r ∷ parts) h = normalized_parts_valid parts h
normalized_parts_valid (tool_call c ∷ parts) h = normalized_parts_valid parts h

normalized_order :
    (a : AssistantHistory)
    → IsResponse a
    → validate_tool_call_order (normalize_parts a.content) ≡ ok tt
normalized_order a h = (validate_tool_call_order_iff (normalize_parts a.content)).1 (
    rw (tool_calls-normalize_parts a.content) (normalized_parts_valid a.content h.1, h.2, h.3, h.4))

-- A response that is in order has a message.
pub IsResponse-message : (a : AssistantHistory) → IsResponse a → is_ok (assistant_message a) ≡ true
unfolding assistant_message new_assistant validate_message
IsResponse-message a h = message a.content a.provider_replay h.0 (normalized_order a h)
  where
    message :
        (parts : List AssistantPart) (replay : Option ProviderReplay)
        → (is_empty parts && not (is_some replay)) ≡ false
        → validate_tool_call_order (normalize_parts parts) ≡ ok tt
        → is_ok (new_assistant parts replay) ≡ true
    message [] none n v = cc
    message (part ∷ parts) none n v = rw v refl
    message parts (some replay) n v = rw v refl

results_ids :
    (site : Site) (calls : List ToolCall) (results : List ToolResultHistory)
    → AreResultsOf site calls results
    → result_ids results ≡ map (λ c. c.tool_call_id) calls
results_ids site [] [] w = refl
results_ids site [] (r ∷ results) w = absurd w
results_ids site (c ∷ calls) [] w = absurd w
results_ids site (c ∷ calls) (r ∷ results) w = cc (w.0.0, results_ids site calls results w.1)

-- What a loop appends is a conversation.
pub Exchanges-Conversation :
    (options : LoopOptions) {i j : ℕ} {items : List HistoryItem}
    → Exchanges options i items j
    → Conversation items
Exchanges-Conversation options (nothing i) = empty
Exchanges-Conversation options (input u i j items e) =
    said u items (Exchanges-Conversation options e)
Exchanges-Conversation options (response a id results i j items n r e) =
    answered a results items
      (results_ids (site_of options id i) (calls_of a.content) results r
        ∙ ap (map (λ c. c.tool_call_id)) (calls_of_lem a.content))
      (Exchanges-Conversation options e)

pub Conversation-append :
    {xs : List HistoryItem} (ys : List HistoryItem)
    → Conversation xs
    → Conversation ys
    → Conversation (xs ++ ys)
Conversation-append ys empty d = d
Conversation-append ys (said u items c) d = said u (items ++ ys) (Conversation-append ys c d)
Conversation-append ys (summarized t items c) d =
    summarized t (items ++ ys) (Conversation-append ys c d)
Conversation-append ys (answered a results items e c) d =
    subst (λ zs. Conversation (assistant_item a ∷ zs))
      (sym (append_assoc (map result_item results) items ys))
      (answered a results (items ++ ys) e (Conversation-append ys c d))
