-- ===== src/Prompt/Accepted.antt =====
-- src/prompt.rs with src/model/request.rs: the prompt that the default provider makes of a conversation
-- passes the check of a request.
use minicore_runtime.Base.{
  ℕ, ◌≡◌, refl, subst, ap, ◌∙◌, true, false, List, [], ◌∷◌, ◌++◌, map, all, All, all-append,
  is_empty, Option, none, some, Result, ok, err, is_ok, ◌>>=◌, Result-cases, ◌≤◌, leb, inl, inr,
  arith, if_cases, ◌<◌,
}
use mathlib.Core.List.{Perm}
use mathlib.Core.List.Perm
use minicore_runtime.Text.{Text, valid_text, byte_len, allowed_char}
use minicore_runtime.Message.{
  AssistantPart, ModelValueError, normalize_parts, max_model_message_text_bytes,
}
use minicore_runtime.Exchange.{
  ModelMessage, ProviderReplay, system, user, assistant, assistant_with_replay, validate_message,
  new_assistant, new_system,
}
use minicore_runtime.Exchange.Turns.{
  ToolResult, result_message, call_ids, OpensTurn, system_turn, user_turn, assistant_turn,
  replay_turn, Turns, done, turn,
}
use minicore_runtime.Batch.{ToolResultHistory}
use minicore_runtime.History.{HistoryItem, AssistantHistory, result_item}
use minicore_runtime.Batch.{Panic}
use minicore_runtime.Execution.{ToolSpec, ReasoningPreference}
use minicore_runtime.Exchange.{validate_tool_exchange}
use minicore_runtime.Exchange.Complete.{Turns-accepted}
use minicore_runtime.Request.{ModelLimits, with_validated_tools}
use minicore_runtime.Options.{LoopOptions}
use minicore_runtime.Runner.Exchange.{Exchanges}
use minicore_runtime.Prompt.{
  prepare, system_messages, with_message, item_message, item_messages, assistant_message,
  summary_message, summary_prefix, Messages,
}
use minicore_runtime.Prompt.Summary.{summary_message_lem}
use minicore_runtime.Prompt.Conversation.{
  Conversation, empty, said, summarized, answered, IsAllowed, IsResponse-message, result_ids,
  call_ids-normalize_parts, Exchanges-Conversation, Conversation-append,
}

to_result : ToolResultHistory → ToolResult
to_result r = record { id = r.call_id; output = r.output; outcome = r.outcome }

-- Items whose messages make turns.
abbrev Projects : List HistoryItem → Type 0
Projects items = (ms : List ModelMessage) × (item_messages items ≡ ok (ok ms)) × Turns ms

new_assistant_lem :
    (parts : List AssistantPart) (replay : Option ProviderReplay)
    → is_ok (new_assistant parts replay) ≡ true
    → (m : ModelMessage) × (new_assistant parts replay ≡ ok m)
      × (validate_message m ≡ ok tt)
      × OpensTurn m (call_ids parts)
unfolding new_assistant
new_assistant_lem parts none h =
    let m = assistant (normalize_parts parts) in
    elim (Result-cases (validate_message m)) [
      | inl (u, e) ↦ (
        m,
        rw e refl,
        e,
        subst (OpensTurn m) (call_ids-normalize_parts parts)
            (assistant_turn (normalize_parts parts)),
      )
      | inr (x, e) ↦ absurd (ground (arith, e))
    ]
new_assistant_lem parts (some replay) h =
    let m = assistant_with_replay (normalize_parts parts) replay in
    elim (Result-cases (validate_message m)) [
      | inl (u, e) ↦ (
        m,
        rw e refl,
        e,
        subst (OpensTurn m) (call_ids-normalize_parts parts)
            (replay_turn (normalize_parts parts) replay),
      )
      | inr (x, e) ↦ absurd (ground (arith, e))
    ]

-- The message of a response, with the calls of the response.
assistant_message_lem :
    (a : AssistantHistory)
    → is_ok (assistant_message a) ≡ true
    → (m : ModelMessage) × (assistant_message a ≡ ok m)
      × (validate_message m ≡ ok tt)
      × OpensTurn m (call_ids a.content)
unfolding assistant_message
assistant_message_lem a h = new_assistant_lem a.content a.provider_replay h

results_project :
    (results : List ToolResultHistory) (items : List HistoryItem) (ms : List ModelMessage)
    → item_messages items ≡ ok (ok ms)
    → item_messages (map result_item results ++ items)
      ≡ ok (ok (map result_message (map to_result results) ++ ms))
unfolding item_messages to_result
results_project [] items ms e = e
results_project (r ∷ results) items ms e = rw (results_project results items ms e)

to_result_ids :
    (results : List ToolResultHistory)
    → map (λ r. r.id) (map to_result results) ≡ result_ids results
unfolding to_result
to_result_ids [] = refl
to_result_ids (r ∷ results) = ap (◌∷◌ r.call_id) (to_result_ids results)

prefix_allowed : all allowed_char summary_prefix ≡ true
unfolding allowed_char
prefix_allowed = refl

valid_of :
    (t : Text)
    → is_empty t ≡ false
    → byte_len t ≤ max_model_message_text_bytes
    → all allowed_char t ≡ true
    → valid_text t max_model_message_text_bytes false ≡ true
unfolding valid_text
valid_of t e l a = ground arith

summary_project :
    (t : Text)
    → all allowed_char t ≡ true
    → (s : Text) × (summary_message t ≡ ok (ok (system s))) × (validate_message (system s) ≡ ok tt)
unfolding new_system validate_message
summary_project t h =
    let (kept, keeps, e) = summary_message_lem t in
    let kept_allowed : all allowed_char kept ≡ true =
      ground (arith, ap (all allowed_char) keeps.parts, all-append allowed_char kept keeps.rest) in
    let all_allowed : all allowed_char (summary_prefix ++ kept) ≡ true =
      ground (arith, kept_allowed, prefix_allowed, all-append allowed_char summary_prefix kept) in
    let v : valid_text (summary_prefix ++ kept) max_model_message_text_bytes false ≡ true =
      valid_of (summary_prefix ++ kept) refl keeps.within all_allowed in
    (summary_prefix ++ kept, e ∙ rw v refl, rw v refl)

IsAllowed-rest :
    (results : List ToolResultHistory) (items : List HistoryItem)
    → All IsAllowed (map result_item results ++ items)
    → All IsAllowed items
IsAllowed-rest [] items h = h
IsAllowed-rest (r ∷ results) items h = IsAllowed-rest results items h.1

project : {items : List HistoryItem} → Conversation items → All IsAllowed items → Projects items
unfolding item_messages validate_message
project empty h = ([], refl, done)
project (said u items c) h =
    let (ms, e, t) = project c h.1 in
    (
      user u.input ∷ ms,
      rw e,
      turn (user u.input) [] [] ms (user_turn u.input) (rw h.0 refl) (Perm.refl []) t,
    )
project (summarized t items c) h =
    let (ms, e, ts) = project c h.1 in
    let (s, f, v) = summary_project t h.0 in
    (system s ∷ ms, rw (f, e), turn (system s) [] [] ms (system_turn s) v (Perm.refl []) ts)
project (answered a results items i c) h =
    let (m, f, v, o) = assistant_message_lem a (IsResponse-message a h.0) in
    let (ms, e, ts) = project c (IsAllowed-rest results items h.1) in
    (
      m ∷ map result_message (map to_result results) ++ ms,
      rw (f, results_project results items ms e),
      turn m (call_ids a.content) (map to_result results) ms o v
          (subst (Perm (map (λ r. r.id) (map to_result results))) (to_result_ids results ∙ i)
            (Perm.refl (map (λ r. r.id) (map to_result results))))
          ts,
    )

-- The system prompt of the provider is allowed in a message, unless it is empty.
abbrev pub IsAllowedPrompt : Option Text → Type 0
IsAllowedPrompt none = Unit
IsAllowedPrompt (some t) = valid_text t max_model_message_text_bytes true ≡ true

system_Turns :
    (prompt : Option Text) {ms : List ModelMessage}
    → IsAllowedPrompt prompt
    → Turns ms
    → Turns (system_messages prompt ++ ms)
unfolding validate_message valid_text
system_Turns none h t = t
system_Turns (some s) {ms} h t =
    if_cases (λ before. Turns (before ++ ms)) (is_empty s) (λ e. t)
      (λ n. turn (system s) [] [] ms (system_turn s) (ground (arith, h, n)) (Perm.refl []) t)

some_message :
    (items : List HistoryItem) (ms : List ModelMessage)
    → is_empty items ≡ false
    → item_messages items ≡ ok (ok ms)
    → is_empty ms ≡ false
unfolding item_messages
some_message [] ms h e = absurd (ground arith)
some_message (item ∷ items) ms h e = pushed (item_message item) (item_messages items) e
  where
    pushed :
        (r : Result (Result ModelMessage ModelValueError) Panic) (rest : Messages)
        → r >>= (λ m. with_message m rest) ≡ ok (ok ms)
        → is_empty ms ≡ false
    pushed (err p) rest e = ground arith
    pushed (ok (err x)) rest e = ground arith
    pushed (ok (ok m)) (err p) e = ground arith
    pushed (ok (ok m)) (ok (err x)) e = ground arith
    pushed (ok (ok m)) (ok (ok rest)) e = ground arith

is_empty-append : (xs ys : List ModelMessage) → is_empty ys ≡ false → is_empty (xs ++ ys) ≡ false
is_empty-append [] ys h = h
is_empty-append (x ∷ xs) ys h = refl

-- When the history of a loop is a conversation and what the loop has appended to it so far, is not
-- empty, has inputs and summaries whose texts are allowed in messages, and has responses with parts or
-- metadata of the provider, with texts within the limit of a message and with calls that are numbered
-- from zero and have distinct ids, and the system prompt is allowed or empty, then the default provider,
-- called before the deadline and without a cancellation, does not panic or fail, and its prompt passes
-- the check of a request.
pub prepare-IsAccepted :
    (options : LoopOptions) (prompt : Option Text) (deadline now : ℕ)
    (base appended : List HistoryItem) (j : ℕ) (tools : List ToolSpec) (limits : ModelLimits)
    (preference : ReasoningPreference)
    → Conversation base
    → Exchanges options 0 appended j
    → All IsAllowed (base ++ appended)
    → is_empty (base ++ appended) ≡ false
    → IsAllowedPrompt prompt
    → now < deadline
    → (ms : List ModelMessage) × (prepare prompt false deadline now (base ++ appended) ≡ ok (ok ms))
      × (with_validated_tools ms tools limits preference
          ≡ ok (record { messages = ms; tools = tools; limits = limits; reasoning = preference }))
unfolding prepare with_validated_tools validate_tool_exchange
prepare-IsAccepted options prompt deadline now base appended j tools limits preference c e allowed n
      p l =
    let history = base ++ appended in
    let (ms, projected, turns) =
      project (Conversation-append appended c (Exchanges-Conversation options e)) allowed in
    let all_messages = system_messages prompt ++ ms in
    let filled =
      is_empty-append (system_messages prompt) ms (some_message history ms n projected) in
    let late : leb deadline now ≡ false = ground arith in
    let passed = Turns-accepted (system_Turns prompt p turns) [] in
    (all_messages, rw (late, projected, filled) refl, rw (filled, passed) refl)
