-- ===== src/Prompt.antt =====
-- src/prompt.rs: the default prompt provider, which projects the history of a loop to messages.
pub mod Summary
pub mod Conversation
pub mod Accepted
mod Responses
mod Examples
use minicore_runtime.Base.{
  ℕ, zero, suc, ◌+◌, ◌-◌, ◌<◌, Bool, true, false, ◌||◌, ◌&&◌, not, List, [], ◌∷◌, ◌++◌, is_empty,
  leb, ltb, ◌==◌, if◌then◌else◌, Option, none, some, Result, ok, err, ◌>>=◌, map_err,
}
use minicore_runtime.Text.{Text, byte_len, char_len}
use minicore_runtime.Message.{ModelValueError, max_model_message_text_bytes}
use minicore_runtime.Exchange.{
  ModelMessage, system, user, new_system, new_assistant, tool_with_outcome,
}
use minicore_runtime.History.{
  HistoryItem, AssistantHistory, user_item, assistant_item, result_item, summary_item,
}
use minicore_runtime.Batch.{Panic, panic, ToolResultHistory}

pub data PromptError : Type 0 where
  invalid_history cancelled empty_prompt : PromptError

-- SUMMARY_PREFIX: "Conversation summary:" and a line feed
abbrev pub summary_prefix : Text
summary_prefix =
    67 ∷ 111 ∷ 110 ∷ 118 ∷ 101 ∷ 114 ∷ 115 ∷ 97 ∷ 116 ∷ 105 ∷ 111 ∷ 110 ∷ 32 ∷ 115 ∷ 117 ∷ 109 ∷ 109
    ∷ 97 ∷ 114 ∷ 121 ∷ 58 ∷ 10 ∷ []

-- str::is_char_boundary
unfoldable pub is_char_boundary : Text → ℕ → Bool
is_char_boundary [] index = index == 0
is_char_boundary (c ∷ text) index =
    let rest = is_char_boundary text (index - char_len c) in
    index == 0 || (leb (char_len c) index && rest)

-- `&text[..end]`, which panics when `end` is no boundary.
unfoldable pub slice_to : Text → ℕ → Result Text Panic
slice_to [] end = if end == 0 then ok [] else err panic
slice_to (c ∷ text) end =
    let rest = slice_to text (end - char_len c) in
    if end == 0
    then ok []
    else if ltb end (char_len c)
    then err panic
    else (rest >>= λ s. ok (c ∷ s))

-- The loop that goes back to a boundary.
unfoldable pub back_to_boundary : Text → ℕ → ℕ
unfolding is_char_boundary
back_to_boundary content zero = 0
back_to_boundary content (suc end) =
    let rest = back_to_boundary content end in
    if is_char_boundary content (suc end) then suc end else rest

-- The end of what is kept of a summary.
unfoldable pub summary_end : Text → ℕ
unfolding back_to_boundary
summary_end content =
    if ltb max_model_message_text_bytes (byte_len summary_prefix + byte_len content)
    then back_to_boundary content (max_model_message_text_bytes - byte_len summary_prefix)
    else byte_len content

unfoldable pub summary_message : Text → Result (Result ModelMessage ModelValueError) Panic
unfolding summary_end slice_to
summary_message content =
    slice_to content (summary_end content) >>= λ kept. ok (new_system (summary_prefix ++ kept))

unfoldable pub assistant_message : AssistantHistory → Result ModelMessage ModelValueError
unfolding new_assistant
assistant_message assistant = new_assistant assistant.content assistant.provider_replay

-- The match on an item.
unfoldable pub item_message : HistoryItem → Result (Result ModelMessage ModelValueError) Panic
unfolding assistant_message summary_message tool_with_outcome
item_message (user_item item) = ok (ok (user item.input))
item_message (assistant_item assistant) = ok (assistant_message assistant)
item_message (result_item result) =
    ok (tool_with_outcome result.call_id result.output result.outcome)
item_message (summary_item content) = summary_message content

abbrev pub Messages : Type 0
Messages = Result (Result (List ModelMessage) PromptError) Panic

abbrev pub with_message : Result ModelMessage ModelValueError → Messages → Messages
with_message (err e) rest = ok (err PromptError.invalid_history)
with_message (ok message) rest = rest >>= λ r. ok (r >>= λ messages. ok (message ∷ messages))

-- The loop over the history; what it has pushed before is put in front.
unfoldable pub item_messages : List HistoryItem → Messages
unfolding item_message
item_messages [] = ok (ok [])
item_messages (item ∷ items) =
    let rest = item_messages items in item_message item >>= λ r. with_message r rest

-- The messages before those of the history.
abbrev pub system_messages : Option Text → List ModelMessage
system_messages none = []
system_messages (some text) = if is_empty text then [] else system text ∷ []

abbrev pub prepared_prompt : List ModelMessage → Result (List ModelMessage) PromptError
prepared_prompt messages = if is_empty messages then err PromptError.empty_prompt else ok messages

-- DefaultPromptProvider::prepare, from what the token and the clock say when it is called.
unfoldable pub prepare :
    Option Text → (is_cancelled : Bool) → (deadline now : ℕ) → List HistoryItem → Messages
unfolding item_messages
prepare system_prompt is_cancelled deadline now history =
    if is_cancelled || leb deadline now
    then ok (err PromptError.cancelled)
    else item_messages history >>= λ r.
        ok (r >>= λ messages. prepared_prompt (system_messages system_prompt ++ messages))
