-- ===== src/History.antt =====
-- src/history.rs: the history of a loop, and the estimate of its size.
use minicore_runtime.Base.{ℕ, ◌+◌, List, [], ◌∷◌, ◌++◌, length, Option, none, some, saturating_add}
use minicore_runtime.Text.{Text, byte_len, usize_max}
use minicore_runtime.Ids.{Bytes, RuntimeId}
use minicore_runtime.Json.{JsonValue}
use minicore_runtime.Usage.{Usage}
use minicore_runtime.Message.{AssistantPart, text, reasoning, tool_call}
use minicore_runtime.Exchange.{ProviderReplay}
use minicore_runtime.Batch.{ToolResultHistory}
use minicore_runtime.Response.{ModelFinishReason}
use minicore_runtime.Execution.{ReasoningPreference}

pub data UserMessageKind : Type 0 where
  prompt_message steering : UserMessageKind

pub record UserHistory : Type 0 where
  pub loop_id : RuntimeId
  pub kind : UserMessageKind
  pub input : Text

pub record AssistantHistory : Type 0 where
  pub loop_id : RuntimeId
  pub request_index : ℕ
  pub model : Bytes
  pub reasoning : ReasoningPreference
  pub content : List AssistantPart
  pub provider_replay : Option ProviderReplay
  pub finish_reason : ModelFinishReason
  pub usage : Usage

pub data HistoryItem : Type 0 where
  user_item : UserHistory → HistoryItem
  assistant_item : AssistantHistory → HistoryItem
  result_item : ToolResultHistory → HistoryItem
  summary_item : Text → HistoryItem

-- WorkingHistory
pub record WorkingHistory : Type 0 where
  pub base : List HistoryItem
  pub appended : List HistoryItem

abbrev pub new_working : List HistoryItem → WorkingHistory
new_working base = record { base = base; appended = [] }

abbrev pub push : HistoryItem → WorkingHistory → WorkingHistory
push item working = record working { appended = working.appended ++ item ∷ [] }

unfoldable pub append_user : UserHistory → WorkingHistory → WorkingHistory
append_user item working = push (user_item item) working

unfoldable pub append_assistant : AssistantHistory → WorkingHistory → WorkingHistory
append_assistant item working = push (assistant_item item) working

unfoldable pub append_tool_result : ToolResultHistory → WorkingHistory → WorkingHistory
append_tool_result item working = push (result_item item) working

-- HistoryView::iter
abbrev pub view : WorkingHistory → List HistoryItem
view working = working.base ++ working.appended

abbrev pub saturating : ℕ → ℕ → ℕ
saturating = saturating_add (usize_max + 1)

abbrev option_bytes : Option Text → ℕ
option_bytes none = 0
option_bytes (some t) = byte_len t

-- `json_bytes` counts what the JSON library writes for the arguments of a call.
module _ (json_bytes : JsonValue → ℕ) where
  unfoldable pub estimate_part_bytes : AssistantPart → ℕ
  estimate_part_bytes (text t) = byte_len t
  estimate_part_bytes (reasoning r) =
      saturating
        (saturating (saturating (option_bytes r.text) (option_bytes r.summary))
          (option_bytes r.encrypted))
        (option_bytes r.signature)
  estimate_part_bytes (tool_call call) = length call.name + json_bytes call.arguments

  unfoldable pub estimate_parts_bytes : ℕ → List AssistantPart → ℕ
  unfolding estimate_part_bytes
  estimate_parts_bytes total [] = total
  estimate_parts_bytes total (part ∷ parts) =
      estimate_parts_bytes (saturating total (estimate_part_bytes part)) parts

  abbrev replay_bytes : Option ProviderReplay → ℕ
  replay_bytes none = 0
  replay_bytes (some replay) = replay.bytes

  unfoldable pub estimate_item_bytes : HistoryItem → ℕ
  unfolding estimate_parts_bytes
  estimate_item_bytes (user_item user) = byte_len user.input
  estimate_item_bytes (assistant_item assistant) =
      saturating (estimate_parts_bytes 0 assistant.content) (replay_bytes assistant.provider_replay)
  estimate_item_bytes (result_item result) =
      length result.call_id + length result.tool_name + byte_len result.output
  estimate_item_bytes (summary_item content) = byte_len content

  -- The fold of `estimate_history_bytes`, from a total.
  unfoldable pub estimate_items : ℕ → List HistoryItem → ℕ
  unfolding estimate_item_bytes
  estimate_items total [] = total
  estimate_items total (item ∷ items) =
      estimate_items (saturating total (estimate_item_bytes item)) items

  unfoldable pub estimate_history_bytes : List HistoryItem → ℕ
  unfolding estimate_items
  estimate_history_bytes items = estimate_items 0 items
