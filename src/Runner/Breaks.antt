-- ===== src/Runner/Breaks.antt =====
-- How the loop ends: by a break, or with an answer at the end of its history.
use minicore_runtime.Base.{
  ◌≡◌, refl, List, [], ◌∷◌, ◌++◌, Option, none, some, Result, ok, err, ◌⊎◌, inl, inr, arith,
}
use minicore_runtime.PortCall.{
  PortCallOutcome, returned, deadline_exceeded, invalid_deadline, panicked, turn, port,
}
use minicore_runtime.Message.{ToolCall}
use minicore_runtime.Exchange.{ModelMessage}
use minicore_runtime.Driver.{ModelDriverFailure}
use minicore_runtime.Batch.{FailPath, Panic, ToolResultHistory}
use minicore_runtime.Batch.Paths.{IsBreak, BatchBreak}
use minicore_runtime.Response.{
  ModelFinishReason, stop, tool_calls, length, content_filtered, refused, unknown,
}
use minicore_runtime.History.{HistoryItem, assistant_item, AssistantHistory}
use minicore_runtime.Runner.{LoopControl}
use minicore_runtime.Runner.Turn.{
  Progress, Passed, ends, end_prompt, calls_of, no_tool_finish, prepare_prompt, map_model_failure,
}
use minicore_runtime.Runner.Pass.{ended, out_of_rounds, after_batch}

-- The last item is a response without calls that the model has stopped at.
abbrev pub EndsWithAnswer : List HistoryItem → Type 0
EndsWithAnswer items =
    (before : List HistoryItem) × (a : AssistantHistory) × ((items
        ≡ before ++ assistant_item a ∷ [])
      × (calls_of a.content ≡ [])
      × (a.finish_reason ≡ stop))

abbrev pub Ending : FailPath → Progress → Type 0
Ending path p = IsBreak path ⊎ EndsWithAnswer p.working.appended

abbrev pub Concluded : Passed → Type 0
Concluded (ends path p) = Ending path p
Concluded _ = Unit

pub no_tool_finish-stop :
    (calls : List ToolCall) (reason : ModelFinishReason) (path : FailPath)
    → no_tool_finish calls reason ≡ ok (some path)
    → IsBreak path ⊎ ((calls ≡ []) × (reason ≡ stop))
unfolding no_tool_finish
no_tool_finish-stop [] stop path e = inr (refl, refl)
no_tool_finish-stop [] length path e = inl (λ f. cc)
no_tool_finish-stop [] refused path e = inl (λ f. cc)
no_tool_finish-stop [] content_filtered path e = inl (λ f. cc)
no_tool_finish-stop [] tool_calls path e = ground arith
no_tool_finish-stop [] unknown path e = ground arith
no_tool_finish-stop (call ∷ calls) reason path e = ground arith

pub no_tool_finish-err :
    (calls : List ToolCall) (reason : ModelFinishReason) (path : FailPath)
    → no_tool_finish calls reason ≡ err path
    → IsBreak path
unfolding no_tool_finish
no_tool_finish-err [] stop path e f = cc
no_tool_finish-err [] length path e f = cc
no_tool_finish-err [] refused path e f = cc
no_tool_finish-err [] content_filtered path e f = cc
no_tool_finish-err [] tool_calls path e f = cc
no_tool_finish-err [] unknown path e f = cc
no_tool_finish-err (call ∷ calls) reason path e f = cc

pub prepare_prompt-IsBreak :
    (o : PortCallOutcome (List ModelMessage) (Unit {0})) (path : FailPath)
    → prepare_prompt o ≡ end_prompt path
    → IsBreak path
unfolding prepare_prompt
prepare_prompt-IsBreak (returned (ok [])) path e f = cc
prepare_prompt-IsBreak (returned (ok (m ∷ ms))) path e f = cc
prepare_prompt-IsBreak (returned (err x)) path e f = cc
prepare_prompt-IsBreak PortCallOutcome.cancelled path e f = cc
prepare_prompt-IsBreak (deadline_exceeded turn) path e f = cc
prepare_prompt-IsBreak (deadline_exceeded port) path e f = cc
prepare_prompt-IsBreak (invalid_deadline x) path e f = cc
prepare_prompt-IsBreak panicked path e f = cc

pub map_model_failure-IsBreak :
    (c : LoopControl) (f : ModelDriverFailure) → IsBreak (map_model_failure c f)
unfolding map_model_failure
map_model_failure-IsBreak c f e = ground arith

pub ended-Concluded :
    (path : FailPath) (c : LoopControl) (p : Progress)
    → Ending path p
    → Concluded (ended path c p).1
ended-Concluded FailPath.completed c p w = w
ended-Concluded FailPath.cancelled c p w = w
ended-Concluded FailPath.deadline c p w = w
ended-Concluded FailPath.prompt c p w = w
ended-Concluded (FailPath.model e) c p w = w
ended-Concluded (FailPath.invalid_model_response e) c p w = w
ended-Concluded FailPath.output_limit c p w = w
ended-Concluded FailPath.refused c p w = w
ended-Concluded FailPath.content_filtered c p w = w
ended-Concluded FailPath.policy c p w = w
ended-Concluded FailPath.interaction c p w = w
ended-Concluded FailPath.max_tool_rounds c p w = w
ended-Concluded FailPath.internal c p w = w

pub out_of_rounds-Concluded :
    (settled : Result (List ToolResultHistory) Panic) (c : LoopControl) (p : Progress)
    → Concluded (out_of_rounds settled c p).1
out_of_rounds-Concluded (err e) c p = tt
out_of_rounds-Concluded (ok rs) c p = inl (λ e. cc)

pub after_batch-Concluded :
    (batch : LoopControl × Result (List ToolResultHistory × Option FailPath) Panic) (p : Progress)
    → BatchBreak batch.1
    → Concluded (after_batch batch p).1
after_batch-Concluded (c, err e) p b = tt
after_batch-Concluded (c, ok (rs, some path)) p b = inl b
after_batch-Concluded (c, ok (rs, none)) p b = tt
