-- ===== src/Batch/Paths.antt =====
-- A batch of tool calls does not complete the loop: if it ends the loop, it is by another path.
use minicore_runtime.Base.{
  ℕ, suc, ◌≢◌, Bool, List, [], ◌∷◌, Option, none, some, Result, ok, err, ◌>>=◌, if_cases, is_ok,
}
use minicore_runtime.Text.{Text}
use minicore_runtime.Ids.{Bytes, RuntimeId}
use minicore_runtime.PortCall.{
  PortCallOutcome, returned, deadline_exceeded, invalid_deadline, panicked, turn, port,
}
use minicore_runtime.Interaction.{
  CanonicalResult, InteractionAnswer, InteractionKind, PendingInteraction, ToolInputRequest,
  allow_once, deny, canonical_result, validate_request,
}
use minicore_runtime.Message.{ToolCall}
use minicore_runtime.Tools.{failed, ToolResultOutcome}
use minicore_runtime.Control.{Control, InteractionStateError, InteractionSlot, set_interaction}
use minicore_runtime.Control.Host.{land}
use minicore_runtime.Batch.{
  Site, FailPath, Panic, panic, ToolResultHistory, completed_result, terminal_tool_result,
  denied_result, failed_message, settle_calls, interrupted_message, provided_input_result,
}
use minicore_runtime.Batch.Call.{
  after_set, with_id, resumed, taken, publish_waiting, wait_interaction, interact, after_step,
  tool_step, approval_reply, policy_step, run_tool_call, batch_step, run_tool_batch,
}
use minicore_runtime.Batch.Port.{
  Interacting, Outside, ToolStep, end_step, result_step, ToolPort, port_completed, port_request,
  port_failed, port_end, PolicyStep, allowed, denied_step, approval_step, turn_over, turn_deadline,
  invalid, pending_for, reply_of, run_tool_port, decide_policy, ToolExecutionOutcome, completed,
  request_input, stepped, input_step, Arm, cancelled_arm, deadline_arm, dropped_arm, answer_arm,
}

-- A path that is no completion.
abbrev pub IsBreak : FailPath → Type 0
IsBreak path = path ≢ FailPath.completed

abbrev ReplyBreak : Result InteractionAnswer FailPath → Type 0
ReplyBreak (err path) = IsBreak path
ReplyBreak (ok a) = Unit

abbrev StepBreak : Result ToolStep Panic → Type 0
StepBreak (ok (end_step path)) = IsBreak path
StepBreak _ = Unit

abbrev pub BatchBreak : Result (List ToolResultHistory × Option FailPath) Panic → Type 0
BatchBreak (ok (results, some path)) = IsBreak path
BatchBreak _ = Unit

abbrev PortBreak : ToolPort → Type 0
PortBreak (port_end path) = IsBreak path
PortBreak _ = Unit

cancelled-IsBreak : IsBreak FailPath.cancelled
cancelled-IsBreak e = cc

deadline-IsBreak : IsBreak FailPath.deadline
deadline-IsBreak e = cc

internal-IsBreak : IsBreak FailPath.internal
internal-IsBreak e = cc

interaction-IsBreak : IsBreak FailPath.interaction
interaction-IsBreak e = cc

policy-IsBreak : IsBreak FailPath.policy
policy-IsBreak e = cc

reply_of-ReplyBreak : (arm : Arm) → ReplyBreak (reply_of arm)
reply_of-ReplyBreak cancelled_arm = cancelled-IsBreak
reply_of-ReplyBreak deadline_arm = deadline-IsBreak
reply_of-ReplyBreak dropped_arm = interaction-IsBreak
reply_of-ReplyBreak (answer_arm a) = tt

run_tool_port-PortBreak :
    (o : PortCallOutcome ToolExecutionOutcome (Unit {0})) → PortBreak (run_tool_port o)
unfolding run_tool_port
run_tool_port-PortBreak (returned (ok (completed t))) = tt
run_tool_port-PortBreak (returned (ok (request_input r))) =
    if_cases PortBreak (is_ok (validate_request r)) (λ v. tt) (λ v. tt)
run_tool_port-PortBreak (returned (err e)) = tt
run_tool_port-PortBreak PortCallOutcome.cancelled = cancelled-IsBreak
run_tool_port-PortBreak (deadline_exceeded turn) = deadline-IsBreak
run_tool_port-PortBreak (deadline_exceeded port) = tt
run_tool_port-PortBreak (invalid_deadline e) = internal-IsBreak
run_tool_port-PortBreak panicked = tt

stepped-StepBreak : (r : Result ToolResultHistory Panic) → StepBreak (stepped r)
stepped-StepBreak (ok h) = tt
stepped-StepBreak (err p) = tt

module _ {Config Report : Type 0} (valid : Config → Bool) where
  resumed-ReplyBreak :
      (r : Result InteractionAnswer FailPath) (c : Control Config Report)
      → ReplyBreak r
      → ReplyBreak (resumed r c).1
  resumed-ReplyBreak (err path) c b = b
  resumed-ReplyBreak (ok a) c b = tt

  after_set-ReplyBreak :
      (outside : Interacting Config) (pending : PendingInteraction)
      (r : Result (Unit {0}) InteractionStateError) (c : Control Config Report)
      → ReplyBreak (after_set valid outside pending r c).1
  after_set-ReplyBreak outside pending (err e) c = internal-IsBreak
  after_set-ReplyBreak outside pending (ok t) c =
      resumed-ReplyBreak (reply_of outside.arm)
        (taken (land valid outside.meanwhile (publish_waiting pending c)))
        (reply_of-ReplyBreak outside.arm)

  with_id-ReplyBreak :
      (outside : Interacting Config) (call : ToolCall) (kind : InteractionKind)
      (id : Option RuntimeId) (c : Control Config Report)
      → ReplyBreak (with_id valid outside call kind id c).1
  unfolding wait_interaction
  with_id-ReplyBreak outside call kind none c = internal-IsBreak
  with_id-ReplyBreak outside call kind (some id) c =
      let slot : InteractionSlot = record { id = id; expected = kind; reply = outside.reply } in
      after_set-ReplyBreak outside (pending_for call id kind) (set_interaction slot c).1
        (set_interaction slot c).0

  interact-ReplyBreak :
      (outside : Interacting Config) (call : ToolCall) (kind : InteractionKind)
      (c : Control Config Report)
      → ReplyBreak (interact valid outside call kind c).1
  unfolding interact
  interact-ReplyBreak outside call kind c = with_id-ReplyBreak outside call kind outside.id c

module _ (encode : CanonicalResult → Text) (site : Site) where
  encoded-StepBreak :
      (call : ToolCall) (v : Option CanonicalResult)
      → StepBreak (elim v [
        | none ↦ err panic
        | some value ↦ stepped (provided_input_result site call (encode value))
      ])
  encoded-StepBreak call none = tt
  encoded-StepBreak call (some value) =
      stepped-StepBreak (provided_input_result site call (encode value))

  input_step-StepBreak :
      (call : ToolCall) (request : ToolInputRequest) (a : Result InteractionAnswer FailPath)
      → ReplyBreak a
      → StepBreak (input_step encode site call request a)
  unfolding input_step
  input_step-StepBreak call request (err path) b = b
  input_step-StepBreak call request (ok (InteractionAnswer.tool_input answer)) b =
      encoded-StepBreak call (canonical_result answer request)
  input_step-StepBreak call request (ok (InteractionAnswer.approval d)) b = internal-IsBreak

settled-BatchBreak :
    (settled : Result (List ToolResultHistory) Panic) (path : FailPath)
    → IsBreak path
    → BatchBreak (settled >>= λ results. ok (results, some path))
settled-BatchBreak (ok results) path b = b
settled-BatchBreak (err p) path b = tt

first-BatchBreak :
    (first : ToolResultHistory) (rest : Result (List ToolResultHistory × Option FailPath) Panic)
    → BatchBreak rest
    → BatchBreak (rest >>= λ (results, path). ok (first ∷ results, path))
first-BatchBreak first (ok (results, some path)) b = b
first-BatchBreak first (ok (results, none)) b = tt
first-BatchBreak first (err p) b = tt

module _ {Config Report : Type 0} (valid : Config → Bool) (encode : CanonicalResult → Text)
    (site : Site) where
  tool_step-StepBreak :
      (call : ToolCall) (outside : Outside Config) (p : ToolPort) (c : Control Config Report)
      → PortBreak p
      → StepBreak (tool_step valid encode site call outside p c).1
  unfolding tool_step
  tool_step-StepBreak call outside (port_completed t) c b =
      stepped-StepBreak (completed_result site call t)
  tool_step-StepBreak call outside (port_request r) c b =
      input_step-StepBreak encode site call r
        (interact valid outside.input call (InteractionKind.tool_input r) c).1
        (interact-ReplyBreak valid outside.input call (InteractionKind.tool_input r) c)
  tool_step-StepBreak call outside port_failed c b =
      stepped-StepBreak (terminal_tool_result site call failed failed_message)
  tool_step-StepBreak call outside (port_end path) c b = b

  approval_reply-StepBreak :
      (call : ToolCall) (outside : Outside Config) (a : Result InteractionAnswer FailPath)
      (c : Control Config Report)
      → ReplyBreak a
      → StepBreak (approval_reply valid encode site call outside a c).1
  unfolding approval_reply
  approval_reply-StepBreak call outside (err path) c b = b
  approval_reply-StepBreak call outside (ok (InteractionAnswer.approval allow_once)) c b =
      tool_step-StepBreak call outside (run_tool_port outside.tool_outcome) c
        (run_tool_port-PortBreak outside.tool_outcome)
  approval_reply-StepBreak call outside (ok (InteractionAnswer.approval deny)) c b =
      stepped-StepBreak (denied_result site call none)
  approval_reply-StepBreak call outside (ok (InteractionAnswer.tool_input a)) c b = internal-IsBreak

  policy_step-StepBreak :
      (call : ToolCall) (outside : Outside Config) (p : PolicyStep) (c : Control Config Report)
      → StepBreak (policy_step valid encode site call outside p c).1
  unfolding policy_step
  policy_step-StepBreak call outside allowed c =
      tool_step-StepBreak call outside (run_tool_port outside.tool_outcome) c
        (run_tool_port-PortBreak outside.tool_outcome)
  policy_step-StepBreak call outside (denied_step r) c =
      stepped-StepBreak (denied_result site call r)
  policy_step-StepBreak call outside (approval_step r) c =
      let (c', a) = interact valid outside.approval call (InteractionKind.approval r) c in
      approval_reply-StepBreak call outside a c'
        (interact-ReplyBreak valid outside.approval call (InteractionKind.approval r) c)
  policy_step-StepBreak call outside turn_over c = cancelled-IsBreak
  policy_step-StepBreak call outside turn_deadline c = deadline-IsBreak
  policy_step-StepBreak call outside invalid c = policy-IsBreak

  batch_step-StepBreak :
      (enabled : Bytes → Bool) (call : ToolCall) (outside : Outside Config)
      (c : Control Config Report)
      → StepBreak (batch_step valid encode enabled site call outside c).1
  unfolding batch_step run_tool_call
  batch_step-StepBreak enabled call outside c =
      if_cases (λ (r : Control Config Report × Result ToolStep Panic). StepBreak r.1)
        outside.token_cancelled (λ t. cancelled-IsBreak)
        (λ f.
          if_cases (λ (r : Control Config Report × Result ToolStep Panic). StepBreak r.1)
            (enabled call.name)
            (λ e. policy_step-StepBreak call outside (decide_policy outside.policy_outcome) c)
            (λ n. tt))

  after_step-BatchBreak :
      (calls : List ToolCall) (step : Result ToolStep Panic) (c : Control Config Report)
      → (rest : Control Config Report × Result (List ToolResultHistory × Option FailPath) Panic)
      → StepBreak step
      → BatchBreak rest.1
      → BatchBreak (after_step site calls step c rest).1
  unfolding after_step
  after_step-BatchBreak calls (err p) c rest b r = tt
  after_step-BatchBreak calls (ok (end_step path)) c rest b r =
      settled-BatchBreak (settle_calls site calls ToolResultOutcome.cancelled interrupted_message)
        path b
  after_step-BatchBreak calls (ok (result_step first)) c rest b r = first-BatchBreak first rest.1 r

  pub run_tool_batch-BatchBreak :
      (enabled : Bytes → Bool) (calls : List ToolCall) (outside : ℕ → Outside Config)
      (c : Control Config Report)
      → BatchBreak (run_tool_batch valid encode enabled site calls outside c).1
  unfolding run_tool_batch
  run_tool_batch-BatchBreak enabled [] outside c = tt
  run_tool_batch-BatchBreak enabled (call ∷ calls) outside c =
      let (c', step) = batch_step valid encode enabled site call (outside 0) c in
      after_step-BatchBreak (call ∷ calls) step c'
        (run_tool_batch valid encode enabled site calls (λ i. outside (suc i)) c')
        (batch_step-StepBreak enabled call (outside 0) c)
        (run_tool_batch-BatchBreak enabled calls (λ i. outside (suc i)) c')
