-- ===== src/Batch/Call.antt =====
-- src/agent_loop/runner/tools.rs: one tool call, `wait_interaction` and `run_tool_call`, and the batch
-- that runs the calls one after the other.
use minicore_runtime.Base.{
  ℕ, suc, Bool, List, [], ◌∷◌, Option, none, some, Result, ok, err, ◌>>=◌, if◌then◌else◌,
}
use minicore_runtime.Text.{Text}
use minicore_runtime.Ids.{Bytes, RuntimeId}
use minicore_runtime.Interaction.{
  allow_once, deny, InteractionKind, InteractionAnswer, PendingInteraction, CanonicalResult,
}
use minicore_runtime.Message.{ToolCall}
use minicore_runtime.Tools.{failed, ToolResultOutcome}
use minicore_runtime.Control.{
  Control, InteractionStateError, set_interaction, take_interaction, publish_state,
  waiting_for_input, running_tools,
}
use minicore_runtime.Control.Host.{land}
use minicore_runtime.Batch.{
  FailPath, Panic, panic, Site, ToolResultHistory, completed_result, denied_result,
  terminal_tool_result, failed_message, interrupted_message, settle_calls,
}
use minicore_runtime.Batch.Port.{
  Interacting, Outside, PolicyStep, ToolPort, ToolStep, allowed, approval_step, decide_policy,
  denied_step, end_step, input_step, invalid, pending_for, port_completed, port_end, port_failed,
  port_request, reply_of, result_step, run_tool_port, stepped, turn_deadline, turn_over,
}

module _ {Config Report : Type 0} where
  abbrev pub taken : Control Config Report → Control Config Report
  taken c = (take_interaction c).0

  abbrev pub publish_waiting : PendingInteraction → Control Config Report → Control Config Report
  publish_waiting pending c =
      publish_state
        (record c.loop_state { status = waiting_for_input; pending_interaction = some pending }) c

  abbrev pub publish_running : Control Config Report → Control Config Report
  publish_running c =
      publish_state (record c.loop_state { status = running_tools; pending_interaction = none }) c

  -- After the wait, with the slot taken out: the arm's answer.
  abbrev pub resumed :
      Result InteractionAnswer FailPath
      → Control Config Report
      → Control Config Report × Result InteractionAnswer FailPath
  resumed (err path) c = (c, err path)
  resumed (ok answer) c = (publish_running c, ok answer)

  -- What follows the attempt to set the interaction.
  abbrev pub after_set :
      (Config → Bool)
      → Interacting Config
      → PendingInteraction
      → Result (Unit {0}) InteractionStateError
      → Control Config Report
      → Control Config Report × Result InteractionAnswer FailPath
  after_set valid outside pending (err e) c = (c, err FailPath.internal)
  after_set valid outside pending (ok u) c =
      resumed (reply_of outside.arm)
        (taken (land valid outside.meanwhile (publish_waiting pending c)))

  unfoldable pub wait_interaction :
      (Config → Bool)
      → Interacting Config
      → ToolCall
      → RuntimeId
      → InteractionKind
      → Control Config Report
      → Control Config Report × Result InteractionAnswer FailPath
  wait_interaction valid outside call id kind c =
      let (c', set) =
        set_interaction (record { id = id; expected = kind; reply = outside.reply }) c in
      after_set valid outside (pending_for call id kind) set c'

  -- Waits with the new id, if there is one.
  abbrev pub with_id :
      (Config → Bool)
      → Interacting Config
      → ToolCall
      → InteractionKind
      → Option RuntimeId
      → Control Config Report
      → Control Config Report × Result InteractionAnswer FailPath
  with_id valid outside call kind none c = (c, err FailPath.internal)
  with_id valid outside call kind (some id) c = wait_interaction valid outside call id kind c

  unfoldable pub interact :
      (Config → Bool)
      → Interacting Config
      → ToolCall
      → InteractionKind
      → Control Config Report
      → Control Config Report × Result InteractionAnswer FailPath
  unfolding wait_interaction
  interact valid outside call kind c = with_id valid outside call kind outside.id c

  -- The match on a call's step, with the rest of the batch; `calls` starts with that call.
  unfoldable pub after_step :
      Site
      → List ToolCall
      → Result ToolStep Panic
      → Control Config Report
      → Control Config Report × Result (List ToolResultHistory × Option FailPath) Panic
      → Control Config Report × Result (List ToolResultHistory × Option FailPath) Panic
  after_step site calls (err p) c rest = (c, err p)
  after_step site calls (ok (end_step path)) c rest = (
    c,
    settle_calls site calls ToolResultOutcome.cancelled interrupted_message >>= λ settled.
        ok (settled, some path),
  )
  after_step site calls (ok (result_step first)) c rest =
      (rest.0, rest.1 >>= λ (results, path). ok (first ∷ results, path))

  module _ (valid : Config → Bool) (encode : CanonicalResult → Text) where
    -- The tool port and what follows it.
    unfoldable pub tool_step :
        Site
        → ToolCall
        → Outside Config
        → ToolPort
        → Control Config Report
        → Control Config Report × Result ToolStep Panic
    unfolding input_step interact
    tool_step site call outside (port_completed output) c =
        (c, stepped (completed_result site call output))
    tool_step site call outside (port_request request) c =
        let (c', answer) =
          interact valid outside.input call (InteractionKind.tool_input request) c in
        (c', input_step encode site call request answer)
    tool_step site call outside port_failed c =
        (c, stepped (terminal_tool_result site call failed failed_message))
    tool_step site call outside (port_end path) c = (c, ok (end_step path))

    -- What becomes of the answer to an approval request.
    unfoldable pub approval_reply :
        Site
        → ToolCall
        → Outside Config
        → Result InteractionAnswer FailPath
        → Control Config Report
        → Control Config Report × Result ToolStep Panic
    unfolding tool_step run_tool_port
    approval_reply site call outside (err path) c = (c, ok (end_step path))
    approval_reply site call outside (ok (InteractionAnswer.approval allow_once)) c =
        tool_step site call outside (run_tool_port outside.tool_outcome) c
    approval_reply site call outside (ok (InteractionAnswer.approval deny)) c =
        (c, stepped (denied_result site call none))
    approval_reply site call outside (ok (InteractionAnswer.tool_input answer)) c =
        (c, ok (end_step FailPath.internal))

    unfoldable pub policy_step :
        Site
        → ToolCall
        → Outside Config
        → PolicyStep
        → Control Config Report
        → Control Config Report × Result ToolStep Panic
    unfolding approval_reply tool_step run_tool_port interact
    policy_step site call outside allowed c =
        tool_step site call outside (run_tool_port outside.tool_outcome) c
    policy_step site call outside (denied_step reason) c =
        (c, stepped (denied_result site call reason))
    policy_step site call outside (approval_step request) c =
        let (c', answer) =
          interact valid outside.approval call (InteractionKind.approval request) c in
        approval_reply site call outside answer c'
    policy_step site call outside turn_over c = (c, ok (end_step FailPath.cancelled))
    policy_step site call outside turn_deadline c = (c, ok (end_step FailPath.deadline))
    policy_step site call outside invalid c = (c, ok (end_step FailPath.policy))

    unfoldable pub run_tool_call :
        Site
        → ToolCall
        → Outside Config
        → Control Config Report
        → Control Config Report × Result ToolStep Panic
    unfolding policy_step decide_policy
    run_tool_call site call outside c =
        policy_step site call outside (decide_policy outside.policy_outcome) c

    -- The step of the loop of `run_tool_batch`; `enabled` tells which tools the frozen set has.
    unfoldable pub batch_step :
        (Bytes → Bool)
        → Site
        → ToolCall
        → Outside Config
        → Control Config Report
        → Control Config Report × Result ToolStep Panic
    unfolding run_tool_call
    batch_step enabled site call outside c =
        if outside.token_cancelled
        then (c, ok (end_step FailPath.cancelled))
        else if enabled call.name
        then run_tool_call site call outside c
        else (c, err panic)

    -- `run_tool_batch`: the control, the results that it appends, and the path that ends the loop.
    -- `outside` tells what comes from outside during each call.
    unfoldable pub run_tool_batch :
        (Bytes → Bool)
        → Site
        → List ToolCall
        → (ℕ → Outside Config)
        → Control Config Report
        → Control Config Report × Result (List ToolResultHistory × Option FailPath) Panic
    unfolding batch_step after_step
    run_tool_batch enabled site [] outside c = (c, ok ([], none))
    run_tool_batch enabled site (call ∷ calls) outside c =
        let (c', step) = batch_step enabled site call (outside 0) c in
        after_step site (call ∷ calls) step c'
          (run_tool_batch enabled site calls (λ i. outside (suc i)) c')
