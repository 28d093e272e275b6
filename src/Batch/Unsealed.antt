-- ===== src/Batch/Unsealed.antt =====
-- A batch of tool calls does not seal the loop.
use minicore_runtime.Base.{
  ℕ, suc, Bool, List, [], ◌∷◌, Option, none, some, Result, ok, err, if_cases, is_some,
}
use minicore_runtime.Text.{Text}
use minicore_runtime.Ids.{Bytes, RuntimeId}
use minicore_runtime.Interaction.{
  CanonicalResult, InteractionAnswer, InteractionKind, PendingInteraction, allow_once, deny,
}
use minicore_runtime.Message.{ToolCall}
use minicore_runtime.Control.{
  Control, set_interaction, take_interaction, publish_state, InteractionStateError, InteractionSlot,
}
use minicore_runtime.Control.Host.{Unsealed, land, land-Unsealed}
use minicore_runtime.Batch.{Site, FailPath, Panic, ToolResultHistory}
use minicore_runtime.Batch.Call.{
  after_set, with_id, resumed, taken, publish_waiting, wait_interaction, interact, after_step,
  tool_step, approval_reply, policy_step, run_tool_call, batch_step, run_tool_batch,
}
use minicore_runtime.Batch.Port.{
  Interacting, Outside, ToolStep, end_step, result_step, ToolPort, port_completed, port_request,
  port_failed, port_end, PolicyStep, allowed, denied_step, approval_step, turn_over, turn_deadline,
  invalid, pending_for, reply_of, run_tool_port, decide_policy,
}

module _ {Config Report : Type 0} (valid : Config → Bool) where
  resumed-Unsealed :
      (r : Result InteractionAnswer FailPath) (c : Control Config Report)
      → Unsealed c
      → Unsealed (resumed r c).0
  unfolding publish_state
  resumed-Unsealed (err path) c u = u
  resumed-Unsealed (ok answer) c u = u

  after_set-Unsealed :
      (outside : Interacting Config) (pending : PendingInteraction)
      (r : Result (Unit {0}) InteractionStateError) (c : Control Config Report)
      → Unsealed c
      → Unsealed (after_set valid outside pending r c).0
  unfolding publish_state take_interaction
  after_set-Unsealed outside pending (err e) c u = u
  after_set-Unsealed outside pending (ok t) c u =
      resumed-Unsealed (reply_of outside.arm)
        (taken (land valid outside.meanwhile (publish_waiting pending c)))
        (land-Unsealed valid outside.meanwhile (publish_waiting pending c) u)

  set_interaction-Unsealed :
      (slot : InteractionSlot) (c : Control Config Report)
      → Unsealed c
      → Unsealed (set_interaction slot c).0
  unfolding set_interaction
  set_interaction-Unsealed slot c u =
      if_cases
        (λ (r : Control Config Report × Result (Unit {0}) InteractionStateError). Unsealed r.0)
        (is_some c.interaction) (λ b. u) (λ b. u)

  with_id-Unsealed :
      (outside : Interacting Config) (call : ToolCall) (kind : InteractionKind)
      (id : Option RuntimeId) (c : Control Config Report)
      → Unsealed c
      → Unsealed (with_id valid outside call kind id c).0
  unfolding wait_interaction
  with_id-Unsealed outside call kind none c u = u
  with_id-Unsealed outside call kind (some id) c u =
      let slot : InteractionSlot = record { id = id; expected = kind; reply = outside.reply } in
      after_set-Unsealed outside (pending_for call id kind) (set_interaction slot c).1
        (set_interaction slot c).0 (set_interaction-Unsealed slot c u)

  interact-Unsealed :
      (outside : Interacting Config) (call : ToolCall) (kind : InteractionKind)
      (c : Control Config Report)
      → Unsealed c
      → Unsealed (interact valid outside call kind c).0
  unfolding interact
  interact-Unsealed outside call kind c u = with_id-Unsealed outside call kind outside.id c u

module _ {Config Report : Type 0} (valid : Config → Bool) (encode : CanonicalResult → Text)
    (site : Site) where
  tool_step-Unsealed :
      (call : ToolCall) (outside : Outside Config) (p : ToolPort) (c : Control Config Report)
      → Unsealed c
      → Unsealed (tool_step valid encode site call outside p c).0
  unfolding tool_step
  tool_step-Unsealed call outside (port_completed t) c u = u
  tool_step-Unsealed call outside (port_request r) c u =
      interact-Unsealed valid outside.input call (InteractionKind.tool_input r) c u
  tool_step-Unsealed call outside port_failed c u = u
  tool_step-Unsealed call outside (port_end path) c u = u

  approval_reply-Unsealed :
      (call : ToolCall) (outside : Outside Config) (a : Result InteractionAnswer FailPath)
      (c : Control Config Report)
      → Unsealed c
      → Unsealed (approval_reply valid encode site call outside a c).0
  unfolding approval_reply
  approval_reply-Unsealed call outside (err path) c u = u
  approval_reply-Unsealed call outside (ok (InteractionAnswer.approval allow_once)) c u =
      tool_step-Unsealed call outside (run_tool_port outside.tool_outcome) c u
  approval_reply-Unsealed call outside (ok (InteractionAnswer.approval deny)) c u = u
  approval_reply-Unsealed call outside (ok (InteractionAnswer.tool_input a)) c u = u

  policy_step-Unsealed :
      (call : ToolCall) (outside : Outside Config) (p : PolicyStep) (c : Control Config Report)
      → Unsealed c
      → Unsealed (policy_step valid encode site call outside p c).0
  unfolding policy_step
  policy_step-Unsealed call outside allowed c u =
      tool_step-Unsealed call outside (run_tool_port outside.tool_outcome) c u
  policy_step-Unsealed call outside (denied_step r) c u = u
  policy_step-Unsealed call outside (approval_step r) c u =
      let (c', a) = interact valid outside.approval call (InteractionKind.approval r) c in
      approval_reply-Unsealed call outside a c'
        (interact-Unsealed valid outside.approval call (InteractionKind.approval r) c u)
  policy_step-Unsealed call outside turn_over c u = u
  policy_step-Unsealed call outside turn_deadline c u = u
  policy_step-Unsealed call outside invalid c u = u

  batch_step-Unsealed :
      (enabled : Bytes → Bool) (call : ToolCall) (outside : Outside Config)
      (c : Control Config Report)
      → Unsealed c
      → Unsealed (batch_step valid encode enabled site call outside c).0
  unfolding batch_step run_tool_call
  batch_step-Unsealed enabled call outside c u =
      if_cases (λ (r : Control Config Report × Result ToolStep Panic). Unsealed r.0)
        outside.token_cancelled (λ t. u)
        (λ f.
          if_cases (λ (r : Control Config Report × Result ToolStep Panic). Unsealed r.0)
            (enabled call.name)
            (λ e. policy_step-Unsealed call outside (decide_policy outside.policy_outcome) c u)
            (λ n. u))

  after_step-Unsealed :
      (calls : List ToolCall) (step : Result ToolStep Panic) (c : Control Config Report)
      → (rest : Control Config Report × Result (List ToolResultHistory × Option FailPath) Panic)
      → Unsealed c
      → Unsealed rest.0
      → Unsealed (after_step site calls step c rest).0
  unfolding after_step
  after_step-Unsealed calls (err p) c rest u v = u
  after_step-Unsealed calls (ok (end_step path)) c rest u v = u
  after_step-Unsealed calls (ok (result_step first)) c rest u v = v

  -- Running a batch does not seal the loop.
  pub run_tool_batch-Unsealed :
      (enabled : Bytes → Bool) (calls : List ToolCall) (outside : ℕ → Outside Config)
      (c : Control Config Report)
      → Unsealed c
      → Unsealed (run_tool_batch valid encode enabled site calls outside c).0
  unfolding run_tool_batch
  run_tool_batch-Unsealed enabled [] outside c u = u
  run_tool_batch-Unsealed enabled (call ∷ calls) outside c u =
      let (c', step) = batch_step valid encode enabled site call (outside 0) c in
      let u' : Unsealed c' = batch_step-Unsealed enabled call (outside 0) c u in
      after_step-Unsealed (call ∷ calls) step c'
        (run_tool_batch valid encode enabled site calls (λ i. outside (suc i)) c') u'
        (run_tool_batch-Unsealed enabled calls (λ i. outside (suc i)) c' u')
