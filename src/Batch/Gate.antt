-- ===== src/Batch/Gate.antt =====
-- src/agent_loop/runner/tools.rs: what authorizes a call whose result is not a denial.
use minicore_runtime.Base.{
  Bool, ◌≡◌, ◌≢◌, refl, Option, none, some, Result, ok, err, arith, Result-cases, inl, inr, ◌⊎◌,
}
use minicore_runtime.Text.{Text}
use minicore_runtime.PortCall.{
  PortCallOutcome, returned, deadline_exceeded, invalid_deadline, panicked, turn, port,
}
use minicore_runtime.Message.{ToolCall}
use minicore_runtime.Interaction.{
  InteractionKind, InteractionAnswer, CanonicalResult, allow_once, deny, ApprovalRequest,
}
use minicore_runtime.Tools.{denied}
use minicore_runtime.Control.{Control, set_interaction}
use minicore_runtime.Batch.{Site, ToolResultHistory, FailPath, denied_result, denial}
use minicore_runtime.Batch.Call.{
  approval_reply, policy_step, run_tool_call, interact, wait_interaction,
}
use minicore_runtime.Batch.Port.{
  ToolDecision, allow, deny_call, require_approval, valid_decision, result_step, Outside,
  Interacting, PolicyStep, allowed, denied_step, approval_step, turn_over, turn_deadline, invalid,
  stepped, decide_policy, answer_arm, Arm, cancelled_arm, deadline_arm, dropped_arm, reply_of,
}

-- The config has no policy, the policy allows the call, or it asks for an approval and the host
-- gives it.
pub data Authorized {Config : Type 0} (outside : Outside Config) : Type 0 where
  no_policy : outside.policy_outcome ≡ none → Authorized outside
  by_policy : outside.policy_outcome ≡ some (returned (ok allow)) → Authorized outside
  by_host :
      (request : ApprovalRequest)
      → outside.policy_outcome ≡ some (returned (ok (require_approval request)))
      → outside.approval.arm ≡ answer_arm (InteractionAnswer.approval allow_once)
      → Authorized outside

decide_policy-allowed :
    (p : Option (PortCallOutcome ToolDecision (Unit {0})))
    → decide_policy p ≡ allowed
    → (p ≡ none) ⊎ (p ≡ some (returned (ok allow)))
unfolding decide_policy valid_decision
decide_policy-allowed none h = inl refl
decide_policy-allowed (some (returned (ok allow))) h = inr refl
decide_policy-allowed (some (returned (ok (deny_call t)))) h = ground arith
decide_policy-allowed (some (returned (ok (require_approval r)))) h = ground arith
decide_policy-allowed (some (returned (err e))) h = cc
decide_policy-allowed (some PortCallOutcome.cancelled) h = cc
decide_policy-allowed (some (deadline_exceeded turn)) h = cc
decide_policy-allowed (some (deadline_exceeded port)) h = cc
decide_policy-allowed (some (invalid_deadline e)) h = cc
decide_policy-allowed (some panicked) h = cc

decide_policy-approval :
    (p : Option (PortCallOutcome ToolDecision (Unit {0}))) (r : ApprovalRequest)
    → decide_policy p ≡ approval_step r
    → p ≡ some (returned (ok (require_approval r)))
unfolding decide_policy valid_decision
decide_policy-approval none r h = cc
decide_policy-approval (some (returned (ok allow))) r h = cc
decide_policy-approval (some (returned (ok (deny_call t)))) r h = ground arith
decide_policy-approval (some (returned (ok (require_approval q)))) r h = ground arith
decide_policy-approval (some (returned (err e))) r h = cc
decide_policy-approval (some PortCallOutcome.cancelled) r h = cc
decide_policy-approval (some (deadline_exceeded turn)) r h = cc
decide_policy-approval (some (deadline_exceeded port)) r h = cc
decide_policy-approval (some (invalid_deadline e)) r h = cc
decide_policy-approval (some panicked) r h = cc

denied_result-denied :
    (site : Site) (call : ToolCall) (reason : Option Text) (h : ToolResultHistory)
    → stepped (denied_result site call reason) ≡ ok (result_step h)
    → h.outcome ≡ denied
unfolding denied_result
denied_result-denied site call reason h e = elim (Result-cases (denial site reason)) [
  | inl (t, q) ↦ ground (arith, q)
  | inr (p, q) ↦ ground (arith, q)
]

reply_arm : (arm : Arm) (a : InteractionAnswer) → reply_of arm ≡ ok a → arm ≡ answer_arm a
reply_arm cancelled_arm a h = cc
reply_arm deadline_arm a h = cc
reply_arm dropped_arm a h = cc
reply_arm (answer_arm b) a h = cc

module _ {Config Report : Type 0} (valid : Config → Bool) (encode : CanonicalResult → Text)
    (site : Site) (call : ToolCall) where
  interact_arm :
      (i : Interacting Config) (k : InteractionKind) (c : Control Config Report)
      (a : InteractionAnswer)
      → (interact valid i call k c).1 ≡ ok a
      → i.arm ≡ answer_arm a
  unfolding interact wait_interaction set_interaction
  interact_arm i k c a h = ground (arith, reply_arm i.arm a)

  approval_reply-Authorized :
      (outside : Outside Config) (a : Result InteractionAnswer FailPath) (c : Control Config Report)
      (h : ToolResultHistory)
      → (approval_reply valid encode site call outside a c).1 ≡ ok (result_step h)
      → h.outcome ≢ denied
      → a ≡ ok (InteractionAnswer.approval allow_once)
  unfolding approval_reply
  approval_reply-Authorized outside (err path) c h e n = ground arith
  approval_reply-Authorized outside (ok (InteractionAnswer.approval allow_once)) c h e n = refl
  approval_reply-Authorized outside (ok (InteractionAnswer.approval deny)) c h e n =
      elim (n (denied_result-denied site call none h e)) [ ]
  approval_reply-Authorized outside (ok (InteractionAnswer.tool_input a)) c h e n = ground arith

  policy_step-Authorized :
      (outside : Outside Config) (p : PolicyStep) (c : Control Config Report)
      (h : ToolResultHistory)
      → decide_policy outside.policy_outcome ≡ p
      → (policy_step valid encode site call outside p c).1 ≡ ok (result_step h)
      → h.outcome ≢ denied
      → Authorized outside
  unfolding policy_step
  policy_step-Authorized outside allowed c h d e n =
      elim (decide_policy-allowed outside.policy_outcome d) [
        | inl q ↦ no_policy q
        | inr q ↦ by_policy q
      ]
  policy_step-Authorized outside (denied_step r) c h d e n =
      elim (n (denied_result-denied site call r h e)) [ ]
  policy_step-Authorized outside (approval_step r) c h d e n =
      let (c', a) = interact valid outside.approval call (InteractionKind.approval r) c in
      by_host r (decide_policy-approval outside.policy_outcome r d) (
        interact_arm outside.approval (InteractionKind.approval r) c
          (InteractionAnswer.approval allow_once) (approval_reply-Authorized outside a c' h e n))
  policy_step-Authorized outside turn_over c h d e n = ground arith
  policy_step-Authorized outside turn_deadline c h d e n = ground arith
  policy_step-Authorized outside invalid c h d e n = ground arith

  -- A call whose result is not a denial was authorized: the config has no policy, the policy allowed
  -- it, or the policy asked for an approval and the host's answer was to allow it. A policy that
  -- fails, panics or runs out of its own time never lets a call through.
  pub run_tool_call-Authorized :
      (outside : Outside Config) (c : Control Config Report) (h : ToolResultHistory)
      → (run_tool_call valid encode site call outside c).1 ≡ ok (result_step h)
      → h.outcome ≢ denied
      → Authorized outside
  unfolding run_tool_call
  run_tool_call-Authorized outside c h e n =
      policy_step-Authorized outside (decide_policy outside.policy_outcome) c h refl e n
