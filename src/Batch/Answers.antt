-- ===== src/Batch/Answers.antt =====
-- src/agent_loop/runner/tools.rs: the results that a batch of tool calls leaves.
use minicore_runtime.Base.{
  ℕ, suc, ◌≡◌, refl, Bool, List, [], ◌∷◌, Option, none, some, Result, ok, err, arith, Result-cases,
  Bool-cases, inl, inr, subst,
}
use minicore_runtime.Text.{Text}
use minicore_runtime.Ids.{Bytes}
use minicore_runtime.Message.{ToolCall}
use minicore_runtime.Interaction.{
  ToolInputRequest, InteractionAnswer, InteractionKind, CanonicalResult, canonical_result,
  allow_once, deny,
}
use minicore_runtime.Tools.{ToolResultOutcome, failed}
use minicore_runtime.Control.{Control}
use minicore_runtime.Batch.{
  Site, ToolResultHistory, FailPath, Panic, panic, completed_result, provided_input_result,
  denied_result, terminal_tool_result, settle_calls, failed_message, interrupted_message,
}
use minicore_runtime.Batch.Results.{
  IsResultOf, AreResultsOf, completed_result-IsResultOf, provided_input_result-IsResultOf,
  denied_result-IsResultOf, terminal_tool_result-IsResultOf, settle_calls-AreResultsOf,
}
use minicore_runtime.Batch.Call.{
  tool_step, approval_reply, policy_step, run_tool_call, batch_step, after_step, run_tool_batch,
  interact,
}
use minicore_runtime.Batch.Port.{
  ToolStep, result_step, end_step, Outside, ToolPort, port_completed, port_request, port_failed,
  port_end, PolicyStep, allowed, denied_step, approval_step, turn_over, turn_deadline, invalid,
  stepped, input_step, run_tool_port, decide_policy,
}

-- If the step leaves a result, it is that of the call.
abbrev StepOf : Site → ToolCall → Result ToolStep Panic → Type 0
StepOf site call (ok (result_step h)) = IsResultOf site call h
StepOf site call _ = Unit

stepped-StepOf :
    (site : Site) (call : ToolCall) (r : Result ToolResultHistory Panic)
    → ((h : ToolResultHistory) → r ≡ ok h → IsResultOf site call h)
    → StepOf site call (stepped r)
stepped-StepOf site call (ok h) f = f h refl
stepped-StepOf site call (err p) f = tt

input_step-StepOf :
    (encode : CanonicalResult → Text) (site : Site) (call : ToolCall) (request : ToolInputRequest)
    (a : Result InteractionAnswer FailPath)
    → StepOf site call (input_step encode site call request a)
unfolding input_step
input_step-StepOf encode site call request (err path) = tt
input_step-StepOf encode site call request (ok (InteractionAnswer.tool_input answer)) =
    encoded (canonical_result answer request)
  where
    encoded :
        (v : Option CanonicalResult)
        → StepOf site call (elim v [
          | none ↦ err panic
          | some value ↦ stepped (provided_input_result site call (encode value))
        ])
    encoded none = tt
    encoded (some value) =
        stepped-StepOf site call (provided_input_result site call (encode value))
          (provided_input_result-IsResultOf site call (encode value))
input_step-StepOf encode site call request (ok (InteractionAnswer.approval d)) = tt

module _ {Config Report : Type 0} (valid : Config → Bool) (encode : CanonicalResult → Text)
    (site : Site) where
  tool_step-StepOf :
      (call : ToolCall) (outside : Outside Config) (p : ToolPort) (c : Control Config Report)
      → StepOf site call (tool_step valid encode site call outside p c).1
  unfolding tool_step
  tool_step-StepOf call outside (port_completed t) c =
      stepped-StepOf site call (completed_result site call t)
        (completed_result-IsResultOf site call t)
  tool_step-StepOf call outside (port_request r) c =
      input_step-StepOf encode site call r
        (interact valid outside.input call (InteractionKind.tool_input r) c).1
  tool_step-StepOf call outside port_failed c =
      stepped-StepOf site call (terminal_tool_result site call failed failed_message)
        (terminal_tool_result-IsResultOf site call failed failed_message)
  tool_step-StepOf call outside (port_end path) c = tt

  approval_reply-StepOf :
      (call : ToolCall) (outside : Outside Config) (a : Result InteractionAnswer FailPath)
      (c : Control Config Report)
      → StepOf site call (approval_reply valid encode site call outside a c).1
  unfolding approval_reply
  approval_reply-StepOf call outside (err path) c = tt
  approval_reply-StepOf call outside (ok (InteractionAnswer.approval allow_once)) c =
      tool_step-StepOf call outside (run_tool_port outside.tool_outcome) c
  approval_reply-StepOf call outside (ok (InteractionAnswer.approval deny)) c =
      stepped-StepOf site call (denied_result site call none)
        (denied_result-IsResultOf site call none)
  approval_reply-StepOf call outside (ok (InteractionAnswer.tool_input a)) c = tt

  policy_step-StepOf :
      (call : ToolCall) (outside : Outside Config) (p : PolicyStep) (c : Control Config Report)
      → StepOf site call (policy_step valid encode site call outside p c).1
  unfolding policy_step
  policy_step-StepOf call outside allowed c =
      tool_step-StepOf call outside (run_tool_port outside.tool_outcome) c
  policy_step-StepOf call outside (denied_step r) c =
      stepped-StepOf site call (denied_result site call r) (denied_result-IsResultOf site call r)
  policy_step-StepOf call outside (approval_step r) c =
      approval_reply-StepOf call outside
        (interact valid outside.approval call (InteractionKind.approval r) c).1
        (interact valid outside.approval call (InteractionKind.approval r) c).0
  policy_step-StepOf call outside turn_over c = tt
  policy_step-StepOf call outside turn_deadline c = tt
  policy_step-StepOf call outside invalid c = tt

  batch_step-StepOf :
      (enabled : Bytes → Bool) (call : ToolCall) (outside : Outside Config)
      (c : Control Config Report)
      → StepOf site call (batch_step valid encode enabled site call outside c).1
  unfolding batch_step run_tool_call
  batch_step-StepOf enabled call outside c = elim (Bool-cases outside.token_cancelled) [
    | inl t ↦ rw t tt
    | inr f ↦ elim (Bool-cases (enabled call.name)) [
      | inl e ↦ rw (f, e) (policy_step-StepOf call outside (decide_policy outside.policy_outcome) c)
      | inr n ↦ rw (f, n) tt
    ]
  ]

  after_step-AreResultsOf :
      (call : ToolCall) (calls : List ToolCall) (step : Result ToolStep Panic)
      (c : Control Config Report)
      → (rest : Control Config Report × Result (List ToolResultHistory × Option FailPath) Panic)
      → StepOf site call step
      → ((rs : List ToolResultHistory) (p : Option FailPath)
          → rest.1 ≡ ok (rs, p)
          → AreResultsOf site calls rs)
      → (results : List ToolResultHistory) (path : Option FailPath)
      → (after_step site (call ∷ calls) step c rest).1 ≡ ok (results, path)
      → AreResultsOf site (call ∷ calls) results
  unfolding after_step
  after_step-AreResultsOf call calls (err p) c rest s i results path h = ground arith
  after_step-AreResultsOf call calls (ok (end_step e)) c rest s i results path h =
      elim (Result-cases
        (settle_calls site (call ∷ calls) ToolResultOutcome.cancelled interrupted_message)) [
          | inl (hs, q) ↦
              settle_calls-AreResultsOf site (call ∷ calls) ToolResultOutcome.cancelled
                interrupted_message results (ground (arith, q))
          | inr (p, q) ↦ ground (arith, q)
        ]
  after_step-AreResultsOf call calls (ok (result_step f)) c rest s i results path h =
      elim (Result-cases rest.1) [
        | inl ((rs, p), q) ↦
            subst (AreResultsOf site (call ∷ calls)) {x = f ∷ rs} (ground (arith, q)) (s, i rs p q)
        | inr (p, q) ↦ ground (arith, q)
      ]

  -- A batch that does not panic leaves one result for each call, in the order of the calls, with the
  -- call's id and name and an output within the budget; also if a cancellation, a deadline or a
  -- broken interaction ends it early.
  pub run_tool_batch-AreResultsOf :
      (enabled : Bytes → Bool) (calls : List ToolCall) (outside : ℕ → Outside Config)
      (c : Control Config Report)
      → (results : List ToolResultHistory) (path : Option FailPath)
      → (run_tool_batch valid encode enabled site calls outside c).1 ≡ ok (results, path)
      → AreResultsOf site calls results
  unfolding run_tool_batch
  run_tool_batch-AreResultsOf enabled [] outside c [] path h = tt
  run_tool_batch-AreResultsOf enabled [] outside c (r ∷ rs) path h = ground arith
  run_tool_batch-AreResultsOf enabled (call ∷ calls) outside c results path h =
      let (c', step) = batch_step valid encode enabled site call (outside 0) c in
      after_step-AreResultsOf call calls step c'
        (run_tool_batch valid encode enabled site calls (λ i. outside (suc i)) c')
        (batch_step-StepOf enabled call (outside 0) c)
        (λ rs p e. run_tool_batch-AreResultsOf enabled calls (λ i. outside (suc i)) c' rs p e)
        results path h
