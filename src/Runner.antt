-- ===== src/Runner.antt =====
-- src/agent_loop/runner.rs: how a loop ends. The outcome that the loop comes to, the seal, and the
-- one report.
pub mod Messages
pub mod Turn
pub mod Pass
pub mod Loop
pub mod Exchange
pub mod Appended
pub mod Unsealed
pub mod Published
pub mod Report
pub mod Counts
pub mod Rounds
pub mod Bounds
pub mod Breaks
pub mod Completed
pub mod Examples
use minicore_runtime.Base.{ℕ, Bool, true, false, List, [], Option, none, some, Result, ok, err}
use minicore_runtime.Text.{Text}
use minicore_runtime.Ids.{RuntimeId}
use minicore_runtime.Diagnostic.{DiagnosticSummary, DiagnosticCode, DiagnosticCategory}
use minicore_runtime.ModelError.{ModelError}
use minicore_runtime.Usage.{Usage, default_usage}
use minicore_runtime.Control.{
  Control, CancelReason, ConfigRevision, FinishSeal, clean, cancelled_prior, already_finished,
  LoopStatus, LoopState, new_state, PendingConfig, cancel_reason, finish_once, publish_state,
  send_report, finishing,
}
use minicore_runtime.Control.Host.{HostCall, land}
use minicore_runtime.Batch.{FailPath, Panic, panic}
use minicore_runtime.Execution.{ExecutionConfig}
use minicore_runtime.History.{HistoryItem}
use minicore_runtime.Runner.Messages.{
  prompt_text, output_text, refused_text, filtered_text, policy_text, interaction_text, rounds_text,
  internal_text, panicked_text,
}

-- LoopFailureKind of src/agent_loop/mod.rs
pub data LoopFailureKind : Type 0 where
  prompt model invalid_model_response output_limit refused content_filtered : LoopFailureKind
  policy interaction max_tool_rounds internal : LoopFailureKind

pub record LoopFailure : Type 0 where
  pub kind : LoopFailureKind
  pub diagnostic : DiagnosticSummary
  pub model_error : Option ModelError

pub data LoopOutcome : Type 0 where
  completed : LoopOutcome
  cancelled : CancelReason → LoopOutcome
  failed : LoopFailure → LoopOutcome

pub record LoopReport : Type 0 where
  pub loop_id : RuntimeId
  pub outcome : LoopOutcome
  pub appended : List HistoryItem
  pub usage : Usage
  pub requests : ℕ
  pub tool_rounds : ℕ
  pub final_config_revision : ConfigRevision

-- The control plane of a loop that runs with these configurations and gives these reports.
abbrev pub LoopControl : Type 0
LoopControl = Control ExecutionConfig LoopReport

-- failure; the static texts are valid.
abbrev pub failure : LoopFailureKind → DiagnosticCode → DiagnosticCategory → Text → LoopFailure
failure kind code category message = record {
  kind = kind;
  diagnostic = record { code = code; category = category; message = message; retryable = false };
  model_error = none;
}

abbrev pub model_failure : LoopFailureKind → ModelError → LoopFailure
model_failure kind error = record {
  kind = kind;
  diagnostic = error.diagnostic;
  model_error = some error;
}

unfoldable pub outcome_for : LoopControl → FailPath → LoopOutcome
outcome_for control FailPath.completed = completed
outcome_for control FailPath.cancelled = cancelled (cancel_reason control)
outcome_for control FailPath.deadline = cancelled CancelReason.deadline
outcome_for control FailPath.prompt = failed (
    failure LoopFailureKind.prompt DiagnosticCode.context_failed DiagnosticCategory.context
      prompt_text)
outcome_for control (FailPath.model error) = failed (model_failure LoopFailureKind.model error)
outcome_for control (FailPath.invalid_model_response error) =
    failed (model_failure LoopFailureKind.invalid_model_response error)
outcome_for control FailPath.output_limit = failed (
    failure LoopFailureKind.output_limit DiagnosticCode.model_malformed_response
      DiagnosticCategory.model output_text)
outcome_for control FailPath.refused = failed (
    failure LoopFailureKind.refused DiagnosticCode.model_malformed_response DiagnosticCategory.model
      refused_text)
outcome_for control FailPath.content_filtered = failed (
    failure LoopFailureKind.content_filtered DiagnosticCode.model_malformed_response
      DiagnosticCategory.model filtered_text)
outcome_for control FailPath.policy = failed (
    failure LoopFailureKind.policy DiagnosticCode.policy_failed DiagnosticCategory.policy
      policy_text)
outcome_for control FailPath.interaction = failed (
    failure LoopFailureKind.interaction DiagnosticCode.interaction_not_found
      DiagnosticCategory.internal interaction_text)
outcome_for control FailPath.max_tool_rounds = failed (
    failure LoopFailureKind.max_tool_rounds DiagnosticCode.turn_budget_exceeded
      DiagnosticCategory.internal rounds_text)
outcome_for control FailPath.internal = failed (
    failure LoopFailureKind.internal DiagnosticCode.internal DiagnosticCategory.internal
      internal_text)

-- What the loop has come to when it ends: what `finish_loop` is given beside the path.
pub record Totals : Type 0 where
  pub appended : List HistoryItem
  pub usage : Usage
  pub requests : ℕ
  pub last_issued_request_index : Option ℕ
  pub tool_rounds : ℕ

abbrev pub report_of : RuntimeId → LoopOutcome → Totals → ConfigRevision → LoopReport
report_of id outcome totals revision = record {
  loop_id = id;
  outcome = outcome;
  appended = totals.appended;
  usage = totals.usage;
  requests = totals.requests;
  tool_rounds = totals.tool_rounds;
  final_config_revision = revision;
}

abbrev pub or_zero : Option ℕ → ℕ
or_zero none = 0
or_zero (some n) = n

-- CancellationToken::cancel
abbrev pub cancel_token : LoopControl → LoopControl
cancel_token c = record c { token = true }

unfoldable pub publish_final_states : RuntimeId → ℕ → ConfigRevision → LoopControl → LoopControl
unfolding publish_state
publish_final_states id request_index revision c =
    let model = c.loop_state.model in
    publish_state
      (record (new_state id LoopStatus.finished request_index revision) { model = model })
      (publish_state (record (new_state id finishing request_index revision) { model = model }) c)

-- What both ends do when the state had been sealed before.
abbrev pub published_report : LoopControl → LoopControl × Result LoopReport Panic
published_report c = elim c.completion [ none ↦ (c, err panic) | some report ↦ (c, ok report) ]

abbrev pub delivered :
    RuntimeId
    → Totals
    → ConfigRevision
    → LoopControl
    → LoopOutcome
    → LoopControl × Result LoopReport Panic
delivered id totals revision c outcome =
    let report = report_of id outcome totals revision in
    (
      cancel_token (
          send_report report
            (publish_final_states id (or_zero totals.last_issued_request_index) revision c)),
      ok report,
    )

-- The match on the seal: a cancellation that was first is authoritative.
unfoldable pub sealed :
    RuntimeId
    → Totals
    → ConfigRevision
    → LoopOutcome
    → LoopControl
    → FinishSeal
    → LoopControl × Result LoopReport Panic
unfolding publish_final_states send_report
sealed id totals revision intended c clean = delivered id totals revision c intended
sealed id totals revision intended c (cancelled_prior reason) =
    delivered id totals revision c (LoopOutcome.cancelled reason)
sealed id totals revision intended c already_finished = published_report c

-- finish_loop; `sealing` is what the handles do between the look at the reason of a cancellation and
-- the seal.
unfoldable pub finish_loop :
    (ExecutionConfig → Bool)
    → List (HostCall ExecutionConfig)
    → FailPath
    → Totals
    → LoopControl
    → LoopControl × Result LoopReport Panic
unfolding sealed outcome_for finish_once
finish_loop valid sealing path totals c =
    let (c', (seal, discarded)) = finish_once (land valid sealing c) in
    sealed c.id totals c.current_revision (outcome_for c path) c' seal

-- The report of a runner that panicked.
abbrev pub panicked_totals : Totals
panicked_totals = record {
  appended = [];
  usage = default_usage;
  requests = 0;
  last_issued_request_index = none;
  tool_rounds = 0;
}

abbrev pub panicked_outcome : LoopOutcome
panicked_outcome = LoopOutcome.failed (
    failure LoopFailureKind.internal DiagnosticCode.internal DiagnosticCategory.internal
      panicked_text)

abbrev pub panic_sealed : LoopControl → FinishSeal → LoopControl × Result LoopReport Panic
panic_sealed c already_finished = published_report c
panic_sealed c _ =
    let report = report_of c.id panicked_outcome panicked_totals 0 in
    (
      cancel_token (send_report report (publish_state (new_state c.id LoopStatus.finished 0 0) c)),
      ok report,
    )

unfoldable pub panic_report : LoopControl → LoopControl × Result LoopReport Panic
unfolding finish_once publish_state send_report
panic_report c = let (c', (seal, discarded)) = finish_once c in panic_sealed c' seal
