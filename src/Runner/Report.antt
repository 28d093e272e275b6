-- ===== src/Runner/Report.antt =====
-- What holds of every report that the end of the passes may lead to holds of the report of the
-- runner.
use minicore_runtime.Base.{◌≡◌, ◌≢◌, refl, Bool, List, Option, none, some, Result, ok, err}
use minicore_runtime.Text.{Text}
use minicore_runtime.Ids.{RuntimeId}
use minicore_runtime.Interaction.{CanonicalResult}
use minicore_runtime.Control.{
  FinishSeal, clean, cancelled_prior, already_finished, phase_seal, finish_once, ConfigRevision,
}
use minicore_runtime.Control.Host.{HostCall, land, Unsealed, land-Unsealed}
use minicore_runtime.Batch.{FailPath, Panic}
use minicore_runtime.Execution.{ExecutionConfig}
use minicore_runtime.Options.{LoopOptions, LoopRequest}
use minicore_runtime.Runner.{
  LoopControl, LoopReport, LoopOutcome, Totals, report_of, sealed, finish_loop, panic_report,
  panic_sealed, outcome_for, panicked_outcome, panicked_totals,
}
use minicore_runtime.Runner.Turn.{Pass}
use minicore_runtime.Runner.Loop.{
  Ended, run_passes, run_loop, run_loop_inner, finished, caught, first_progress, totals_of,
}
use minicore_runtime.Runner.Unsealed.{run_passes-Unsealed}
use minicore_runtime.Runner.Published.{phase_seal-first}

-- Only a path that completes has the outcome that says so.
outcome_for-completed :
    (c : LoopControl) (path : FailPath)
    → outcome_for c path ≡ LoopOutcome.completed
    → path ≡ FailPath.completed
unfolding outcome_for
outcome_for-completed c FailPath.completed e = refl
outcome_for-completed c FailPath.cancelled e = cc
outcome_for-completed c FailPath.deadline e = cc
outcome_for-completed c FailPath.prompt e = cc
outcome_for-completed c (FailPath.model error) e = cc
outcome_for-completed c (FailPath.invalid_model_response error) e = cc
outcome_for-completed c FailPath.output_limit e = cc
outcome_for-completed c FailPath.refused e = cc
outcome_for-completed c FailPath.content_filtered e = cc
outcome_for-completed c FailPath.policy e = cc
outcome_for-completed c FailPath.interaction e = cc
outcome_for-completed c FailPath.max_tool_rounds e = cc
outcome_for-completed c FailPath.internal e = cc

module _ (Q : LoopReport → Type 0) where
  -- There is a report, and it has the property; nothing is said of a loop that still runs.
  abbrev pub Has : Result LoopReport Panic → Type 0
  Has (err e) = ⊥
  Has (ok report) = Q report

  abbrev pub HasReport : LoopControl × Option (Result LoopReport Panic) → Type 0
  HasReport (c, none) = Unit
  HasReport (c, some r) = Has r

  sealed-Has :
      (id : RuntimeId) (totals : Totals) (revision : ConfigRevision) (intended : LoopOutcome)
      (c : LoopControl) (seal : FinishSeal)
      → seal ≢ already_finished
      → ((outcome : LoopOutcome)
          → (outcome ≡ LoopOutcome.completed → intended ≡ LoopOutcome.completed)
          → Q (report_of id outcome totals revision))
      → Has (sealed id totals revision intended c seal).1
  unfolding sealed
  sealed-Has id totals revision intended c clean n q = q intended (λ e. e)
  sealed-Has id totals revision intended c (cancelled_prior reason) n q =
      q (LoopOutcome.cancelled reason) (λ e. cc)
  sealed-Has id totals revision intended c already_finished n q = elim (n refl) [ ]

  panic_sealed-Has :
      (c : LoopControl) (seal : FinishSeal)
      → seal ≢ already_finished
      → ((id : RuntimeId) → Q (report_of id panicked_outcome panicked_totals 0))
      → Has (panic_sealed c seal).1
  panic_sealed-Has c clean n q = q c.id
  panic_sealed-Has c (cancelled_prior reason) n q = q c.id
  panic_sealed-Has c already_finished n q = elim (n refl) [ ]

  panic_report-Has :
      (c : LoopControl)
      → Unsealed c
      → ((id : RuntimeId) → Q (report_of id panicked_outcome panicked_totals 0))
      → Has (panic_report c).1
  unfolding panic_report finish_once
  panic_report-Has c u q =
      panic_sealed-Has (finish_once c).0 (phase_seal c.state) (phase_seal-first c.state u) q

  module _ (valid : ExecutionConfig → Bool) (encode : CanonicalResult → Text)
      (options : LoopOptions) where
    -- Every report that the end of the passes may lead to has the property.
    abbrev pub LeadsTo : Ended → Type 0
    LeadsTo (c, none) = Unit
    LeadsTo (c, some (err e)) = Unit
    LeadsTo (c, some (ok (path, p))) =
        (id : RuntimeId) (outcome : LoopOutcome) (revision : ConfigRevision)
        → (outcome ≡ LoopOutcome.completed → path ≡ FailPath.completed)
        → Q (report_of id outcome (totals_of valid encode options p) revision)

    caught-HasReport :
        (panicking : List (HostCall ExecutionConfig)) (x : LoopControl × Result LoopReport Panic)
        → Has x.1
        → HasReport (caught valid encode options panicking (x.0, some x.1))
    caught-HasReport panicking (c, ok report) h = h
    caught-HasReport panicking (c, err e) h = elim h [ ]

    ended-HasReport :
        (sealing panicking : List (HostCall ExecutionConfig)) (end : Ended)
        → Unsealed end.0
        → ((id : RuntimeId) → Q (report_of id panicked_outcome panicked_totals 0))
        → LeadsTo end
        → HasReport
            (caught valid encode options panicking (finished valid encode options sealing end))
    unfolding finish_loop finish_once
    ended-HasReport sealing panicking (c, none) u q w = tt
    ended-HasReport sealing panicking (c, some (err e)) u q w =
        panic_report-Has (land valid panicking c) (land-Unsealed valid panicking c u) q
    ended-HasReport sealing panicking (c, some (ok (path, p))) u q w =
        let c' : LoopControl = land valid sealing c in
        let totals : Totals = totals_of valid encode options p in
        caught-HasReport panicking (finish_loop valid sealing path totals c) (
          sealed-Has c.id totals c.current_revision (outcome_for c path) (finish_once c').0
            (phase_seal c'.state) (phase_seal-first c'.state (land-Unsealed valid sealing c u))
            (λ outcome e.
              w c.id outcome c.current_revision (λ d. outcome_for-completed c path (e d))))

    pub run_loop-HasReport :
        (request : LoopRequest) (passes : List Pass)
        (sealing panicking : List (HostCall ExecutionConfig)) (c : LoopControl)
        → Unsealed c
        → ((id : RuntimeId) → Q (report_of id panicked_outcome panicked_totals 0))
        → LeadsTo (
            run_passes valid encode options passes c
              (first_progress valid encode options c.id request))
        → HasReport (run_loop valid encode options request passes sealing panicking c)
    unfolding run_loop run_loop_inner
    run_loop-HasReport request passes sealing panicking c u q w =
        let p = first_progress valid encode options c.id request in
        ended-HasReport sealing panicking (run_passes valid encode options passes c p)
          (run_passes-Unsealed valid encode options passes c p u) q w
