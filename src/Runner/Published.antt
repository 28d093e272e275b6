-- ===== src/Runner/Published.antt =====
-- A runner that ends has sealed the loop and published exactly the report that it returns.
use minicore_runtime.Base.{◌≡◌, ◌≢◌, refl, Bool, false, List, Option, none, some, Result, ok, err}
use minicore_runtime.Text.{Text}
use minicore_runtime.Ids.{RuntimeId}
use minicore_runtime.Interaction.{CanonicalResult}
use minicore_runtime.Control.{
  Phase, LoopStatus, FinishSeal, clean, cancelled_prior, already_finished, phase_seal,
  phase_finished, finish_once, publish_state, send_report, ConfigRevision, active, cancel_user,
  cancel_owner_dropped, cancel_shutdown,
}
use minicore_runtime.Control.Host.{HostCall, land, Unsealed, land-Unsealed}
use minicore_runtime.Batch.{FailPath, Panic}
use minicore_runtime.Execution.{ExecutionConfig}
use minicore_runtime.Options.{LoopOptions, LoopRequest}
use minicore_runtime.Runner.{
  LoopControl, LoopReport, LoopOutcome, Totals, sealed, finish_loop, panic_report, panic_sealed,
  publish_final_states, outcome_for,
}
use minicore_runtime.Runner.Turn.{Progress, Pass}
use minicore_runtime.Runner.Loop.{
  Ended, run_passes, run_loop, run_loop_inner, finished, caught, first_progress, totals_of,
}
use minicore_runtime.Runner.Unsealed.{run_passes-Unsealed}

-- The loop is sealed, its state is published as finished, and the report that every waiter gets is
-- the one that is returned.
abbrev pub Delivered : LoopControl × Result LoopReport Panic → Type 0
Delivered (c, err e) = ⊥
Delivered (c, ok report) =
    (c.state ≡ Phase.finished)
    × (c.loop_state.status ≡ LoopStatus.finished)
    × (c.completion ≡ some report)

pub phase_seal-first :
    (phase : Phase) → phase_finished phase ≡ false → phase_seal phase ≢ already_finished
phase_seal-first active h e = cc
phase_seal-first Phase.finished h e = cc
phase_seal-first cancel_user h e = cc
phase_seal-first cancel_owner_dropped h e = cc
phase_seal-first cancel_shutdown h e = cc

sealed-Delivered :
    (id : RuntimeId) (totals : Totals) (revision : ConfigRevision) (intended : LoopOutcome)
    (c : LoopControl) (seal : FinishSeal)
    → c.state ≡ Phase.finished
    → seal ≢ already_finished
    → Delivered (sealed id totals revision intended c seal)
unfolding sealed publish_final_states publish_state send_report
sealed-Delivered id totals revision intended c clean f n = (f, refl, refl)
sealed-Delivered id totals revision intended c (cancelled_prior reason) f n = (f, refl, refl)
sealed-Delivered id totals revision intended c already_finished f n = elim (n refl) [ ]

pub finish_loop-Delivered :
    (valid : ExecutionConfig → Bool) (sealing : List (HostCall ExecutionConfig)) (path : FailPath)
    (totals : Totals) (c : LoopControl)
    → Unsealed c
    → Delivered (finish_loop valid sealing path totals c)
unfolding finish_loop finish_once
finish_loop-Delivered valid sealing path totals c u =
    let before : LoopControl = land valid sealing c in
    sealed-Delivered c.id totals c.current_revision (outcome_for c path) (finish_once before).0
      (phase_seal before.state) refl
      (phase_seal-first before.state (land-Unsealed valid sealing c u))

panic_sealed-Delivered :
    (c : LoopControl) (seal : FinishSeal)
    → c.state ≡ Phase.finished
    → seal ≢ already_finished
    → Delivered (panic_sealed c seal)
unfolding publish_state send_report
panic_sealed-Delivered c clean f n = (f, refl, refl)
panic_sealed-Delivered c (cancelled_prior reason) f n = (f, refl, refl)
panic_sealed-Delivered c already_finished f n = elim (n refl) [ ]

panic_report-Delivered : (c : LoopControl) → Unsealed c → Delivered (panic_report c)
unfolding panic_report finish_once
panic_report-Delivered c u =
    panic_sealed-Delivered (finish_once c).0 (phase_seal c.state) refl (phase_seal-first c.state u)

-- The same of a runner that may still run.
abbrev pub Reported : LoopControl × Option (Result LoopReport Panic) → Type 0
Reported (c, none) = Unit
Reported (c, some r) = Delivered (c, r)

module _ (valid : ExecutionConfig → Bool) (encode : CanonicalResult → Text)
    (options : LoopOptions) where
  -- The end of the passes, then the end of the runner.
  ended-Reported :
      (sealing panicking : List (HostCall ExecutionConfig)) (end : Ended)
      → Unsealed end.0
      → Reported (caught valid encode options panicking (finished valid encode options sealing end))
  ended-Reported sealing panicking (c, none) u = tt
  ended-Reported sealing panicking (c, some (err e)) u =
      panic_report-Delivered (land valid panicking c) (land-Unsealed valid panicking c u)
  ended-Reported sealing panicking (c, some (ok (path, p))) u =
      caught_delivered (finish_loop valid sealing path (totals_of valid encode options p) c)
        (finish_loop-Delivered valid sealing path (totals_of valid encode options p) c u)
    where
      caught_delivered :
          (x : LoopControl × Result LoopReport Panic)
          → Delivered x
          → Reported (caught valid encode options panicking (x.0, some x.1))
      caught_delivered (c, ok report) d = d
      caught_delivered (c, err e) d = elim d [ ]

  -- A runner that starts with a loop that is not sealed and that ends, by itself or by a panic,
  -- returns a report; then the loop is sealed, its published state is finished, and the report that
  -- was published is the returned one.
  pub run_loop-Reported :
      (request : LoopRequest) (passes : List Pass)
      (sealing panicking : List (HostCall ExecutionConfig)) (c : LoopControl)
      → Unsealed c
      → Reported (run_loop valid encode options request passes sealing panicking c)
  unfolding run_loop run_loop_inner
  run_loop-Reported request passes sealing panicking c u =
      let p : Progress = first_progress valid encode options c.id request in
      ended-Reported sealing panicking (run_passes valid encode options passes c p)
        (run_passes-Unsealed valid encode options passes c p u)
