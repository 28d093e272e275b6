-- ===== src/Assembler/Attempt.antt =====
-- src/model/driver.rs, run_attempt: the start of the model, and the loop that pushes the events of its
-- stream. A call of the model is the list of the wakes of the task.
use minicore_runtime.Base.{
  leb, Bool, true, false, List, [], ◌∷◌, Option, none, some, Result, ok, err, if◌then◌else◌, ◌>>=◌,
  map_err, not, ◌&&◌, is_some, is_ok,
}
use minicore_runtime.Text.{Text}
use minicore_runtime.Text.Stream.{delta_panics}
use minicore_runtime.Json.{JsonValue, Serialized}
use minicore_runtime.Limits.{LoopLimits}
use minicore_runtime.ModelError.{ModelError, ModelErrorKind, DeliveryState}
use minicore_runtime.PortCall.{
  DeadlineSource, EffectiveDeadline, Wake, Poll, pending, panics, ready,
}
use minicore_runtime.Driver.{
  AttemptFailure, generated_error, observed_delivery, normalize_after_event,
}
use minicore_runtime.Batch.{Panic, panic}
use minicore_runtime.Execution.{ToolSpec}
use minicore_runtime.Response.{
  ModelEvent, ModelResponse, text_delta, reasoning_delta, validate_event,
}
use minicore_runtime.Assembler.{ModelDriverProgress, Assembler, Pushed, new_assembler, push}
use minicore_runtime.Assembler.Finish.{Finished, finish_response}

-- AttemptFailure::new and AttemptFailure::deadline
abbrev pub attempt_failure : ModelError → Bool → Option DeadlineSource → AttemptFailure
attempt_failure error observed_event source = record {
  error = error;
  observed_event = observed_event;
  deadline_source = source;
}

abbrev pub Attempted : Type 0
Attempted = Result (Result ModelResponse AttemptFailure) Panic

abbrev pub failed : ModelError → Bool → Option DeadlineSource → Attempted
failed error observed_event source = ok (err (attempt_failure error observed_event source))

-- What one wake of the loop leads to.
pub data Received : Type 0 where
  waits : Received
  pushed : Assembler → Option ModelDriverProgress → Received
  ended : Attempted → Received

abbrev pub with_progress {ℓ} : {A : Type ℓ} → Option A → List A → List A
with_progress none xs = xs
with_progress (some x) xs = x ∷ xs

abbrev pub after_push : Pushed → Received
after_push (ok (a, progress)) = pushed a progress
after_push (err e) = ended (failed e true none)

abbrev pub after_finish : Bool → Finished → Attempted
after_finish observed_event finished =
    finished >>= λ r. ok (map_err (λ e. attempt_failure e observed_event none) r)

abbrev pub generated_failure :
    ModelErrorKind → DeliveryState → Bool → Option DeadlineSource → Attempted
generated_failure kind delivery = failed (generated_error kind delivery)

-- The `expect` in `normalized_delta`, when `push` gets to it.
abbrev delta_expects : Assembler → ModelEvent → Bool
delta_expects a (text_delta delta) = delta_panics delta a.text_ended_with_cr
delta_expects a (reasoning_delta delta) = delta_panics delta a.reasoning_ended_with_cr
delta_expects a _ = false

unfoldable pub push_panics : Assembler → ModelEvent → Bool
unfolding delta_panics validate_event
push_panics a event =
    not (is_some a.finish_reason) && is_ok (validate_event event) && delta_expects a event

module _ (parse : Text → Option JsonValue) (to_writer : JsonValue → Serialized) where
  abbrev pub pushes : Assembler → ModelEvent → Received
  pushes a event =
      if push_panics a event then ended (err panic) else after_push (push parse to_writer a event)

  -- The match on what `next` gave.
  abbrev pub receive : Assembler → Poll (Option ModelEvent) ModelError → Received
  receive a pending = waits
  receive a panics = ended (
      generated_failure ModelErrorKind.panicked (observed_delivery a.observed_event)
        a.observed_event none)
  receive a (ready (err error)) =
      ended (failed (normalize_after_event error a.observed_event) a.observed_event none)
  receive a (ready (ok none)) = ended (after_finish a.observed_event (finish_response a))
  receive a (ready (ok (some event))) = pushes (record a { observed_event = true }) event

  -- The arms of `select!`, in their order.
  unfoldable pub next_event :
      EffectiveDeadline → Assembler → Wake (Option ModelEvent) ModelError → Received
  unfolding push push_panics finish_response generated_error observed_delivery normalize_after_event
  next_event deadline a wake =
      let delivery = observed_delivery a.observed_event in
      if wake.parent_cancelled
      then ended (generated_failure ModelErrorKind.cancelled delivery a.observed_event none)
      else if leb deadline.instant wake.now
      then ended (
          generated_failure ModelErrorKind.timeout delivery a.observed_event (some deadline.source))
      else receive a wake.future

  -- The loop on the stream; none if it still waits.
  unfoldable pub read_stream :
      EffectiveDeadline → Assembler → List (Wake (Option ModelEvent) ModelError) → Option Attempted
  unfolding next_event
  read_stream deadline a [] = none
  read_stream deadline a (wake ∷ wakes) = elim (next_event deadline a wake) [
    | waits ↦ read_stream deadline a wakes
    | pushed a' progress ↦ read_stream deadline a' wakes
    | ended r ↦ some r
  ]

  -- The progress that the loop sends, in its order.
  unfoldable pub stream_progress :
      EffectiveDeadline
      → Assembler
      → List (Wake (Option ModelEvent) ModelError)
      → List ModelDriverProgress
  unfolding next_event
  stream_progress deadline a [] = []
  stream_progress deadline a (wake ∷ wakes) = elim (next_event deadline a wake) [
    | waits ↦ stream_progress deadline a wakes
    | pushed a' progress ↦ with_progress progress (stream_progress deadline a' wakes)
    | ended r ↦ []
  ]

-- What the future of `start` gives when it is polled: a stream, of which only the events matter.
abbrev pub starts : Poll (Unit {0}) ModelError → Option (Result (Unit {0}) Attempted)
starts pending = none
starts panics =
    some (err (generated_failure ModelErrorKind.panicked DeliveryState.unknown false none))
starts (ready (err error)) = some (err (failed error false none))
starts (ready (ok stream)) = some (ok tt)

-- The `select!` on the start, at each wake; none if it still waits.
unfoldable pub await_start :
    EffectiveDeadline → List (Wake (Unit {0}) ModelError) → Option (Result (Unit {0}) Attempted)
unfolding generated_error
await_start deadline [] = none
await_start deadline (wake ∷ wakes) =
    let rest = await_start deadline wakes in
    if wake.parent_cancelled
    then some (err (generated_failure ModelErrorKind.cancelled DeliveryState.unknown false none))
    else if leb deadline.instant wake.now
    then some (
        err (
          generated_failure ModelErrorKind.timeout DeliveryState.unknown false
            (some deadline.source)))
    else elim (starts wake.future) [ none ↦ rest | some r ↦ some r ]

abbrev pub after_start : Option Attempted → Option (Result (Unit {0}) Attempted) → Option Attempted
after_start streamed none = none
after_start streamed (some (err r)) = some r
after_start streamed (some (ok u)) = streamed

-- Whether dropping the future of `start`, and the stream that it gave, panics.
pub record DropPanics : Type 0 where
  pub start_future : Bool
  pub stream : Bool

-- The end of a scope that drops a value of the host: a panic of its drop leaves the scope.
abbrev pub dropped : Bool → Option Attempted → Option Attempted
dropped drop_panics none = none
dropped drop_panics (some r) = if drop_panics then some (err panic) else some r

-- `start_panics` tells what the call of `start` itself does. The future and the stream are dropped when
-- the attempt ends, however it ends.
unfoldable pub run_attempt :
    (Text → Option JsonValue)
    → (JsonValue → Serialized)
    → List ToolSpec
    → LoopLimits
    → EffectiveDeadline
    → (start_panics : Bool) → DropPanics
    → List (Wake (Unit {0}) ModelError)
    → List (Wake (Option ModelEvent) ModelError)
    → Option Attempted
unfolding read_stream await_start
run_attempt parse to_writer tools limits deadline start_panics drops starting wakes =
    if start_panics
    then some (generated_failure ModelErrorKind.panicked DeliveryState.unknown false none)
    else dropped drops.start_future (
        after_start
          (dropped drops.stream
            (read_stream parse to_writer deadline (new_assembler tools limits) wakes))
          (await_start deadline starting))

abbrev pub after_start_progress {ℓ κ μ} :
    {A : Type ℓ} {B : Type κ} {E : Type μ} → List A → Option (Result B E) → List A
after_start_progress sent (some (ok u)) = sent
after_start_progress sent _ = []

-- The progress that an attempt sends.
unfoldable pub attempt_progress :
    (Text → Option JsonValue)
    → (JsonValue → Serialized)
    → List ToolSpec
    → LoopLimits
    → EffectiveDeadline
    → (start_panics : Bool) → List (Wake (Unit {0}) ModelError)
    → List (Wake (Option ModelEvent) ModelError)
    → List ModelDriverProgress
unfolding stream_progress await_start
attempt_progress parse to_writer tools limits deadline start_panics starting wakes =
    if start_panics
    then []
    else after_start_progress
        (stream_progress parse to_writer deadline (new_assembler tools limits) wakes)
        (await_start deadline starting)
