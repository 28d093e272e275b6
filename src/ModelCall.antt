-- ===== src/ModelCall.antt =====
-- src/model/driver.rs: a call of the driver with the attempts that it makes, and the progress that these
-- send.
pub mod Deltas
pub mod Texts
pub mod Shown
pub mod Returned
pub mod Examples
use minicore_runtime.Base.{
  ℕ, suc, ◌+◌, Bool, true, false, List, [], ◌∷◌, ◌++◌, Option, none, some, Result, ok, err, is_ok,
  if◌then◌else◌,
}
use minicore_runtime.Text.{Text}
use minicore_runtime.Json.{JsonValue, Serialized}
use minicore_runtime.Limits.{LoopLimits}
use minicore_runtime.ModelError.{ModelError, Duration}
use minicore_runtime.PortCall.{EffectiveDeadline, Wake, DeadlineOverflow}
use minicore_runtime.Driver.{
  RetryPolicySnapshot, ModelDriverFailure, AttemptFailure, evaluate_retry,
}
use minicore_runtime.Driver.Run.{Look, Round, Ran, precheck, wait_for_retry, run_detailed}
use minicore_runtime.Execution.{ToolSpec}
use minicore_runtime.Response.{ModelEvent, ModelResponse}
use minicore_runtime.Assembler.{ModelDriverProgress}
use minicore_runtime.Assembler.Attempt.{run_attempt, attempt_progress, Attempted, DropPanics}

-- What an attempt meets: the look before it, whether `start` panics and dropping what it
-- gave does, the wakes of the start and of the
-- stream, and, if it fails, when the failure is judged and the wait for the next one.
pub record AttemptRun : Type 0 where
  pub before : Look
  pub start_panics : Bool
  pub drops : DropPanics
  pub starting : List (Wake (Unit {0}) ModelError)
  pub wakes : List (Wake (Option ModelEvent) ModelError)
  pub judged_at : ℕ
  pub waits_from : ℕ
  pub retry_wakes : List Look

abbrev pub round_of : AttemptRun → Result ModelResponse AttemptFailure → Round ModelResponse
round_of run attempted = record {
  before = run.before;
  attempted = attempted;
  judged_at = run.judged_at;
  waits_from = run.waits_from;
  wakes = run.retry_wakes;
}

abbrev pub is_go : Option (Result (Unit {0}) ModelDriverFailure) → Bool
is_go (some (ok u)) = true
is_go _ = false

module _ (parse : Text → Option JsonValue) (to_writer : JsonValue → Serialized)
    (tools : List ToolSpec) (limits : LoopLimits) (limit : ℕ) (policy : RetryPolicySnapshot)
    (deadline : EffectiveDeadline) where
  abbrev pub attempted : AttemptRun → Option Attempted
  attempted run =
      run_attempt parse to_writer tools limits deadline run.start_panics run.drops run.starting
        run.wakes

  abbrev pub sent_progress : AttemptRun → List ModelDriverProgress
  sent_progress run =
      attempt_progress parse to_writer tools limits deadline run.start_panics run.starting run.wakes

  -- The rounds of the loop of `run_detailed`, up to an attempt that does not end.
  unfoldable pub rounds_of : List AttemptRun → List (Round ModelResponse)
  rounds_of [] = []
  rounds_of (run ∷ runs) = elim (attempted run) [
    | none ↦ []
    | some (err p) ↦ []
    | some (ok r) ↦ round_of run r ∷ rounds_of runs
  ]

  -- Whether a failure is followed by another attempt.
  abbrev pub goes_on : ℕ → AttemptRun → AttemptFailure → Option Duration → Bool
  goes_on attempt run failure none = false
  goes_on attempt run failure (some delay) =
      is_go (wait_for_retry deadline (run.waits_from + delay) failure.error run.retry_wakes)

  abbrev pub tried_again : ℕ → AttemptRun → Option Attempted → Bool
  tried_again attempt run (some (ok (err failure))) =
      goes_on attempt run failure
        (evaluate_retry limit run.judged_at deadline.instant policy attempt failure)
  tried_again attempt run _ = false

  -- The progress of the attempts that are made, from the one with the given number.
  unfoldable pub progress_from : ℕ → List AttemptRun → List ModelDriverProgress
  progress_from attempt [] = []
  progress_from attempt (run ∷ runs) =
      let rest = progress_from (suc attempt) runs in
      elim (precheck deadline run.before) [
        | err f ↦ []
        | ok u ↦ sent_progress run ++ (if tried_again attempt run (attempted run) then rest else [])
      ]

  abbrev pub checked_progress :
      Result (Unit {0}) ModelDriverFailure
      → Result (Unit {0}) ModelError
      → List ModelDriverProgress
      → List ModelDriverProgress
  checked_progress (ok u) (ok v) sent = sent
  checked_progress _ _ sent = []

  -- A call of `run_detailed`, and the progress that it sends.
  unfoldable pub run_call :
      Look → Result (Unit {0}) ModelError → List AttemptRun → Ran ModelResponse
  unfolding rounds_of
  run_call first valid runs = run_detailed limit policy (ok deadline) first valid (rounds_of runs)

  unfoldable pub call_progress :
      Look → Result (Unit {0}) ModelError → List AttemptRun → List ModelDriverProgress
  unfolding progress_from
  call_progress first valid runs =
      checked_progress (precheck deadline first) valid (progress_from 0 runs)
