-- ===== src/Driver/Run.antt =====
-- `precheck`, `wait_for_retry` and the loop of `run_detailed`. An attempt itself is its outcome.
use minicore_runtime.Base.{
  ℕ, suc, ◌+◌, Bool, List, [], ◌∷◌, Option, none, some, Result, ok, err, leb, if◌then◌else◌,
}
use minicore_runtime.ModelError.{Duration, ModelErrorKind, not_started, ModelError}
use minicore_runtime.PortCall.{DeadlineSource, EffectiveDeadline, DeadlineOverflow}
use minicore_runtime.Driver.{
  RetryPolicySnapshot, ModelDriverFailure, AttemptFailure, evaluate_retry, generated_error,
}

abbrev pub driver_failure : ModelError → Option DeadlineSource → ModelDriverFailure
driver_failure error source = record { error = error; deadline_source = source }

-- What a task finds when it looks: whether the token is cancelled, and the time.
pub record Look : Type 0 where
  pub cancelled : Bool
  pub now : ℕ

unfoldable pub precheck : EffectiveDeadline → Look → Result (Unit {0}) ModelDriverFailure
precheck deadline look =
    if look.cancelled
    then err (driver_failure (generated_error ModelErrorKind.cancelled not_started) none)
    else if leb deadline.instant look.now
    then err
        (driver_failure (generated_error ModelErrorKind.timeout not_started) (some deadline.source))
    else ok tt

-- The arms of the `select!` of `wait_for_retry`, in their order, at each wake of the task; none if
-- it still waits.
unfoldable pub wait_for_retry :
    EffectiveDeadline → ℕ → ModelError → List Look → Option (Result (Unit {0}) ModelDriverFailure)
wait_for_retry deadline retry_at error [] = none
wait_for_retry deadline retry_at error (look ∷ looks) =
    let rest = wait_for_retry deadline retry_at error looks in
    if look.cancelled
    then some (err (driver_failure error none))
    else if leb deadline.instant look.now
    then some (err (driver_failure error (some deadline.source)))
    else if leb retry_at look.now
    then some (ok tt)
    else rest

-- One round of the loop: what the check before it finds, how the attempt ends, when its failure is
-- judged, when the wait starts, and the wakes during the wait.
pub record Round {ℓ} (Response : Type ℓ) : Type ℓ where
  pub before : Look
  pub attempted : Result Response AttemptFailure
  pub judged_at : ℕ
  pub waits_from : ℕ
  pub wakes : List Look

-- The failures of the attempts that were tried again, and how the run ends; none if it still waits.
pub record Ran {ℓ} (Response : Type ℓ) : Type ℓ where
  pub retried : List AttemptFailure
  pub outcome : Option (Result Response ModelDriverFailure)

-- AttemptFailure::into_driver_failure
abbrev pub into_driver_failure : AttemptFailure → ModelDriverFailure
into_driver_failure f = driver_failure f.error f.deadline_source

module _ {ℓ} {Response : Type ℓ} where
  abbrev pub ended : Result Response ModelDriverFailure → Ran Response
  ended r = record { retried = []; outcome = some r }

  -- How the wait before the next attempt ends, and the rounds after it.
  abbrev pub waited :
      Option (Result (Unit {0}) ModelDriverFailure) → AttemptFailure → Ran Response → Ran Response
  waited none failure rest = record { retried = []; outcome = none }
  waited (some (err f)) failure rest = ended (err f)
  waited (some (ok u)) failure rest = record {
    retried = failure ∷ rest.retried;
    outcome = rest.outcome;
  }

  -- The match on the answer of `evaluate_retry`.
  abbrev pub judged :
      Option Duration
      → (Duration → Option (Result (Unit {0}) ModelDriverFailure))
      → AttemptFailure
      → Ran Response
      → Ran Response
  judged none wait failure rest = ended (err (into_driver_failure failure))
  judged (some delay) wait failure rest = waited (wait delay) failure rest

  -- The match on the failure of an attempt; `limit` bounds the instants.
  unfoldable pub after_failure :
      ℕ
      → RetryPolicySnapshot
      → EffectiveDeadline
      → ℕ
      → Round Response
      → AttemptFailure
      → Ran Response
      → Ran Response
  after_failure limit policy deadline attempt round failure rest =
      judged (evaluate_retry limit round.judged_at deadline.instant policy attempt failure)
        (λ delay. wait_for_retry deadline (round.waits_from + delay) failure.error round.wakes)
        failure rest

  -- What the check before an attempt and the attempt itself lead to.
  abbrev pub after_attempt :
      Result (Unit {0}) ModelDriverFailure
      → Result Response AttemptFailure
      → (AttemptFailure → Ran Response)
      → Ran Response
  after_attempt (err f) attempted fails = ended (err f)
  after_attempt (ok u) (ok response) fails = ended (ok response)
  after_attempt (ok u) (err failure) fails = fails failure

  -- The loop, from the attempt with the given number.
  unfoldable pub run_attempts :
      ℕ → RetryPolicySnapshot → EffectiveDeadline → ℕ → List (Round Response) → Ran Response
  run_attempts limit policy deadline attempt [] = record { retried = []; outcome = none }
  run_attempts limit policy deadline attempt (round ∷ rounds) =
      let rest = run_attempts limit policy deadline (suc attempt) rounds in
      after_attempt (precheck deadline round.before) round.attempted
        (λ failure. after_failure limit policy deadline attempt round failure rest)

  -- What the check before the first attempt and the check of the request lead to.
  abbrev pub checked_request :
      Result (Unit {0}) ModelDriverFailure
      → Result (Unit {0}) ModelError
      → Ran Response
      → Ran Response
  checked_request (err f) valid run = ended (err f)
  checked_request (ok u) (err e) run = ended (err (driver_failure e none))
  checked_request (ok u) (ok v) run = run

  -- `run_detailed`; `valid` is the answer of `validate_request` and `first` the look of the check
  -- before it.
  unfoldable pub run_detailed :
      ℕ
      → RetryPolicySnapshot
      → Result EffectiveDeadline DeadlineOverflow
      → Look
      → Result (Unit {0}) ModelError
      → List (Round Response)
      → Ran Response
  run_detailed limit policy (err e) first valid rounds =
      ended (err (driver_failure (generated_error ModelErrorKind.invalid_request not_started) none))
  run_detailed limit policy (ok deadline) first valid rounds =
      checked_request (precheck deadline first) valid (run_attempts limit policy deadline 0 rounds)
