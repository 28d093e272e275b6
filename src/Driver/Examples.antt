-- ===== src/Driver/Examples.antt =====
-- Tests and concrete instances of the theorems on the retries of a model request.
use minicore_runtime.Base.{
  ℕ, ◌≡◌, ◌<◌, ◌*◌, ◌^◌, refl, true, false, List, [], ◌∷◌, none, some, ok, err, arith, All, length,
  is_some,
}
use minicore_runtime.ModelError.{not_started, retryable, rate_limited}
use minicore_runtime.Diagnostic.{DiagnosticCode, DiagnosticCategory}
use minicore_runtime.PortCall.{EffectiveDeadline, turn}
use minicore_runtime.Driver.{RetryPolicySnapshot, AttemptFailure, delay_for_retry, evaluate_retry}
use minicore_runtime.Driver.Backoff.{delay_for_retry_closed}
use minicore_runtime.Driver.Run.{
  Look, Round, run_detailed, run_attempts, after_failure, precheck, wait_for_retry,
}
use minicore_runtime.Driver.Attempts.{Undelivered, run_detailed-Undelivered, run_detailed_ends}

abbrev policy : RetryPolicySnapshot
policy = record { max_attempts = 2; base_delay = 100 * 10 ^ 6 }

delay_for_retry_closed_example : delay_for_retry policy 3 none ≡ some (800 * 10 ^ 6)
delay_for_retry_closed_example = delay_for_retry_closed policy 3 none (omega arith)

abbrev deadline : EffectiveDeadline
deadline = record { instant = 10 ^ 12; source = turn }

abbrev at_time : ℕ → Look
at_time t = record { cancelled = false; now = t }

abbrev busy : AttemptFailure
busy = record {
  error = record {
    kind = rate_limited;
    delivery = not_started;
    retry_hint = retryable none;
    diagnostic = record {
      code = DiagnosticCode.model_unavailable;
      category = DiagnosticCategory.model;
      message = [];
      retryable = true;
    };
  };
  observed_event = false;
  deadline_source = none;
}

-- The first attempt is refused, the second gives the response 7.
abbrev rounds : List (Round ℕ)
rounds =
    record {
      before = at_time 0;
      attempted = err busy;
      judged_at = 5;
      waits_from = 6;
      wakes = at_time (10 ^ 9) ∷ at_time (10 ^ 12) ∷ [];
    }
    ∷ record {
      before = at_time (10 ^ 9);
      attempted = ok 7;
      judged_at = 10 ^ 9;
      waits_from = 10 ^ 9;
      wakes = at_time (10 ^ 12) ∷ [];
    }
    ∷ []

second_attempt_answers :
    run_detailed (10 ^ 15) policy (ok deadline) (at_time 0) (ok tt) rounds
    ≡ record { retried = busy ∷ []; outcome = some (ok 7) }
unfolding run_detailed run_attempts after_failure precheck wait_for_retry evaluate_retry
second_attempt_answers = refl

run_detailed-Undelivered_example :
    let retried =
      (run_detailed (10 ^ 15) policy (ok deadline) (at_time 0) (ok tt) rounds).retried in
    (length retried < 2) × All Undelivered retried
run_detailed-Undelivered_example =
    run_detailed-Undelivered (10 ^ 15) policy (ok deadline) (at_time 0) (ok tt) rounds (omega arith)

run_detailed_ends_example :
    is_some (run_detailed (10 ^ 15) policy (ok deadline) (at_time 0) (ok tt) rounds).outcome ≡ true
run_detailed_ends_example =
    run_detailed_ends (10 ^ 15) policy deadline (at_time 0) (ok tt) rounds (omega arith)
      (omega arith) refl
