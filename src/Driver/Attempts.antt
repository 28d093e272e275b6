-- ===== src/Driver/Attempts.antt =====
-- How often a model request is sent: at most `max_attempts` times, and again only after a failure
-- that left no trace at the provider; and the run ends.
use minicore_runtime.Base.{
  ℕ, suc, ◌+◌, ◌≡◌, refl, ◌≤◌, ◌<◌, Bool, true, false, ◌||◌, List, [], ◌∷◌, Option, none, some,
  Result, ok, err, All, all, any, length, is_some, arith, leb, Option-cases, inl, inr,
}
use minicore_runtime.ModelError.{
  Duration, RetryHint, never, retryable, not_started, started, unknown, DeliveryState, ModelError,
}
use minicore_runtime.ModelError.Laws.{is_retryable}
use minicore_runtime.PortCall.{EffectiveDeadline, DeadlineOverflow}
use minicore_runtime.Driver.{
  RetryPolicySnapshot, AttemptFailure, ModelDriverFailure, evaluate_retry, is_not_started,
  hinted_delay,
}
use minicore_runtime.Driver.Run.{
  Look, Round, Ran, run_attempts, after_failure, wait_for_retry, precheck, ended, waited, judged,
  after_attempt, checked_request, driver_failure, run_detailed,
}

-- The failure came before any event of the stream, the request was not delivered, and the provider
-- says that it may be sent again.
abbrev pub Undelivered : AttemptFailure → Type 0
Undelivered f =
    (f.observed_event ≡ false)
    × (f.error.delivery ≡ not_started)
    × (is_retryable f.error.retry_hint ≡ true)

not_started_only : (d : DeliveryState) → is_not_started d ≡ true → d ≡ not_started
not_started_only not_started h = refl
not_started_only started h = cc
not_started_only unknown h = cc

hinted_only :
    (p : RetryPolicySnapshot) (a : ℕ) (h : RetryHint) (d : ℕ)
    → hinted_delay p a h ≡ some d
    → is_retryable h ≡ true
hinted_only p a never d e = cc
hinted_only p a (retryable r) d e = refl

pub evaluate_retry-some :
    (limit now deadline : ℕ) (p : RetryPolicySnapshot) (a : ℕ) (f : AttemptFailure) (d : ℕ)
    → evaluate_retry limit now deadline p a f ≡ some d
    → (a + 1 < p.max_attempts) × Undelivered f
unfolding evaluate_retry
evaluate_retry-some limit now deadline p a f d h =
    elim (Option-cases (hinted_delay p a f.error.retry_hint)) [
      | inl n ↦ ground (arith, n)
      | inr (x, s) ↦
          ground
            (arith, s, not_started_only f.error.delivery, hinted_only p a f.error.retry_hint x s)
    ]

wait_for_retry_ends :
    (d : EffectiveDeadline) (t : ℕ) (e : ModelError) (looks : List Look)
    → any (λ look. look.cancelled || leb d.instant look.now) looks ≡ true
    → is_some (wait_for_retry d t e looks) ≡ true
unfolding wait_for_retry
wait_for_retry_ends d t e [] h = ground arith
wait_for_retry_ends d t e (look ∷ looks) h = ground (arith, wait_for_retry_ends d t e looks)

module _ {ℓ} {Response : Type ℓ} where
  Bounded : RetryPolicySnapshot → ℕ → Ran Response → Type 0
  Bounded p a r = (a + length r.retried < p.max_attempts) × All Undelivered r.retried

  -- What holds of every ended run and of every failure that is judged holds of the whole step.
  after_attempt_cases {κ} :
      (P : Ran Response → Type κ) (checked : Result (Unit {0}) ModelDriverFailure)
      (attempted : Result Response AttemptFailure) (fails : AttemptFailure → Ran Response)
      → ((r : Result Response ModelDriverFailure) → P (ended r))
      → ((f : AttemptFailure) → P (fails f))
      → P (after_attempt checked attempted fails)
  after_attempt_cases P (err f) attempted fails e k = e (err f)
  after_attempt_cases P (ok u) (ok r) fails e k = e (ok r)
  after_attempt_cases P (ok u) (err f) fails e k = k f

  waited-Bounded :
      (p : RetryPolicySnapshot) (a : ℕ) (w : Option (Result (Unit {0}) ModelDriverFailure))
      (f : AttemptFailure) (rest : Ran Response)
      → a < p.max_attempts
      → Undelivered f
      → Bounded p (suc a) rest
      → Bounded p a (waited w f rest)
  unfolding Bounded
  waited-Bounded p a none f rest l u b = (omega arith, tt)
  waited-Bounded p a (some (err e)) f rest l u b = (omega arith, tt)
  waited-Bounded p a (some (ok v)) f rest l u b = (omega (arith, b.0), (u, b.1))

  judged-Bounded :
      (p : RetryPolicySnapshot) (a : ℕ) (o : Option Duration)
      (wait : Duration → Option (Result (Unit {0}) ModelDriverFailure)) (f : AttemptFailure)
      (rest : Ran Response)
      → a < p.max_attempts
      → ((d : Duration) → o ≡ some d → (a + 1 < p.max_attempts) × Undelivered f)
      → (suc a < p.max_attempts → Bounded p (suc a) rest)
      → Bounded p a (judged o wait f rest)
  unfolding Bounded
  judged-Bounded p a none wait f rest l u i = (omega arith, tt)
  judged-Bounded p a (some d) wait f rest l u i =
      waited-Bounded p a (wait d) f rest l (u d refl).1 (i (omega (arith, (u d refl).0)))

  run_attempts-Bounded :
      (limit : ℕ) (p : RetryPolicySnapshot) (d : EffectiveDeadline) (a : ℕ)
      (rounds : List (Round Response))
      → a < p.max_attempts
      → Bounded p a (run_attempts limit p d a rounds)
  unfolding run_attempts after_failure Bounded
  run_attempts-Bounded limit p d a [] l = (omega arith, tt)
  run_attempts-Bounded limit p d a (round ∷ rounds) l =
      after_attempt_cases (Bounded p a) (precheck d round.before) round.attempted _
        (λ r. (omega arith, tt))
        (λ f.
          judged-Bounded p a (evaluate_retry limit round.judged_at d.instant p a f) _ f
            (run_attempts limit p d (suc a) rounds) l
            (λ x e. evaluate_retry-some limit round.judged_at d.instant p a f x e)
            (λ m. run_attempts-Bounded limit p d (suc a) rounds m))

  -- A wait ends by a cancellation or by the deadline at the latest.
  abbrev pub settles : EffectiveDeadline → Round Response → Bool
  settles d round = any (λ look. look.cancelled || leb d.instant look.now) round.wakes

  waited_ends :
      (w : Option (Result (Unit {0}) ModelDriverFailure)) (f : AttemptFailure) (rest : Ran Response)
      → is_some w ≡ true
      → is_some rest.outcome ≡ true
      → is_some (waited w f rest).outcome ≡ true
  waited_ends none f rest h r = cc
  waited_ends (some (err e)) f rest h r = refl
  waited_ends (some (ok u)) f rest h r = r

  judged_ends :
      (o : Option Duration) (wait : Duration → Option (Result (Unit {0}) ModelDriverFailure))
      (f : AttemptFailure) (rest : Ran Response)
      → ((d : Duration) → is_some (wait d) ≡ true)
      → ((d : Duration) → o ≡ some d → is_some rest.outcome ≡ true)
      → is_some (judged o wait f rest).outcome ≡ true
  judged_ends none wait f rest w r = refl
  judged_ends (some d) wait f rest w r = waited_ends (wait d) f rest (w d) (r d refl)

  run_attempts_ends :
      (limit : ℕ) (p : RetryPolicySnapshot) (d : EffectiveDeadline) (a : ℕ)
      (rounds : List (Round Response))
      → all (settles d) rounds ≡ true
      → a < p.max_attempts
      → p.max_attempts ≤ a + length rounds
      → is_some (run_attempts limit p d a rounds).outcome ≡ true
  unfolding run_attempts after_failure
  run_attempts_ends limit p d a [] s l m = absurd (omega arith)
  run_attempts_ends limit p d a (round ∷ rounds) s l m =
      after_attempt_cases (λ r. is_some r.outcome ≡ true) (precheck d round.before) round.attempted
        _ (λ r. refl)
        (λ f.
          judged_ends (evaluate_retry limit round.judged_at d.instant p a f) _ f
            (run_attempts limit p d (suc a) rounds)
            (λ x. wait_for_retry_ends d (round.waits_from + x) f.error round.wakes (ground arith))
            (λ x e.
              run_attempts_ends limit p d (suc a) rounds (ground arith)
                (omega (arith, evaluate_retry-some limit round.judged_at d.instant p a f x e))
                (omega arith)))

  checked_request_cases {κ} :
      (P : Ran Response → Type κ) (checked : Result (Unit {0}) ModelDriverFailure)
      (valid : Result (Unit {0}) ModelError) (run : Ran Response)
      → ((r : Result Response ModelDriverFailure) → P (ended r))
      → P run
      → P (checked_request checked valid run)
  checked_request_cases P (err f) valid run e k = e (err f)
  checked_request_cases P (ok u) (err x) run e k = e (err (driver_failure x none))
  checked_request_cases P (ok u) (ok v) run e k = k

  -- With at least one attempt allowed, a run sends the request again fewer than `max_attempts` times,
  -- and only after an attempt that failed before any event of the stream, with an error that says
  -- that the request was not delivered and may be sent again.
  pub run_detailed-Undelivered :
      (limit : ℕ) (p : RetryPolicySnapshot) (d : Result EffectiveDeadline DeadlineOverflow)
      (first : Look) (valid : Result (Unit {0}) ModelError) (rounds : List (Round Response))
      → 0 < p.max_attempts
      → let retried = (run_detailed limit p d first valid rounds).retried in
        (length retried < p.max_attempts) × All Undelivered retried
  unfolding run_detailed Bounded
  run_detailed-Undelivered limit p (err e) first valid rounds l = (omega arith, tt)
  run_detailed-Undelivered limit p (ok d) first valid rounds l =
      let (n, u) =
        checked_request_cases (Bounded p 0) (precheck d first) valid
          (run_attempts limit p d 0 rounds) (λ r. (omega arith, tt))
          (run_attempts-Bounded limit p d 0 rounds l) in
      (omega (arith, n), u)

  -- A run ends with a response or a failure after at most `max_attempts` attempts, if each attempt
  -- ends and each wait between two attempts sees a cancellation or the deadline at the latest.
  pub run_detailed_ends :
      (limit : ℕ) (p : RetryPolicySnapshot) (d : EffectiveDeadline) (first : Look)
      (valid : Result (Unit {0}) ModelError) (rounds : List (Round Response))
      → 0 < p.max_attempts
      → p.max_attempts ≤ length rounds
      → all (settles d) rounds ≡ true
      → is_some (run_detailed limit p (ok d) first valid rounds).outcome ≡ true
  unfolding run_detailed
  run_detailed_ends limit p d first valid rounds l m s =
      checked_request_cases (λ r. is_some r.outcome ≡ true) (precheck d first) valid
        (run_attempts limit p d 0 rounds) (λ r. refl)
        (run_attempts_ends limit p d 0 rounds s l (omega arith))
