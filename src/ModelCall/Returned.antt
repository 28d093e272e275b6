-- ===== src/ModelCall/Returned.antt =====
-- src/model/driver.rs, run_detailed: the text that a call shows and the text that it returns.
use minicore_runtime.Base.{
  Bool-cases, inl, inr, ℕ, suc, ◌+◌, ◌≡◌, refl, sym, ap, ◌∙◌, Bool, List, [], ◌∷◌, ◌++◌, append-nil,
  subst, Option, none, some, Result, ok, err, if◌then◌else◌,
}
use minicore_runtime.Text.{Text}
use minicore_runtime.Json.{JsonValue, Serialized}
use minicore_runtime.Limits.{LoopLimits}
use minicore_runtime.ModelError.{ModelError, Duration}
use minicore_runtime.PortCall.{EffectiveDeadline}
use minicore_runtime.Driver.{
  RetryPolicySnapshot, ModelDriverFailure, AttemptFailure, evaluate_retry,
}
use minicore_runtime.Driver.Run.{
  Look, Round, Ran, precheck, wait_for_retry, run_attempts, after_failure, after_attempt, judged,
  waited, run_detailed, checked_request,
}
use minicore_runtime.Driver.Attempts.{evaluate_retry-some}
use minicore_runtime.Execution.{ToolSpec}
use minicore_runtime.Response.{ModelResponse}
use minicore_runtime.Assembler.{ModelDriverProgress, new_assembler}
use minicore_runtime.Assembler.Attempt.{
  Attempted, dropped, after_start, after_start_progress, read_stream, stream_progress, await_start,
  run_attempt, attempt_progress,
}
use minicore_runtime.Assembler.Sound.{await_start-Starts}
use minicore_runtime.ModelCall.{
  AttemptRun, attempted, sent_progress, rounds_of, round_of, is_go, goes_on, tried_again,
  progress_from, checked_progress, run_call, call_progress,
}
use minicore_runtime.ModelCall.Shown.{shown, Told, after_start-Told, dropped-Told, read_stream-Told}
use minicore_runtime.ModelCall.Texts.{texts_of}

-- A call, if it gives a response, has shown its text.
abbrev HasShown :
    Option (Result ModelResponse ModelDriverFailure) → List ModelDriverProgress → Type 0
HasShown none sent = Unit
HasShown (some (err f)) sent = Unit
HasShown (some (ok response)) sent = texts_of response.parts ≡ shown sent

module _ (parse : Text → Option JsonValue) (to_writer : JsonValue → Serialized)
    (tools : List ToolSpec) (limits : LoopLimits) (limit : ℕ) (policy : RetryPolicySnapshot)
    (deadline : EffectiveDeadline) where
  abbrev Tells : Option Attempted → List ModelDriverProgress → Type 0
  Tells = Told (new_assembler tools limits)

  abbrev outcome : AttemptRun → Option Attempted
  outcome = attempted parse to_writer tools limits limit policy deadline

  abbrev sends : AttemptRun → List ModelDriverProgress
  sends = sent_progress parse to_writer tools limits limit policy deadline

  abbrev rounds : List AttemptRun → List (Round ModelResponse)
  rounds = rounds_of parse to_writer tools limits limit policy deadline

  abbrev goes : ℕ → AttemptRun → AttemptFailure → Option Duration → Bool
  goes = goes_on parse to_writer tools limits limit policy deadline

  abbrev again : ℕ → AttemptRun → Option Attempted → Bool
  again = tried_again parse to_writer tools limits limit policy deadline

  abbrev sends_from : ℕ → List AttemptRun → List ModelDriverProgress
  sends_from = progress_from parse to_writer tools limits limit policy deadline

  attempted-Tells : (run : AttemptRun) → Tells (outcome run) (sends run)
  unfolding run_attempt attempt_progress
  attempted-Tells run =
      let a = new_assembler tools limits in
      elim (Bool-cases run.start_panics) [
        | inl p ↦ rw p (λ f. (refl, refl))
        | inr p ↦ rw p (
            let streamed = read_stream parse to_writer deadline a run.wakes in
            let sent = stream_progress parse to_writer deadline a run.wakes in
            let start = await_start deadline run.starting in
            dropped-Told a run.drops.start_future
              (after_start (dropped run.drops.stream streamed) start)
              (after_start_progress sent start)
              (after_start-Told a start (dropped run.drops.stream streamed) sent
                (await_start-Starts (λ r. Told a (some r) []) (λ e source f. (refl, refl)) deadline
                  run.starting)
                (dropped-Told a run.drops.stream streamed sent
                  (read_stream-Told parse to_writer deadline a run.wakes (refl, refl)))))
      ]

  waited-HasShown :
      (w : Option (Result (Unit {0}) ModelDriverFailure)) (failure : AttemptFailure)
      (rest : Ran ModelResponse) (sent more : List ModelDriverProgress)
      → sent ≡ []
      → HasShown rest.outcome more
      → HasShown (waited w failure rest).outcome (sent ++ (if is_go w then more else []))
  waited-HasShown none failure rest sent more n h = tt
  waited-HasShown (some (err f)) failure rest sent more n h = tt
  waited-HasShown (some (ok u)) failure rest sent more n h = rw n h

  judged-HasShown :
      (o : Option Duration) (attempt : ℕ) (run : AttemptRun) (failure : AttemptFailure)
      (rest : Ran ModelResponse) (sent more : List ModelDriverProgress)
      → ((delay : Duration) → o ≡ some delay → sent ≡ [])
      → HasShown rest.outcome more
      → HasShown
          (judged o
            (λ delay.
              wait_for_retry deadline (run.waits_from + delay) failure.error run.retry_wakes)
            failure
            rest).outcome
          (sent ++ (if goes attempt run failure o then more else []))
  judged-HasShown none attempt run failure rest sent more n h = tt
  judged-HasShown (some delay) attempt run failure rest sent more n h =
      waited-HasShown
        (wait_for_retry deadline (run.waits_from + delay) failure.error run.retry_wakes) failure
        rest sent more (n delay refl) h

  round-HasShown :
      (checked : Result (Unit {0}) ModelDriverFailure) (attempt : ℕ) (run : AttemptRun)
      (r : Result ModelResponse AttemptFailure) (rest : Ran ModelResponse)
      (sent more : List ModelDriverProgress)
      → Tells (some (ok r)) sent
      → HasShown rest.outcome more
      → HasShown
          (after_attempt checked r (λ failure.
            after_failure limit policy deadline attempt (round_of run r) failure rest)).outcome
          (elim checked [
            | err f ↦ []
            | ok u ↦ sent ++ (if again attempt run (some (ok r)) then more else [])
          ])
  unfolding after_failure
  round-HasShown (err f) attempt run r rest sent more t h = tt
  round-HasShown (ok u) attempt run (ok response) rest sent more t h =
      t ∙ ap shown (sym (append-nil sent))
  round-HasShown (ok u) attempt run (err failure) rest sent more t h =
      judged-HasShown (evaluate_retry limit run.judged_at deadline.instant policy attempt failure)
        attempt run failure rest sent more
        (λ delay e.
          (t
            (evaluate_retry-some limit run.judged_at deadline.instant policy attempt failure delay
              e).1.0).0)
        h

  run_attempts-HasShown :
      (attempt : ℕ) (runs : List AttemptRun)
      → HasShown
          (run_attempts limit policy deadline attempt (rounds runs)).outcome
          (sends_from attempt runs)
  unfolding rounds_of progress_from run_attempts
  run_attempts-HasShown attempt [] = tt
  run_attempts-HasShown attempt (run ∷ runs) =
      made (outcome run) (attempted-Tells run) (run_attempts-HasShown (suc attempt) runs)
    where
      rest : Ran ModelResponse
      rest = run_attempts limit policy deadline (suc attempt) (rounds runs)

      made :
          (o : Option Attempted)
          → Tells o (sends run)
          → HasShown rest.outcome (sends_from (suc attempt) runs)
          → HasShown
              (run_attempts limit policy deadline attempt (elim o [
                | none ↦ []
                | some (err p) ↦ []
                | some (ok r) ↦ round_of run r ∷ rounds runs
              ])).outcome
              (elim (precheck deadline run.before) [
                | err f ↦ []
                | ok u ↦
                    sends run ++ (if again attempt run o then sends_from (suc attempt) runs else [])
              ])
      made none t h = tt
      made (some (err p)) t h = tt
      made (some (ok r)) t h =
          round-HasShown (precheck deadline run.before) attempt run r rest _ _ t h

  checked-HasShown :
      (checked : Result (Unit {0}) ModelDriverFailure) (valid : Result (Unit {0}) ModelError)
      (rest : Ran ModelResponse) (sent : List ModelDriverProgress)
      → HasShown rest.outcome sent
      → HasShown
          (checked_request checked valid rest).outcome
          (checked_progress parse to_writer tools limits limit policy deadline checked valid sent)
  checked-HasShown (err f) valid rest sent h = tt
  checked-HasShown (ok u) (err e) rest sent h = tt
  checked-HasShown (ok u) (ok v) rest sent h = h

  -- When a call of the driver gives a response, the text of the progress that its attempts offered to
  -- the channel, in their order, is the text of the response.
  pub run_call-shown :
      (first : Look) (valid : Result (Unit {0}) ModelError) (runs : List AttemptRun)
      (response : ModelResponse)
      → (run_call parse to_writer tools limits limit policy deadline first valid runs).outcome
        ≡ some (ok response)
      → texts_of response.parts
        ≡ shown (call_progress parse to_writer tools limits limit policy deadline first valid runs)
  unfolding run_call call_progress run_detailed
  run_call-shown first valid runs response e =
      subst
        (λ o.
          HasShown o
            (call_progress parse to_writer tools limits limit policy deadline first valid runs))
        e
        (checked-HasShown (precheck deadline first) valid
          (run_attempts limit policy deadline 0 (rounds runs)) (sends_from 0 runs)
          (run_attempts-HasShown 0 runs))
