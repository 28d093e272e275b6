-- ===== src/Control/Seal.antt =====
-- The race of cancellations and of the final seal, over every history of calls.
use minicore_runtime.Base.{
  ℕ, ◌+◌, ◌≡◌, ◌≢◌, refl, Bool, true, false, List, [], ◌∷◌, Option, none, some, arith, any,
  if◌then◌else◌, ◌∙◌, ap, is_some,
}
use minicore_runtime.Ids.{RuntimeId}
use minicore_runtime.Control.{
  new, CancelSource, CancelReason, Phase, active, FinishSeal, clean, cancelled_prior, Control,
  source_phase, phase_active, phase_finished, phase_seal, finish_once, cancel_user,
  cancel_owner_dropped, cancel_shutdown,
}
use minicore_runtime.Control.Calls.{
  Call, Reply, cancels, updates, finishes, sets_interaction, answers, cancelled, sealed, step, run,
  replies,
}

abbrev pub reason : CancelSource → CancelReason
reason CancelSource.user = CancelReason.user
reason CancelSource.owner_dropped = CancelReason.owner_dropped
reason CancelSource.shutdown = CancelReason.shutdown

abbrev pub expected_seal : Option CancelSource → FinishSeal
expected_seal none = clean
expected_seal (some source) = cancelled_prior (reason source)

module _ {Config Report : Type 0} where
  abbrev pub is_finish : Call Config Report → Bool
  is_finish finishes = true
  is_finish _ = false

  abbrev is_cancel : Call Config Report → Bool
  is_cancel (cancels source) = true
  is_cancel _ = false

  -- The first call of a history that decides how the loop ends.
  abbrev pub first_cancel : List (Call Config Report) → Option CancelSource
  first_cancel [] = none
  first_cancel (cancels source ∷ calls) = some source
  first_cancel (finishes ∷ calls) = none
  first_cancel (_ ∷ calls) = first_cancel calls

  -- How a call moves the atomic state, as a table.
  abbrev pub phase_step : Call Config Report → Phase → Phase
  phase_step (cancels source) active = source_phase source
  phase_step finishes p = Phase.finished
  phase_step _ p = p

  abbrev phases : Phase → List (Call Config Report) → Phase
  phases p [] = p
  phases p (call ∷ calls) = phases (phase_step call p) calls

  -- A cancelled loop keeps its first reason until it is sealed.
  phases_kept :
      (p : Phase) (calls : List (Call Config Report))
      → p ≢ active
      → any is_finish calls ≡ false
      → phases p calls ≡ p
  phases_kept p [] h e = refl
  phases_kept active (call ∷ calls) h e = absurd (h refl)
  phases_kept p (finishes ∷ calls) h e = cc
  phases_kept p (cancels source ∷ calls) h e = phases_kept p calls h e
  phases_kept p (call ∷ calls) h e = phases_kept p calls h e

  phases_active :
      (calls : List (Call Config Report))
      → any is_finish calls ≡ false
      → phase_seal (phases active calls) ≡ expected_seal (first_cancel calls)
  phases_active [] e = refl
  phases_active (finishes ∷ calls) e = cc
  phases_active (cancels CancelSource.user ∷ calls) e =
      ap phase_seal (phases_kept cancel_user calls (λ q. cc) e)
  phases_active (cancels CancelSource.owner_dropped ∷ calls) e =
      ap phase_seal (phases_kept cancel_owner_dropped calls (λ q. cc) e)
  phases_active (cancels CancelSource.shutdown ∷ calls) e =
      ap phase_seal (phases_kept cancel_shutdown calls (λ q. cc) e)
  phases_active (call ∷ calls) e = phases_active calls e

-- 1 for the reply of a `finish_once` that seals, and for that of a `mark_cancel` that cancels.
abbrev pub seals : {Config : Type 0} → Reply Config → ℕ
seals (sealed clean pending) = 1
seals (sealed (cancelled_prior r) pending) = 1
seals _ = 0

abbrev pub cancels_won : {Config : Type 0} → Reply Config → ℕ
cancels_won (cancelled true) = 1
cancels_won _ = 0

abbrev pub total : {A : Type 0} → (A → ℕ) → List A → ℕ
total f [] = 0
total f (x ∷ xs) = f x + total f xs

module _ {Config Report : Type 0} (valid : Config → Bool) where
  pub state-step :
      (call : Call Config Report) (c : Control Config Report)
      → (step valid call c).0.state ≡ phase_step call c.state
  unfolding step
  state-step (cancels source) c = ground arith
  state-step (updates config) c = ground arith
  state-step (sets_interaction slot) c = ground arith
  state-step (answers id given) c = ground arith
  state-step finishes c = refl
  state-step _ c = refl

  seals-step :
      (call : Call Config Report) (c : Control Config Report)
      → seals (step valid call c).1
        ≡ (if is_finish call then (if phase_finished c.state then 0 else 1) else 0)
  unfolding step
  seals-step finishes c = ground arith
  seals-step (cancels source) c = ground arith
  seals-step (updates config) c = ground arith
  seals-step (sets_interaction slot) c = ground arith
  seals-step (answers id given) c = ground arith
  seals-step _ c = refl

  -- phase after a call
  total-seals :
      (c : Control Config Report) (calls : List (Call Config Report))
      → total seals (replies valid c calls)
        ≡ (if phase_finished c.state then 0 else if any is_finish calls then 1 else 0)
  unfolding replies
  total-seals c [] = ground arith
  total-seals c (call ∷ calls) =
      ground (arith, seals-step call c, state-step call c, total-seals (step valid call c).0 calls)

  state-run :
      (c : Control Config Report) (calls : List (Call Config Report))
      → (run valid c calls).state ≡ phases c.state calls
  unfolding run
  state-run c [] = refl
  state-run c (call ∷ calls) =
      state-run (step valid call c).0 calls ∙ ap (λ p. phases p calls) (state-step call c)

  -- The seal of a loop reports the first cancellation before it, with that caller's reason, and is
  -- clean exactly when there was none, whatever other calls came in between.
  pub seal-run :
      (c : Control Config Report) (calls : List (Call Config Report))
      → c.state ≡ active
      → any is_finish calls ≡ false
      → (finish_once (run valid c calls)).1.0 ≡ expected_seal (first_cancel calls)
  unfolding finish_once
  seal-run c calls a e =
      ap phase_seal (state-run c calls ∙ ap (λ p. phases p calls) a) ∙ phases_active calls e

  cancels_won-step :
      (call : Call Config Report) (c : Control Config Report)
      → cancels_won (step valid call c).1
        ≡ (if phase_active c.state then (if is_cancel call then 1 else 0) else 0)
  unfolding step
  cancels_won-step finishes c = ground arith
  cancels_won-step (cancels source) c = ground arith
  cancels_won-step (updates config) c = ground arith
  cancels_won-step (sets_interaction slot) c = ground arith
  cancels_won-step (answers id given) c = ground arith
  cancels_won-step _ c = ground arith

  total_cancels_off :
      (c : Control Config Report) (calls : List (Call Config Report))
      → phase_active c.state ≡ false
      → total cancels_won (replies valid c calls) ≡ 0
  unfolding replies
  total_cancels_off c [] h = refl
  total_cancels_off c (call ∷ calls) h = ground (
    arith,
    cancels_won-step call c,
    state-step call c,
    total_cancels_off (step valid call c).0 calls,
  )

  total_cancels :
      (c : Control Config Report) (calls : List (Call Config Report))
      → c.state ≡ active
      → total cancels_won (replies valid c calls) ≡ (if is_some (first_cancel calls) then 1 else 0)
  unfolding replies
  total_cancels c [] h = refl
  total_cancels c (call ∷ calls) h = ground (
    arith,
    cancels_won-step call c,
    state-step call c,
    total_cancels_off (step valid call c).0 calls,
    total_cancels (step valid call c).0 calls,
  )

  -- Over any history of a new loop, exactly one `finish_once` seals if there is one at all, and
  -- exactly one `mark_cancel` returns true if a cancellation comes before the first seal, none
  -- otherwise.
  pub decided_once :
      (id : RuntimeId) (calls : List (Call Config Report))
      → (total seals (replies valid (new id) calls) ≡ (if any is_finish calls then 1 else 0))
        × (total cancels_won (replies valid (new id) calls)
            ≡ (if is_some (first_cancel calls) then 1 else 0))
  unfolding new
  decided_once id calls = (total-seals _ calls, total_cancels _ calls refl)
