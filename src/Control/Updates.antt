-- ===== src/Control/Updates.antt =====
-- When configuration updates and answers are refused, over every history of calls, and why the
-- two parts of `update` may be seen as one step.
use minicore_runtime.Base.{
  ◌≡◌, refl, Bool, true, false, ◌&&◌, List, [], ◌∷◌, arith, any, all, ok, err, Result, Bool-cases,
  inl, inr,
}
use minicore_runtime.Control.{
  ConfigRevision, UpdateError, Control, phase_active, update, update_precheck, update_locked,
}
use minicore_runtime.Control.Seal.{state-step}
use minicore_runtime.Control.Calls.{
  Call, Reply, cancels, updates, begins_final, finishes, sets_interaction, answers, updated,
  answered, step, run, replies,
}

module _ {Config Report : Type 0} where
  -- After one of these no update and no answer is accepted any more.
  abbrev pub closes : Call Config Report → Bool
  closes (cancels source) = true
  closes begins_final = true
  closes finishes = true
  closes _ = false

  abbrev is_open : Control Config Report → Bool
  is_open c = c.accepting_updates && phase_active c.state

abbrev pub refused : {Config : Type 0} → Reply Config → Bool
refused (updated (ok revision)) = false
refused (answered (ok u)) = false
refused _ = true

module _ {Config Report : Type 0} (valid : Config → Bool) where
  refused-step :
      (call : Call Config Report) (c : Control Config Report)
      → is_open c ≡ false
      → (refused (step valid call c).1 ≡ true) × (is_open (step valid call c).0 ≡ false)
  unfolding step
  refused-step (updates config) c h = ground arith
  refused-step (cancels source) c h = ground arith
  refused-step (sets_interaction slot) c h = ground arith
  refused-step (answers id given) c h = ground arith
  refused-step _ c h = ground arith

  refused-replies :
      (c : Control Config Report) (calls : List (Call Config Report))
      → is_open c ≡ false
      → all refused (replies valid c calls) ≡ true
  unfolding replies
  refused-replies c [] h = refl
  refused-replies c (call ∷ calls) h =
      ground (arith, refused-step call c, refused-replies (step valid call c).0 calls)

  closes-step :
      (call : Call Config Report) (c : Control Config Report)
      → closes call ≡ true
      → is_open (step valid call c).0 ≡ false
  unfolding step
  closes-step (cancels source) c h = ground arith
  closes-step begins_final c h = ground arith
  closes-step finishes c h = ground arith
  closes-step _ c h = cc

  stays_closed :
      (c : Control Config Report) (calls : List (Call Config Report))
      → is_open c ≡ false
      → is_open (run valid c calls) ≡ false
  unfolding run
  stays_closed c [] h = h
  stays_closed c (call ∷ calls) h =
      stays_closed (step valid call c).0 calls (refused-step call c h).1

  is_open-run :
      (c : Control Config Report) (calls : List (Call Config Report))
      → any closes calls ≡ true
      → is_open (run valid c calls) ≡ false
  unfolding run
  is_open-run c [] h = cc
  is_open-run c (call ∷ calls) h = elim (Bool-cases (closes call)) [
    | inl e ↦ stays_closed (step valid call c).0 calls (closes-step call c e)
    | inr e ↦ is_open-run (step valid call c).0 calls (ground arith)
  ]

  -- Once a cancellation, `begin_final` or `finish_once` has been called, every later update and
  -- every later answer is refused.
  pub refused_after :
      (c : Control Config Report) (before after : List (Call Config Report))
      → any closes before ≡ true
      → all refused (replies valid (run valid c before) after) ≡ true
  refused_after c before after h =
      refused-replies (run valid c before) after (is_open-run c before h)

  inactive-run :
      (c : Control Config Report) (calls : List (Call Config Report))
      → phase_active c.state ≡ false
      → phase_active (run valid c calls).state ≡ false
  unfolding run
  inactive-run c [] h = h
  inactive-run c (call ∷ calls) h =
      inactive-run (step valid call c).0 calls (ground (arith, state-step valid call c))

  -- `update` with other calls between its first read of the state and its critical section.
  abbrev pub update_in_parts :
      Config
      → Control Config Report
      → List (Call Config Report)
      → Control Config Report × Result ConfigRevision UpdateError
  update_in_parts config c between = elim (update_precheck (valid config) c) [
    | err e ↦ (run valid c between, err e)
    | ok _ ↦ update_locked config (run valid c between)
  ]

  -- Whatever calls of other threads come between the first read of the state that `update` makes
  -- and its critical section, a valid configuration has the result and the effect of the whole
  -- `update` run at once at the critical section.
  pub update_linearizes :
      (config : Config) (c : Control Config Report) (between : List (Call Config Report))
      → valid config ≡ true
      → update_in_parts config c between ≡ update valid config (run valid c between)
  unfolding update
  update_linearizes config c between h = ground (arith, inactive-run c between)
