-- ===== src/PortCall.antt =====
-- src/time.rs and src/port_call.rs: the deadline of a call of a port, and the call itself, with the
-- parent's cancellation, the deadline and the port's future raced against each other. Instants and
-- durations are nanoseconds.
pub mod Deadline
pub mod Examples
use minicore_runtime.Base.{
  ℕ, Bool, true, false, List, [], ◌∷◌, Option, none, some, Result, ok, err, checked_add, leb,
  if◌then◌else◌,
}

pub data DeadlineSource : Type 0 where
  turn port : DeadlineSource

pub record EffectiveDeadline : Type 0 where
  pub instant : ℕ
  pub source : DeadlineSource

pub data DeadlineOverflow : Type 0 where
  deadline_overflow : DeadlineOverflow

abbrev pub earlier : ℕ → ℕ → EffectiveDeadline
earlier turn_deadline port_deadline =
    if leb turn_deadline port_deadline
    then record { instant = turn_deadline; source = turn }
    else record { instant = port_deadline; source = port }

-- Instants below `limit` can be represented.
unfoldable pub effective_deadline_from : ℕ → ℕ → ℕ → ℕ → Result EffectiveDeadline DeadlineOverflow
effective_deadline_from limit now turn_deadline port_timeout =
    elim (checked_add limit now port_timeout) [
      | none ↦ err deadline_overflow
      | some port_deadline ↦ ok (earlier turn_deadline port_deadline)
    ]

module _ {ℓ κ} where
  pub data PortCallOutcome (A : Type ℓ) (E : Type κ) : Type (ℓ ⊔ κ) where
    returned : Result A E → PortCallOutcome A E
    cancelled panicked : PortCallOutcome A E
    deadline_exceeded : DeadlineSource → PortCallOutcome A E
    invalid_deadline : DeadlineOverflow → PortCallOutcome A E

  -- What the port's future does when it is polled.
  pub data Poll (A : Type ℓ) (E : Type κ) : Type (ℓ ⊔ κ) where
    pending panics : Poll A E
    ready : Result A E → Poll A E

  -- What is there when the task wakes up: the parent's cancellation, the clock and the future.
  pub record Wake (A : Type ℓ) (E : Type κ) : Type (ℓ ⊔ κ) where
    pub parent_cancelled : Bool
    pub now : ℕ
    pub future : Poll A E

  -- How a call ended. `child` is none if `make_future` was not called; otherwise it tells if the
  -- child token, that the future got, is cancelled.
  pub record Ended (A : Type ℓ) (E : Type κ) : Type (ℓ ⊔ κ) where
    pub outcome : PortCallOutcome A E
    pub child : Option Bool

  abbrev uncalled : {A : Type ℓ} {E : Type κ} → PortCallOutcome A E → Ended A E
  uncalled o = record { outcome = o; child = none }

  abbrev called : {A : Type ℓ} {E : Type κ} → PortCallOutcome A E → Ended A E
  called o = record { outcome = o; child = some true }

  -- The arms of `select!`, in their order; none if none is ready.
  unfoldable pub select :
      {A : Type ℓ} {E : Type κ} → EffectiveDeadline → Wake A E → Option (PortCallOutcome A E)
  select deadline wake =
      if wake.parent_cancelled
      then some cancelled
      else if leb deadline.instant wake.now
      then some (deadline_exceeded deadline.source)
      else elim wake.future [
        | pending ↦ none
        | panics ↦ some panicked
        | ready result ↦ some (returned result)
      ]

  -- The task waits at `select!`; none if the wakes end and it still waits.
  unfoldable pub await_future :
      {A : Type ℓ} {E : Type κ} → EffectiveDeadline → List (Wake A E) → Option (Ended A E)
  unfolding select
  await_future deadline [] = none
  await_future deadline (wake ∷ wakes) =
      let rest = await_future deadline wakes in
      elim (select deadline wake) [ none ↦ rest | some outcome ↦ some (called outcome) ]

  -- `started` and `checked` are the two readings of the clock, `construction_panics` tells what
  -- `make_future` does.
  unfoldable pub run_port_call :
      {A : Type ℓ} {E : Type κ}
      → (limit : ℕ) → (parent_cancelled : Bool) → (started checked turn_deadline port_timeout : ℕ)
      → (construction_panics : Bool) → List (Wake A E)
      → Option (Ended A E)
  unfolding effective_deadline_from
  run_port_call limit true started checked turn_deadline port_timeout construction_panics wakes =
      some (uncalled cancelled)
  run_port_call limit false started checked turn_deadline port_timeout construction_panics wakes =
      elim (effective_deadline_from limit started turn_deadline port_timeout) [
        | err e ↦ some (uncalled (invalid_deadline e))
        | ok deadline ↦
            if leb deadline.instant checked
            then some (uncalled (deadline_exceeded deadline.source))
            else if construction_panics
            then some (called panicked)
            else await_future deadline wakes
      ]
