-- ===== src/PortCall/Deadline.antt =====
-- What a call of a port promises: it ends by its deadline, a result counts only before that, and
-- the child token is cancelled however the call ends.
use minicore_runtime.Base.{
  ℕ, ◌≡◌, refl, ◌≤◌, ◌<◌, ◌+◌, min, Bool, true, false, List, [], ◌∷◌, none, some, Result, ok, arith,
  ◌⊎◌, inl, inr, is_some, subst, any, ◌||◌, ◌≢◌, leb, Option-cases,
}
use minicore_runtime.PortCall.{
  EffectiveDeadline, effective_deadline_from, PortCallOutcome, returned, Wake, ready, Ended, select,
  await_future, run_port_call, turn, port, earlier,
}

abbrev IsEarlier : ℕ → ℕ → EffectiveDeadline → Type 0
IsEarlier turn_deadline port_deadline d =
    ((d.source ≡ turn) × (d.instant ≡ turn_deadline) × (turn_deadline ≤ port_deadline))
    ⊎ ((d.source ≡ port) × (d.instant ≡ port_deadline) × (port_deadline < turn_deadline))

earlier-min : (a b : ℕ) → (earlier a b).instant ≡ min a b
earlier-min a b = ground arith

earlier-IsEarlier : (a b : ℕ) → IsEarlier a b (earlier a b)
earlier-IsEarlier a b = ground arith

-- The deadline is the earlier of the turn's deadline and the port's, the turn's if they are equal,
-- and there is one only if the port's can be represented.
pub effective_deadline_lem :
    (limit now turn_deadline port_timeout : ℕ) (d : EffectiveDeadline)
    → effective_deadline_from limit now turn_deadline port_timeout ≡ ok d
    → (now + port_timeout < limit) × IsEarlier turn_deadline (now + port_timeout) d
unfolding effective_deadline_from
effective_deadline_lem limit now turn_deadline port_timeout d r =
    ground (arith, earlier-IsEarlier turn_deadline (now + port_timeout))

module _ {ℓ κ} {A : Type ℓ} {E : Type κ} where
  -- The future is ready at a wake before the deadline, and no cancellation came until then.
  pub data ReadyIn (deadline : ℕ) (r : Result A E) : List (Wake A E) → Type (ℓ ⊔ κ) where
    here :
        (w : Wake A E) (ws : List (Wake A E))
        → w.parent_cancelled ≡ false
        → w.now < deadline
        → w.future ≡ ready r
        → ReadyIn deadline r (w ∷ ws)
    later :
        (w : Wake A E) (ws : List (Wake A E))
        → w.parent_cancelled ≡ false
        → w.now < deadline
        → ReadyIn deadline r ws
        → ReadyIn deadline r (w ∷ ws)

  select-returned :
      (d : EffectiveDeadline) (w : Wake A E) (r : Result A E)
      → select d w ≡ some (returned r)
      → (w.parent_cancelled ≡ false) × (w.now < d.instant) × (w.future ≡ ready r)
  unfolding select
  select-returned d w r h = ground arith

  select-none :
      (d : EffectiveDeadline) (w : Wake A E)
      → select d w ≡ none
      → (w.parent_cancelled ≡ false) × (w.now < d.instant)
  unfolding select
  select-none d w h = ground arith

  await_future-ReadyIn :
      (d : EffectiveDeadline) (ws : List (Wake A E)) (e : Ended A E) (r : Result A E)
      → await_future d ws ≡ some e
      → e.outcome ≡ returned r
      → ReadyIn d.instant r ws
  unfolding await_future
  await_future-ReadyIn d [] e r h o = ground arith
  await_future-ReadyIn d (w ∷ ws) e r h o = elim (Option-cases (select d w)) [
    | inl n ↦
        later w ws (select-none d w n).0 (select-none d w n).1
          (await_future-ReadyIn d ws e r (ground (arith, n)) o)
    | inr (o', s) ↦ ready_here o' s (ground arith)
  ]
    where
      ready_here :
          (o' : PortCallOutcome A E)
          → select d w ≡ some o'
          → o' ≡ e.outcome
          → ReadyIn d.instant r (w ∷ ws)
      ready_here o' s q = let (c, n, f) = select-returned d w r (ground arith) in here w ws c n f

  await_future-child :
      (d : EffectiveDeadline) (ws : List (Wake A E)) (e : Ended A E)
      → await_future d ws ≡ some e
      → e.child ≡ some true
  unfolding await_future
  await_future-child d [] e h = ground arith
  await_future-child d (w ∷ ws) e h = elim (Option-cases (select d w)) [
    | inl n ↦ await_future-child d ws e (ground (arith, n))
    | inr (o, s) ↦ ground (arith, s)
  ]

  -- A result that a call returns was ready before the earlier of the two deadlines, at a time when
  -- the parent was not cancelled.
  pub run_port_call-ReadyIn :
      (limit : ℕ) (parent_cancelled : Bool) (started checked turn_deadline port_timeout : ℕ)
      → (construction_panics : Bool) (ws : List (Wake A E)) (e : Ended A E) (r : Result A E)
      → run_port_call limit parent_cancelled started checked turn_deadline port_timeout
          construction_panics ws
        ≡ some e
      → e.outcome ≡ returned r
      → (parent_cancelled ≡ false) × ReadyIn (min turn_deadline (started + port_timeout)) r ws
  unfolding run_port_call
  run_port_call-ReadyIn l true s c t p k ws e r h o = ground arith
  run_port_call-ReadyIn l false s c t p k ws e r h o = (
    refl,
    subst (λ m. ReadyIn m r ws) (earlier-min t (s + p))
        (await_future-ReadyIn (earlier t (s + p)) ws e r (ground arith) o),
  )

  -- However a call ends, the child token is cancelled if the port was called.
  pub run_port_call-child :
      (limit : ℕ) (parent_cancelled : Bool) (started checked turn_deadline port_timeout : ℕ)
      → (construction_panics : Bool) (ws : List (Wake A E)) (e : Ended A E)
      → run_port_call limit parent_cancelled started checked turn_deadline port_timeout
          construction_panics ws
        ≡ some e
      → e.child ≢ some false
  unfolding run_port_call
  run_port_call-child l true s c t p k ws e h = ground arith
  run_port_call-child l false s c t p k ws e h =
      ground (arith, await_future-child (earlier t (s + p)) ws e)

  await_future_ends :
      (d : EffectiveDeadline) (ws : List (Wake A E))
      → any (λ w. w.parent_cancelled || leb d.instant w.now) ws ≡ true
      → is_some (await_future d ws) ≡ true
  unfolding await_future select
  await_future_ends d [] h = ground arith
  await_future_ends d (w ∷ ws) h = ground (arith, await_future_ends d ws)

  -- A call ends when the parent is cancelled or the deadline is reached, also if the future never
  -- is ready.
  pub run_port_call_ends :
      (limit : ℕ) (parent_cancelled : Bool) (started checked turn_deadline port_timeout : ℕ)
      → (construction_panics : Bool) (ws : List (Wake A E))
      → any (λ w. w.parent_cancelled || leb (min turn_deadline (started + port_timeout)) w.now) ws
        ≡ true
      → is_some (
          run_port_call limit parent_cancelled started checked turn_deadline port_timeout
            construction_panics ws)
        ≡ true
  unfolding run_port_call
  run_port_call_ends l true s c t p k ws h = refl
  run_port_call_ends l false s c t p k ws h =
      ground (arith, await_future_ends (earlier t (s + p)) ws (rw (earlier-min t (s + p)) h))
