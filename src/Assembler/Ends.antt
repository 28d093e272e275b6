-- ===== src/Assembler/Ends.antt =====
-- src/model/driver.rs, run_attempt: an attempt ends.
use minicore_runtime.Base.{
  ◌≡◌, refl, Bool, true, false, ◌||◌, List, [], ◌∷◌, any, Option, none, some, is_some, leb, Result,
  ok, err, if_cases, Bool-cases, inl, inr, arith,
}
use minicore_runtime.Text.{Text}
use minicore_runtime.Json.{JsonValue, Serialized}
use minicore_runtime.Limits.{LoopLimits}
use minicore_runtime.ModelError.{ModelError}
use minicore_runtime.PortCall.{EffectiveDeadline, Wake}
use minicore_runtime.Execution.{ToolSpec}
use minicore_runtime.Response.{ModelEvent}
use minicore_runtime.Assembler.{Assembler, new_assembler}
use minicore_runtime.Assembler.Attempt.{
  Attempted, Received, waits, pushed, ended, next_event, read_stream, starts, await_start,
  after_start, run_attempt, DropPanics, dropped,
}

-- The wake finds the token cancelled, or the deadline reached.
abbrev pub is_over : {A : Type 0} → EffectiveDeadline → Wake A ModelError → Bool
is_over deadline wake = wake.parent_cancelled || leb deadline.instant wake.now

module _ (parse : Text → Option JsonValue) (to_writer : JsonValue → Serialized)
    (deadline : EffectiveDeadline) where
  over_ends :
      (a : Assembler) (wake : Wake (Option ModelEvent) ModelError)
      → is_over deadline wake ≡ true
      → (r : Attempted) × (next_event parse to_writer deadline a wake ≡ ended r)
  unfolding next_event
  over_ends a wake h =
      if_cases (λ x. (r : Attempted) × (x ≡ ended r)) wake.parent_cancelled (λ t. (_, refl))
        (λ f.
          if_cases (λ x. (r : Attempted) × (x ≡ ended r)) (leb deadline.instant wake.now)
            (λ t. (_, refl)) (λ g. absurd (ground (arith, h, f, g))))

  read_stream_ends :
      (a : Assembler) (wakes : List (Wake (Option ModelEvent) ModelError))
      → any (is_over deadline) wakes ≡ true
      → is_some (read_stream parse to_writer deadline a wakes) ≡ true
  unfolding read_stream
  read_stream_ends a [] h = absurd (ground arith)
  read_stream_ends a (wake ∷ wakes) h = elim (Bool-cases (is_over deadline wake)) [
    | inl o ↦ rw (is_some, (over_ends a wake o).1) refl
    | inr n ↦
        received (next_event parse to_writer deadline a wake)
          (λ a'. read_stream_ends a' wakes (ground (arith, h, n)))
  ]
    where
      received :
          (r : Received)
          → ((a' : Assembler) → is_some (read_stream parse to_writer deadline a' wakes) ≡ true)
          → is_some (elim r [
            | waits ↦ read_stream parse to_writer deadline a wakes
            | pushed a' progress ↦ read_stream parse to_writer deadline a' wakes
            | ended r ↦ some r
          ])
            ≡ true
      received waits rest = rest a
      received (pushed a' progress) rest = rest a'
      received (ended r) rest = refl

await_start_ends :
    (deadline : EffectiveDeadline) (starting : List (Wake (Unit {0}) ModelError))
    → any (is_over deadline) starting ≡ true
    → is_some (await_start deadline starting) ≡ true
unfolding await_start
await_start_ends deadline [] h = absurd (ground arith)
await_start_ends deadline (wake ∷ wakes) h =
    let P : Option (Result (Unit {0}) Attempted) → Type 0 = λ o. is_some o ≡ true in
    if_cases P wake.parent_cancelled (λ t. refl)
      (λ f.
        if_cases P (leb deadline.instant wake.now) (λ t. refl)
          (λ g.
            polled (starts wake.future)
              (await_start_ends deadline wakes (ground (arith, h, f, g)))))
  where
    polled :
        (o : Option (Result (Unit {0}) Attempted))
        → is_some (await_start deadline wakes) ≡ true
        → is_some (elim o [ none ↦ await_start deadline wakes | some r ↦ some r ]) ≡ true
    polled none rest = rest
    polled (some r) rest = refl

after_start_ends :
    (streamed : Option Attempted) (o : Option (Result (Unit {0}) Attempted))
    → is_some streamed ≡ true
    → is_some o ≡ true
    → is_some (after_start streamed o) ≡ true
after_start_ends streamed none s h = absurd (ground arith)
after_start_ends streamed (some (err r)) s h = refl
after_start_ends streamed (some (ok u)) s h = s

dropped_ends :
    (drop_panics : Bool) (o : Option Attempted)
    → is_some o ≡ true
    → is_some (dropped drop_panics o) ≡ true
dropped_ends drop_panics none h = h
dropped_ends true (some r) h = h
dropped_ends false (some r) h = h

-- An attempt ends when the request is cancelled or its deadline is reached, at the latest: whether it
-- waits for the start or for an event, a wake that finds one of the two ends it.
pub run_attempt_ends :
    (parse : Text → Option JsonValue) (to_writer : JsonValue → Serialized) (tools : List ToolSpec)
    (limits : LoopLimits) (deadline : EffectiveDeadline) (start_panics : Bool) (drops : DropPanics)
    (starting : List (Wake (Unit {0}) ModelError))
    (wakes : List (Wake (Option ModelEvent) ModelError))
    → any (is_over deadline) starting ≡ true
    → any (is_over deadline) wakes ≡ true
    → is_some (run_attempt parse to_writer tools limits deadline start_panics drops starting wakes)
      ≡ true
unfolding run_attempt
run_attempt_ends parse to_writer tools limits deadline start_panics drops starting wakes h k =
    if_cases (λ (o : Option Attempted). is_some o ≡ true) start_panics (λ t. refl)
      (λ f.
        let streamed = read_stream parse to_writer deadline (new_assembler tools limits) wakes in
        dropped_ends drops.start_future
          (after_start (dropped drops.stream streamed) (await_start deadline starting))
          (after_start_ends (dropped drops.stream streamed) (await_start deadline starting)
            (dropped_ends drops.stream streamed
              (read_stream_ends parse to_writer deadline (new_assembler tools limits) wakes k))
            (await_start_ends deadline starting h)))
