-- ===== src/Assembler/Sound.antt =====
-- src/model/driver.rs, run_attempt: what an attempt ends with.
use minicore_runtime.Base.{
  ◌≡◌, refl, Bool, true, false, List, [], ◌∷◌, map, Option, none, some, leb, Result, ok, err, Ok,
  if_cases, arith,
}
use minicore_runtime.Text.{Text}
use minicore_runtime.Text.Fit.{delta_panics_never}
use minicore_runtime.Json.{JsonValue, Serialized}
use minicore_runtime.Limits.{LoopLimits}
use minicore_runtime.ModelError.{ModelError}
use minicore_runtime.PortCall.{
  DeadlineSource, EffectiveDeadline, Wake, Poll, pending, panics, ready,
}
use minicore_runtime.Execution.{ToolSpec}
use minicore_runtime.Response.{ModelEvent, validate_event, text_delta, reasoning_delta}
use minicore_runtime.Assembler.{
  Assembler, ToolAssembly, Pushed, new_assembler, push, ModelDriverProgress,
}
use minicore_runtime.Assembler.Finish.{Finished, finish_response}
use minicore_runtime.Assembler.Ordered.{IsAssembly, KeepsAssembly, push-Keeps}
use minicore_runtime.Assembler.Calls.{Answers, finished_by-Answers}
use minicore_runtime.Assembler.Offered.{AreOffered, push_checked-Offers, IsOffered, calls_within}
use minicore_runtime.Assembler.Attempt.{
  Attempted, failed, Received, waits, pushed, ended, after_push, after_finish, receive, next_event,
  read_stream, starts, await_start, after_start, run_attempt, push_panics, DropPanics, dropped,
}

-- A start that ends the attempt ends it with a failure before any event.
abbrev pub Starts {ℓ} : (Attempted → Type ℓ) → Option (Result (Unit {0}) Attempted) → Type ℓ
Starts P none = Unit
Starts P (some (err r)) = P r
Starts P (some (ok u)) = Unit

module _ {ℓ} (P : Attempted → Type ℓ)
    (h : (error : ModelError) (source : Option DeadlineSource)
      → P (failed error false source)) where
  starts-Starts :
      (polled : Poll (Unit {0}) ModelError) (rest : Option (Result (Unit {0}) Attempted))
      → Starts P rest
      → Starts P (elim (starts polled) [ none ↦ rest | some r ↦ some r ])
  starts-Starts pending rest w = w
  starts-Starts panics rest w = h _ _
  starts-Starts (ready (err error)) rest w = h _ _
  starts-Starts (ready (ok stream)) rest w = tt

  pub await_start-Starts :
      (deadline : EffectiveDeadline) (starting : List (Wake (Unit {0}) ModelError))
      → Starts P (await_start deadline starting)
  unfolding await_start
  await_start-Starts deadline [] = tt
  await_start-Starts deadline (wake ∷ wakes) =
      if_cases (Starts P) wake.parent_cancelled (λ t. h _ _)
        (λ f.
          if_cases (Starts P) (leb deadline.instant wake.now) (λ t. h _ _)
            (λ g.
              starts-Starts wake.future (await_start deadline wakes)
                (await_start-Starts deadline wakes)))

-- No event makes `push` panic: `validate` refuses a delta that is no `BoundedText`.
push_panics_never : (a : Assembler) (event : ModelEvent) → push_panics a event ≡ false
unfolding push_panics validate_event
push_panics_never a (text_delta delta) =
    ground (arith, delta_panics_never delta a.text_ended_with_cr)
push_panics_never a (reasoning_delta delta) =
    ground (arith, delta_panics_never delta a.reasoning_ended_with_cr)
push_panics_never a _ = ground arith

module _ (tools : List ToolSpec) (limits : LoopLimits) where
  -- No panic, and a response has calls of offered tools only.
  abbrev pub IsSound : Attempted → Type 0
  IsSound (err p) = ⊥
  IsSound (ok (err failure)) = Unit
  IsSound (ok (ok response)) = IsOffered tools limits response

  abbrev pub Sound : Option Attempted → Type 0
  Sound none = Unit
  Sound (some r) = IsSound r

  abbrev Holds : Assembler → Type 0
  Holds a = IsAssembly a × AreOffered tools limits a

  abbrev SoundReceived : Received → Type 0
  SoundReceived waits = Unit
  SoundReceived (pushed a progress) = Holds a
  SoundReceived (ended r) = IsSound r

  after_push-Sound :
      (p : Pushed)
      → KeepsAssembly p
      → Ok (λ (r : Assembler × Option ModelDriverProgress). AreOffered tools limits r.0) p
      → SoundReceived (after_push p)
  after_push-Sound (ok r) k o = (k, o)
  after_push-Sound (err e) k o = tt

  after_finish-Sound :
      (a : Assembler) (observed_event : Bool) (f : Finished)
      → AreOffered tools limits a
      → Answers (map (λ (t : ToolAssembly). t.call) a.tools) f
      → IsSound (after_finish observed_event f)
  after_finish-Sound a observed_event (err p) o w = w
  after_finish-Sound a observed_event (ok (err e)) o w = tt
  after_finish-Sound a observed_event (ok (ok response)) o w =
      calls_within tools limits a response o w

  module _ (parse : Text → Option JsonValue) (to_writer : JsonValue → Serialized)
      (deadline : EffectiveDeadline) where
    receive-Sound :
        (a : Assembler) (polled : Poll (Option ModelEvent) ModelError)
        → Holds a
        → SoundReceived (receive parse to_writer a polled)
    unfolding finish_response push
    receive-Sound a pending h = tt
    receive-Sound a panics h = tt
    receive-Sound a (ready (err error)) h = tt
    receive-Sound a (ready (ok none)) h =
        after_finish-Sound a a.observed_event (finish_response a) h.1
          (finished_by-Answers a a.finish_reason h.0.0 h.0.1)
    receive-Sound a (ready (ok (some event))) h =
        let a' = record a { observed_event = true } in
        rw (push_panics_never a' event) (
          after_push-Sound (push parse to_writer a' event) (push-Keeps parse to_writer a' event h.0)
            (push_checked-Offers tools limits a' h.1 parse to_writer event (validate_event event)))

    next_event-Sound :
        (a : Assembler) (wake : Wake (Option ModelEvent) ModelError)
        → Holds a
        → SoundReceived (next_event parse to_writer deadline a wake)
    unfolding next_event
    next_event-Sound a wake h =
        if_cases SoundReceived wake.parent_cancelled (λ t. tt)
          (λ f.
            if_cases SoundReceived (leb deadline.instant wake.now) (λ t. tt)
              (λ g. receive-Sound a wake.future h))

    read_stream-Sound :
        (a : Assembler) (wakes : List (Wake (Option ModelEvent) ModelError))
        → Holds a
        → Sound (read_stream parse to_writer deadline a wakes)
    unfolding read_stream
    read_stream-Sound a [] h = tt
    read_stream-Sound a (wake ∷ wakes) h =
        received (next_event parse to_writer deadline a wake) (next_event-Sound a wake h)
          (read_stream-Sound a wakes h) (λ a' h'. read_stream-Sound a' wakes h')
      where
        received :
            (r : Received)
            → SoundReceived r
            → Sound (read_stream parse to_writer deadline a wakes)
            → ((a' : Assembler) → Holds a' → Sound (read_stream parse to_writer deadline a' wakes))
            → Sound (elim r [
              | waits ↦ read_stream parse to_writer deadline a wakes
              | pushed a' progress ↦ read_stream parse to_writer deadline a' wakes
              | ended r ↦ some r
            ])
        received waits s rest next = rest
        received (pushed a' progress) s rest next = next a' s
        received (ended r) s rest next = s

  after_start-Sound :
      (streamed : Option Attempted) (o : Option (Result (Unit {0}) Attempted))
      → Sound streamed
      → Starts IsSound o
      → Sound (after_start streamed o)
  after_start-Sound streamed none s w = tt
  after_start-Sound streamed (some (err r)) s w = w
  after_start-Sound streamed (some (ok u)) s w = s

  dropped-Sound :
      (drop_panics : Bool) (o : Option Attempted)
      → drop_panics ≡ false
      → Sound o
      → Sound (dropped drop_panics o)
  dropped-Sound drop_panics none e s = tt
  dropped-Sound drop_panics (some r) e s = rw e s

-- An attempt at a model request, if dropping the model's future and its stream does not panic, does not
-- panic, whatever they do when they are called or polled, whatever events they give and whatever the
-- host and the clock do; and every call of a response that it returns is of an offered tool, the calls
-- no more than the limit.
pub run_attempt-Sound :
    (parse : Text → Option JsonValue) (to_writer : JsonValue → Serialized) (tools : List ToolSpec)
    (limits : LoopLimits) (deadline : EffectiveDeadline) (start_panics : Bool) (drops : DropPanics)
    (starting : List (Wake (Unit {0}) ModelError))
    (wakes : List (Wake (Option ModelEvent) ModelError))
    → drops.start_future ≡ false
    → drops.stream ≡ false
    → Sound tools limits
        (run_attempt parse to_writer tools limits deadline start_panics drops starting wakes)
unfolding run_attempt
run_attempt-Sound parse to_writer tools limits deadline start_panics drops starting wakes d e =
    if_cases (Sound tools limits) start_panics (λ t. tt)
      (λ f.
        let streamed = read_stream parse to_writer deadline (new_assembler tools limits) wakes in
        dropped-Sound tools limits drops.start_future
          (after_start (dropped drops.stream streamed) (await_start deadline starting)) d
          (after_start-Sound tools limits (dropped drops.stream streamed)
            (await_start deadline starting)
            (dropped-Sound tools limits drops.stream streamed e (
              read_stream-Sound tools limits parse to_writer deadline (new_assembler tools limits)
                wakes ((refl, tt), (refl, refl, omega arith, tt))))
            (await_start-Starts (IsSound tools limits) (λ e source. tt) deadline starting)))
