-- ===== src/ModelCall/Shown.antt =====
-- src/model/driver.rs, run_attempt: the text that an attempt shows and the text that it returns.
use minicore_runtime.Base.{
  Bool, ◌≡◌, refl, sym, ap, ◌∙◌, true, false, List, [], ◌∷◌, ◌++◌, append_assoc, append-nil, all,
  all-append, Option, none, some, Result, ok, err, Ok, if_cases, leb,
}
use minicore_runtime.Text.{Text, allowed_char}
use minicore_runtime.Json.{JsonValue, Serialized}
use minicore_runtime.ModelError.{ModelError}
use minicore_runtime.PortCall.{EffectiveDeadline, Wake, Poll, pending, panics, ready}
use minicore_runtime.Response.{ModelEvent}
use minicore_runtime.Assembler.{Assembler, ModelDriverProgress, Pushed, push}
use minicore_runtime.Assembler.Finish.{Finished, finish_response}
use minicore_runtime.Assembler.Attempt.{
  Attempted, Received, waits, pushed, ended, after_push, after_finish, with_progress, receive,
  push_panics, dropped, next_event, read_stream, stream_progress, after_start, after_start_progress,
}
use minicore_runtime.Assembler.Sound.{Starts}
use minicore_runtime.ModelCall.Deltas.{shown_of, HasSlot, Adds, push-Adds}
use minicore_runtime.ModelCall.Texts.{texts_of, HasText, finished_by-HasText}

-- The text that the progress shows.
abbrev pub shown : List ModelDriverProgress → Text
shown [] = []
shown (progress ∷ sent) = shown_of (some progress) ++ shown sent

shown-with_progress :
    (progress : Option ModelDriverProgress) (sent : List ModelDriverProgress)
    → shown (with_progress progress sent) ≡ shown_of progress ++ shown sent
shown-with_progress none sent = refl
shown-with_progress (some p) sent = refl

-- A response has the text so far and what is shown from here on; a failure without an event of the
-- stream showed nothing.
abbrev pub Told : Assembler → Option Attempted → List ModelDriverProgress → Type 0
Told a none sent = Unit
Told a (some (err p)) sent = Unit
Told a (some (ok (ok response))) sent = texts_of response.parts ≡ a.text ++ shown sent
Told a (some (ok (err failure))) sent =
    failure.observed_event ≡ false → (sent ≡ []) × (a.observed_event ≡ false)

abbrev Clean : Assembler → Type 0
Clean a = HasSlot a × (all allowed_char a.text ≡ true)

abbrev ToldReceived : Assembler → Received → Type 0
ToldReceived a waits = Unit
ToldReceived a (pushed b progress) =
    (b.text ≡ a.text ++ shown_of progress) × (b.observed_event ≡ true) × Clean b
ToldReceived a (ended r) = Told a (some r) []

after_push-Told :
    (a : Assembler) (p : Pushed)
    → Clean a
    → Ok (Adds (record a { observed_event = true })) p
    → ToldReceived a (after_push p)
after_push-Told a (ok (b, progress)) c (t, s, h, o) =
    (t, o, (h c.0, rw (t, all-append allowed_char a.text (shown_of progress), c.1, s) refl))
after_push-Told a (err e) c h = λ f. cc

after_finish-Told :
    (a : Assembler) (f : Finished)
    → HasText a.text f
    → Told a (some (after_finish a.observed_event f)) []
after_finish-Told a (err p) h = tt
after_finish-Told a (ok (err e)) h = λ f. (refl, f)
after_finish-Told a (ok (ok response)) h = h ∙ sym (append-nil a.text)

step-Told :
    (a b : Assembler) (progress : Option ModelDriverProgress) (o : Option Attempted)
    (sent : List ModelDriverProgress)
    → ToldReceived a (pushed b progress)
    → Told b o sent
    → Told a o (with_progress progress sent)
step-Told a b progress none sent h w = tt
step-Told a b progress (some (err p)) sent h w = tt
step-Told a b progress (some (ok (err failure))) sent h w = λ f. cc (h.1, (w f).1)
step-Told a b progress (some (ok (ok response))) sent h w =
    w
    ∙ ap (λ t. t ++ shown sent) h.0
    ∙ append_assoc a.text (shown_of progress) (shown sent)
    ∙ ap (λ t. a.text ++ t) (sym (shown-with_progress progress sent))

module _ (parse : Text → Option JsonValue) (to_writer : JsonValue → Serialized)
    (deadline : EffectiveDeadline) where
  receive-Told :
      (a : Assembler) (polled : Poll (Option ModelEvent) ModelError)
      → Clean a
      → ToldReceived a (receive parse to_writer a polled)
  unfolding finish_response
  receive-Told a pending c = tt
  receive-Told a panics c = λ f. (refl, f)
  receive-Told a (ready (err error)) c = λ f. (refl, f)
  receive-Told a (ready (ok none)) c =
      after_finish-Told a (finish_response a) (finished_by-HasText a a.finish_reason c.0 c.1)
  receive-Told a (ready (ok (some event))) c =
      let b = record a { observed_event = true } in
      if_cases (ToldReceived a) (push_panics b event) (λ t. tt)
        (λ f.
          after_push-Told a (push parse to_writer b event) c (push-Adds b parse to_writer event))

  next_event-Told :
      (a : Assembler) (wake : Wake (Option ModelEvent) ModelError)
      → Clean a
      → ToldReceived a (next_event parse to_writer deadline a wake)
  unfolding next_event
  next_event-Told a wake c =
      if_cases (ToldReceived a) wake.parent_cancelled (λ t f. (refl, f))
        (λ f.
          if_cases (ToldReceived a) (leb deadline.instant wake.now) (λ t f. (refl, f))
            (λ g. receive-Told a wake.future c))

  pub read_stream-Told :
      (a : Assembler) (wakes : List (Wake (Option ModelEvent) ModelError))
      → Clean a
      → Told a
          (read_stream parse to_writer deadline a wakes)
          (stream_progress parse to_writer deadline a wakes)
  unfolding read_stream stream_progress
  read_stream-Told a [] c = tt
  read_stream-Told a (wake ∷ wakes) c =
      received (next_event parse to_writer deadline a wake) (next_event-Told a wake c)
        (read_stream-Told a wakes c) (λ b d. read_stream-Told b wakes d)
    where
      received :
          (r : Received)
          → ToldReceived a r
          → Told a
              (read_stream parse to_writer deadline a wakes)
              (stream_progress parse to_writer deadline a wakes)
          → ((b : Assembler)
              → Clean b
              → Told b
                  (read_stream parse to_writer deadline b wakes)
                  (stream_progress parse to_writer deadline b wakes))
          → Told a
              (elim r [
                | waits ↦ read_stream parse to_writer deadline a wakes
                | pushed b progress ↦ read_stream parse to_writer deadline b wakes
                | ended r ↦ some r
              ])
              (elim r [
                | waits ↦ stream_progress parse to_writer deadline a wakes
                | pushed b progress ↦
                    with_progress progress (stream_progress parse to_writer deadline b wakes)
                | ended r ↦ []
              ])
      received waits h rest next = rest
      received (pushed b progress) h rest next = step-Told a b progress _ _ h (next b h.2)
      received (ended r) h rest next = h

pub dropped-Told :
    (a : Assembler) (drop_panics : Bool) (o : Option Attempted) (sent : List ModelDriverProgress)
    → Told a o sent
    → Told a (dropped drop_panics o) sent
dropped-Told a drop_panics none sent h = tt
dropped-Told a true (some r) sent h = tt
dropped-Told a false (some r) sent h = h

pub after_start-Told :
    (a : Assembler) (o : Option (Result (Unit {0}) Attempted)) (streamed : Option Attempted)
    (sent : List ModelDriverProgress)
    → Starts (λ r. Told a (some r) []) o
    → Told a streamed sent
    → Told a (after_start streamed o) (after_start_progress sent o)
after_start-Told a none streamed sent h w = tt
after_start-Told a (some (err r)) streamed sent h w = h
after_start-Told a (some (ok u)) streamed sent h w = w
