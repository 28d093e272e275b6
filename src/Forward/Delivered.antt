-- ===== src/Forward/Delivered.antt =====
-- src/agent_loop/runner/model.rs, run_model: what the host gets of the progress of a call.
use mathlib.Core.List.{Sublist, Sublistᴰ}
use mathlib.Core.List.Sublist
use mathlib.Core.Logic.{∥∥₁_elim}
use minicore_runtime.Base.{
  ℕ, ◌+◌, ◌<◌, ◌≤◌, ◌≡◌, refl, sym, ap, subst, ◌∙◌, true, false, List, [], ◌∷◌, ◌++◌, map,
  map-append, length, length-append, length-map, all, arith, u64_mod, Option, some, Result, ok,
}
use minicore_runtime.Text.{Text}
use minicore_runtime.Event.{Sink, Sent}
use minicore_runtime.Event.Dropped.{sum}
use minicore_runtime.Assembler.{ModelDriverProgress, text_progress, reasoning_progress}
use minicore_runtime.Json.{JsonValue, Serialized}
use minicore_runtime.Limits.{LoopLimits}
use minicore_runtime.ModelError.{ModelError}
use minicore_runtime.PortCall.{EffectiveDeadline}
use minicore_runtime.Driver.{RetryPolicySnapshot}
use minicore_runtime.Driver.Run.{Look}
use minicore_runtime.Execution.{ToolSpec}
use minicore_runtime.Response.{ModelResponse}
use minicore_runtime.ModelCall.{AttemptRun, run_call, call_progress}
use minicore_runtime.ModelCall.Shown.{shown}
use minicore_runtime.ModelCall.Texts.{texts_of}
use minicore_runtime.ModelCall.Returned.{run_call-shown}
use minicore_runtime.Forward.{
  text, reasoning, OutputDelta, output_delta, Forwarding, Turn, settle, take_turns, run_model,
}
use minicore_runtime.Forward.Counted.{
  offered, taken, received, is_open, counts, deltas, all_settled, known-take_turns, known-settle,
  all_settled_lem, taken-offered, take_turns-deltas, drains, drains-received, drains-settled,
  drains_count,
}

-- The text that the events show.
abbrev pub event_text : List OutputDelta → Text
event_text [] = []
event_text (d ∷ ds) = elim d.channel [ text ↦ d.delta ++ event_text ds | reasoning ↦ event_text ds ]

event_text_lem : (sent : List ModelDriverProgress) → event_text (map output_delta sent) ≡ shown sent
event_text_lem [] = refl
event_text_lem (text_progress delta ∷ sent) = ap (λ t. delta ++ t) (event_text_lem sent)
event_text_lem (reasoning_progress delta ∷ sent) = event_text_lem sent

Text-set : IsSet Text
Text-set = hlevel

at_most : {xs ys : List OutputDelta} → Sublistᴰ xs ys → length xs ≤ length ys
at_most Sublistᴰ.slnil = omega arith
at_most (Sublistᴰ.cons s) = omega (arith, at_most s)
at_most (Sublistᴰ.cons-cons e s) = omega (arith, at_most s)

all_kept : {xs ys : List OutputDelta} → Sublistᴰ xs ys → length ys ≤ length xs → xs ≡ ys
all_kept Sublistᴰ.slnil h = refl
all_kept (Sublistᴰ.cons s) h = absurd (omega (arith, at_most s))
all_kept (Sublistᴰ.cons-cons e s) h = cc (e, all_kept s (omega arith))

-- The state of `run_model` before its loop.
abbrev pub unsent : Sink → Forwarding
unsent sink = record { progress_dropped = 0; sink = sink; emitted = [] }

module _ (sink : Sink) (turns : List Turn) (drained : List (ModelDriverProgress × Sent))
    (fifo : received turns ++ map (λ d. d.0) drained ≡ taken turns) where
  abbrev middle : Forwarding
  middle = settle (take_turns (unsent sink) turns)

  delivered-sublist :
      Sublist
        (deltas (run_model (unsent sink) turns drained).emitted)
        (map output_delta (offered turns))
  unfolding run_model settle
  delivered-sublist = Sublist.trans (take_turns-deltas middle (drains drained)) (
      Sublist.trans (Sublist.append (take_turns-deltas (unsent sink) turns) (Sublist.refl _)) (
        subst (λ l. Sublist l (map output_delta (offered turns)))
          (ap (map output_delta) (sym fifo)
            ∙ map-append output_delta (received turns) (map (λ d. d.0) drained)
            ∙ ap (λ l. map output_delta (received turns) ++ map output_delta l)
                (sym (drains-received drained)))
          (taken-offered turns)))

  module _ (queue_open : sink.closed_queue ≡ false) (turns_open : all is_open turns ≡ true)
      (drained_open : all is_open (drains drained) ≡ true)
      (fits : sink.dropped + length (offered turns) < u64_mod) where
    balance : all_settled turns + length drained ≡ length (offered turns)
    balance = omega (
      arith,
      all_settled_lem turns turns_open,
      ap length fifo,
      length-append (received turns) (map (λ d. d.0) drained),
      length-map drained (λ (d : ModelDriverProgress × Sent). d.0),
    )

    counted :
        length (run_model (unsent sink) turns drained).emitted
          + sum (counts (run_model (unsent sink) turns drained).emitted)
          + (run_model (unsent sink) turns drained).sink.dropped
        ≡ sink.dropped + length (offered turns)
    unfolding run_model settle
    counted =
        let (c, e) =
          known-take_turns (unsent sink) turns queue_open turns_open (omega (arith, balance)) in
        let same = known-settle (take_turns (unsent sink) turns) (omega (arith, e, balance)) in
        let (c', e') =
          known-take_turns middle (drains drained) c drained_open
            (omega (arith, e, same, balance, drains-settled drained)) in
        omega
          (arith, e, same, balance, e', drains-settled drained, drains_count middle drained refl)

    -- When the driver has ended and the channel is empty, and neither receiver is gone, the events that
    -- the queue took are a part of the progress that was offered, in its order. Their number, the counts
    -- that they carry and the count that the sink still holds are together the count before and the
    -- number of the offers. The channel gives what it took, in that order.
    pub run_model-counted :
        let f = run_model (unsent sink) turns drained in
        Sublist (deltas f.emitted) (map output_delta (offered turns))
        × (length f.emitted + sum (counts f.emitted) + f.sink.dropped
            ≡ sink.dropped + length (offered turns))
    run_model-counted = (delivered-sublist, counted)

    all_shown :
        sum (counts (run_model (unsent sink) turns drained).emitted) ≡ 0
        → (run_model (unsent sink) turns drained).sink.dropped ≡ 0
        → event_text (deltas (run_model (unsent sink) turns drained).emitted)
          ≡ shown (offered turns)
    all_shown none_lost none_held =
        ∥∥₁_elim delivered-sublist (Text-set _ _) (λ s. ap event_text (
          all_kept s (
            omega (
              arith,
              counted,
              none_lost,
              none_held,
              length-map (offered turns) output_delta,
              length-map (run_model (unsent sink) turns drained).emitted
                  (λ (e : ℕ × OutputDelta). e.1),
            ))))
        ∙ event_text_lem (offered turns)

    -- If the driver gives a response and no event is counted as lost, the text of the events is the text
    -- of the response. What the driver offers is the progress of its call; the channel gives what it
    -- took, in that order, and neither receiver is gone.
    pub event_text-response :
        (parse : Text → Option JsonValue) (to_writer : JsonValue → Serialized)
        (tools : List ToolSpec) (limits : LoopLimits) (limit : ℕ) (policy : RetryPolicySnapshot)
        (deadline : EffectiveDeadline) (first : Look) (valid : Result (Unit {0}) ModelError)
        (runs : List AttemptRun) (response : ModelResponse)
        → (run_call parse to_writer tools limits limit policy deadline first valid runs).outcome
          ≡ some (ok response)
        → offered turns
          ≡ call_progress parse to_writer tools limits limit policy deadline first valid runs
        → sum (counts (run_model (unsent sink) turns drained).emitted) ≡ 0
        → (run_model (unsent sink) turns drained).sink.dropped ≡ 0
        → event_text (deltas (run_model (unsent sink) turns drained).emitted)
          ≡ texts_of response.parts
    event_text-response parse to_writer tools limits limit policy deadline first valid runs response
          responds offers none_lost none_held =
        all_shown none_lost none_held
        ∙ ap shown offers
        ∙ sym (
            run_call-shown parse to_writer tools limits limit policy deadline first valid runs
              response responds)
