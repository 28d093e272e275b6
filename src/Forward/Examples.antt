-- ===== src/Forward/Examples.antt =====
-- Concrete instances of the theorems on the forwarding of progress.
use minicore_runtime.Base.{◌≡◌, ◌+◌, ◌^◌, refl, sym, false, List, [], ◌∷◌, map, length, arith, ok}
use minicore_runtime.Limits.{default_limits}
use minicore_runtime.Event.{Sink, accepted, full, try_emit, record_dropped}
use minicore_runtime.Event.Dropped.{sum}
use minicore_runtime.Assembler.{ModelDriverProgress, text_progress, reasoning_progress}
use minicore_runtime.ModelCall.Examples.{
  parse, to_writer, policy, deadline, at_time, refused, answered, response, call_responds,
  progress_sent,
}
use minicore_runtime.Forward.{
  output_delta, Turn, offers, receives, run_model, take_turns, forward_progress, settle, try_send,
}
use minicore_runtime.Forward.Counted.{counts, deltas}
use minicore_runtime.Forward.Delivered.{unsent, event_text, run_model-counted, event_text-response}
use mathlib.Core.List.{Sublist}

abbrev sink : Sink
sink = record { dropped = 0; closed_queue = false }

abbrev thought : ModelDriverProgress
thought = reasoning_progress (120 ∷ [])

abbrev head : ModelDriverProgress
head = text_progress (104 ∷ 10 ∷ [])

abbrev last : ModelDriverProgress
last = text_progress (105 ∷ [])

-- The channel is full for the second progress, and the queue of the events for the third.
abbrev crowded : List Turn
crowded =
    offers thought accepted
    ∷ offers head full
    ∷ receives thought accepted
    ∷ offers last accepted
    ∷ []

run_model-counted_example :
    let f = run_model (unsent sink) crowded ((last, full) ∷ []) in
    Sublist (deltas f.emitted) (map output_delta (thought ∷ head ∷ last ∷ []))
    × (length f.emitted + sum (counts f.emitted) + f.sink.dropped ≡ 0 + 3)
run_model-counted_example =
    run_model-counted sink crowded ((last, full) ∷ []) refl refl refl refl (omega arith)

abbrev calm : List Turn
calm = offers head accepted ∷ receives head accepted ∷ offers last accepted ∷ []

event_text-response_example :
    event_text (deltas (run_model (unsent sink) calm ((last, accepted) ∷ [])).emitted)
    ≡ 104 ∷ 10 ∷ 105 ∷ []
unfolding run_model take_turns forward_progress settle try_send try_emit record_dropped
event_text-response_example =
    event_text-response sink calm ((last, accepted) ∷ []) refl refl refl refl (omega arith) parse
      to_writer [] default_limits (10 ^ 15) policy deadline (at_time 0) (ok tt)
      (refused ∷ answered ∷ []) response call_responds (sym progress_sent) refl refl
