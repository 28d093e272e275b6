-- ===== src/Event/Examples.antt =====
-- Tests and concrete instances of the theorems on the event sink.
use minicore_runtime.Base.{◌≡◌, refl, false, [], ◌∷◌, err}
use minicore_runtime.Event.{Sink, accepted, full, closed, channel, invalid_capacity}
use minicore_runtime.Event.Dropped.{emit, run}

abbrev new_sink : Sink
new_sink = record { dropped = 0; closed_queue = false }

closed_queue_keeps_quiet : (run (emit full ∷ emit closed ∷ emit accepted ∷ []) new_sink).1 ≡ []
unfolding run
closed_queue_keeps_quiet = refl

capacity_is_bounded : channel 4097 ≡ err invalid_capacity
unfolding channel
capacity_is_bounded = refl
