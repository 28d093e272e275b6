-- ===== src/Event.antt =====
-- src/agent_loop/event.rs: the sink of the live events. An event that finds the queue full is
-- dropped and counted, and the next event that is sent tells the count.
pub mod Dropped
pub mod Examples
use minicore_runtime.Base.{
  ℕ, Bool, true, false, List, [], ◌∷◌, Result, ok, err, ltb, leb, ◌==◌, ◌||◌, if◌then◌else◌,
  saturating_add, u64_mod,
}

abbrev pub max_event_capacity : ℕ
max_event_capacity = 4096

pub data EventSinkError : Type 0 where
  invalid_capacity : EventSinkError

-- What `try_send` of the queue answers.
pub data Sent : Type 0 where
  accepted full closed : Sent

-- `LoopEventSink`; the queue itself is the answers of its `try_send`.
pub record Sink : Type 0 where
  pub dropped : ℕ
  pub closed_queue : Bool

-- LoopEventSink::channel
unfoldable pub channel : ℕ → Result Sink EventSinkError
channel capacity =
    if capacity == 0 || ltb max_event_capacity capacity
    then err invalid_capacity
    else ok (record { dropped = 0; closed_queue = false })

-- LoopEventSink::record_dropped
unfoldable pub record_dropped : ℕ → Sink → Sink
record_dropped count sink = record sink { dropped = saturating_add u64_mod sink.dropped count }

abbrev pub answered : Sent → Sink → Sink
answered accepted sink = record sink { dropped = 0 }
answered full sink = record sink { dropped = saturating_add u64_mod sink.dropped 1 }
answered closed sink = record sink { closed_queue = true }

abbrev pub received : Sent → ℕ → List ℕ
received accepted dropped_before = dropped_before ∷ []
received _ dropped_before = []

-- LoopEventSink::try_emit, with the `dropped_before` of the envelope that the queue took, if any.
unfoldable pub try_emit : Sent → Sink → Sink × List ℕ
try_emit sent sink =
    if sink.closed_queue then (sink, []) else (answered sent sink, received sent sink.dropped)
