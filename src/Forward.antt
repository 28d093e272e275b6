-- ===== src/Forward.antt =====
-- src/agent_loop/runner/model.rs, run_model and forward_progress: the progress of a call on its way
-- from the driver to the events. The forwarding of src/agent_loop/runner/tools.rs, call_tool, has the
-- same steps. The channel between the driver and the runner is the answers of its `try_send` and what
-- its `recv` gives.
use minicore_runtime.Base.{ℕ, ◌+◌, ◌%◌, List, [], ◌∷◌, ◌++◌, map, u64_mod}
use minicore_runtime.Text.{Text}
use minicore_runtime.Event.{Sink, Sent, accepted, full, closed, record_dropped, try_emit}
use minicore_runtime.Assembler.{ModelDriverProgress, text_progress, reasoning_progress}
pub mod Counted
pub mod Delivered
mod Examples

pub data OutputChannel : Type 0 where
  text reasoning : OutputChannel

-- LoopEvent::OutputDelta
pub record OutputDelta : Type 0 where
  pub channel : OutputChannel
  pub delta : Text

-- The match of `forward_progress`.
abbrev pub output_delta : ModelDriverProgress → OutputDelta
output_delta (text_progress delta) = record { channel = text; delta = delta }
output_delta (reasoning_progress delta) = record { channel = reasoning; delta = delta }

-- The count that the driver and the runner share, the sink of the events, and the envelopes that the
-- queue of the events took: the `dropped_before` and the event of each.
pub record Forwarding : Type 0 where
  pub progress_dropped : ℕ
  pub sink : Sink
  pub emitted : List (ℕ × OutputDelta)

-- The driver offers a progress to the channel, or the runner receives one and emits it.
pub data Turn : Type 0 where
  offers : ModelDriverProgress → Sent → Turn
  receives : ModelDriverProgress → Sent → Turn

-- `record_dropped` with what `swap` takes out of the count.
unfoldable pub settle : Forwarding → Forwarding
unfolding record_dropped
settle f = record f { progress_dropped = 0; sink = record_dropped f.progress_dropped f.sink }

-- The match on `try_send` in `run_attempt` of src/model/driver.rs.
unfoldable pub try_send : Sent → Forwarding → Forwarding
try_send accepted f = f
try_send full f = record f { progress_dropped = (f.progress_dropped + 1) % u64_mod }
try_send closed f = f

unfoldable pub forward_progress : Forwarding → ModelDriverProgress → Sent → Forwarding
unfolding settle try_emit
forward_progress f value sent =
    let settled = settle f in
    let (sink, seen) = try_emit sent settled.sink in
    record settled { sink = sink; emitted = f.emitted ++ map (λ n. (n, output_delta value)) seen }

abbrev pub take_turn : Forwarding → Turn → Forwarding
take_turn f (offers value sent) = try_send sent f
take_turn f (receives value sent) = forward_progress f value sent

unfoldable pub take_turns : Forwarding → List Turn → Forwarding
unfolding try_send forward_progress
take_turns f [] = f
take_turns f (turn ∷ turns) = take_turns (take_turn f turn) turns

-- The loop of `run_model`, and what it does when the driver has ended: `drained` is what the channel
-- still holds.
unfoldable pub run_model : Forwarding → List Turn → List (ModelDriverProgress × Sent) → Forwarding
unfolding take_turns
run_model f turns drained =
    take_turns (settle (take_turns f turns)) (map (λ d. receives d.0 d.1) drained)
