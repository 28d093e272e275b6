-- ===== src/Event/Dropped.antt =====
-- No lost event is forgotten: the counts that the envelopes carry and the sink's own count add up
-- to the events that were lost.
use minicore_runtime.Base.{
  ℕ, ◌≡◌, ◌+◌, ◌<◌, Bool, true, false, List, [], ◌∷◌, ◌++◌, all, arith, u64_mod,
}
use minicore_runtime.Event.{Sink, Sent, accepted, full, closed, try_emit, record_dropped}

-- An event is emitted, with the queue's answer, or the driver reports events that it lost.
pub data Step : Type 0 where
  emit : Sent → Step
  lost : ℕ → Step

unfoldable pub step : Step → Sink → Sink × List ℕ
unfolding try_emit record_dropped
step (emit sent) sink = try_emit sent sink
step (lost count) sink = (record_dropped count sink, [])

-- The sink after the steps, and the counts that the envelopes carried.
unfoldable pub run : List Step → Sink → Sink × List ℕ
unfolding step
run [] sink = (sink, [])
run (s ∷ ss) sink =
    let (sink', seen) = step s sink in let (last, rest) = run ss sink' in (last, seen ++ rest)

abbrev pub sum : List ℕ → ℕ
sum [] = 0
sum (n ∷ ns) = n + sum ns

-- The events that a step loses while the queue is open.
abbrev pub loses : Step → ℕ
loses (emit full) = 1
loses (emit _) = 0
loses (lost count) = count

abbrev pub stays_open : Step → Bool
stays_open (emit closed) = false
stays_open _ = true

abbrev pub losses : List Step → ℕ
losses [] = 0
losses (s ∷ ss) = loses s + losses ss

sum-append : (ms ns : List ℕ) → sum (ms ++ ns) ≡ sum ms + sum ns
sum-append [] ns = omega arith
sum-append (m ∷ ms) ns = omega (arith, sum-append ms ns)

step_counts :
    (s : Step) (sink : Sink)
    → sink.closed_queue ≡ false
    → stays_open s ≡ true
    → sink.dropped + loses s < u64_mod
    → ((step s sink).0.closed_queue ≡ false)
      × (sum (step s sink).1 + (step s sink).0.dropped ≡ sink.dropped + loses s)
unfolding step
step_counts (emit accepted) sink o e b = ground arith
step_counts (emit full) sink o e b = ground arith
step_counts (emit closed) sink o e b = ground arith
step_counts (lost count) sink o e b = ground arith

-- As long as the queue is open and the count does not overflow, the counts of the envelopes that
-- were sent and the count that the sink still holds are together the number of the lost events.
pub losses_conserved :
    (ss : List Step) (sink : Sink)
    → sink.closed_queue ≡ false
    → all stays_open ss ≡ true
    → sink.dropped + losses ss < u64_mod
    → sum (run ss sink).1 + (run ss sink).0.dropped ≡ sink.dropped + losses ss
unfolding run
losses_conserved [] sink o a b = ground arith
losses_conserved (s ∷ ss) sink o a b =
    let (o', c) = step_counts s sink o (ground arith) (omega arith) in
    ground (
      arith,
      sum-append (step s sink).1 (run ss (step s sink).0).1,
      c,
      losses_conserved ss (step s sink).0 o' (ground arith) (omega (arith, c)),
    )
