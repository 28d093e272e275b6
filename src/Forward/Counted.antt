-- ===== src/Forward/Counted.antt =====
-- src/agent_loop/runner/model.rs, run_model: no progress is lost without being counted, and the events
-- keep the order of the progress.
use mathlib.Core.List.{Sublist, sublist-cons_self, sublist-append_left}
use mathlib.Core.List.Sublist
use minicore_runtime.Base.{
  ℕ, ◌+◌, ◌<◌, ◌≤◌, ◌≡◌, refl, ap, subst, Bool, true, false, List, [], ◌∷◌, ◌++◌, append-nil,
  append_assoc, map, map-append, length, all, arith, u64_mod, saturating_add,
}
use minicore_runtime.Event.{Sink, Sent, accepted, full, closed, record_dropped, try_emit}
use minicore_runtime.Event.Dropped.{sum}
use minicore_runtime.Assembler.{ModelDriverProgress}
use minicore_runtime.Forward.{
  OutputDelta, output_delta, Forwarding, Turn, offers, receives, settle, try_send, forward_progress,
  take_turn, take_turns,
}

-- What the driver offered, what the channel took of it, and what the runner received.
abbrev pub offered : List Turn → List ModelDriverProgress
offered [] = []
offered (offers value sent ∷ turns) = value ∷ offered turns
offered (receives value sent ∷ turns) = offered turns

abbrev pub taken : List Turn → List ModelDriverProgress
taken [] = []
taken (offers value accepted ∷ turns) = value ∷ taken turns
taken (offers value full ∷ turns) = taken turns
taken (offers value closed ∷ turns) = taken turns
taken (receives value sent ∷ turns) = taken turns

abbrev pub received : List Turn → List ModelDriverProgress
received [] = []
received (offers value sent ∷ turns) = received turns
received (receives value sent ∷ turns) = value ∷ received turns

-- Neither the receiver of the channel nor the one of the events is gone.
abbrev pub is_open : Turn → Bool
is_open (offers value closed) = false
is_open (offers value sent) = true
is_open (receives value closed) = false
is_open (receives value sent) = true

abbrev pub counts : List (ℕ × OutputDelta) → List ℕ
counts = map (λ e. e.0)

abbrev pub deltas : List (ℕ × OutputDelta) → List OutputDelta
deltas = map (λ e. e.1)

-- The progress that was emitted, or counted as lost.
abbrev pub known : Forwarding → ℕ
known f = length f.emitted + sum (counts f.emitted) + f.sink.dropped + f.progress_dropped

-- The progress that a turn settles.
abbrev settled_by : Turn → ℕ
settled_by (offers value full) = 1
settled_by (offers value sent) = 0
settled_by (receives value sent) = 1

abbrev pub all_settled : List Turn → ℕ
all_settled [] = 0
all_settled (turn ∷ turns) = settled_by turn + all_settled turns

known-snoc :
    (es : List (ℕ × OutputDelta)) (n : ℕ) (d : OutputDelta)
    → length (es ++ ((n, d) ∷ [])) + sum (counts (es ++ ((n, d) ∷ [])))
      ≡ length es + sum (counts es) + (1 + n)
known-snoc [] n d = omega arith
known-snoc (e ∷ es) n d = omega (arith, known-snoc es n d)

exact : (a b : ℕ) → a + b < u64_mod → saturating_add u64_mod a b ≡ a + b
exact a b h = ground arith

known-take_turn :
    (f : Forwarding) (turn : Turn)
    → f.sink.closed_queue ≡ false
    → is_open turn ≡ true
    → known f + settled_by turn < u64_mod
    → ((take_turn f turn).sink.closed_queue ≡ false)
      × (known (take_turn f turn) ≡ known f + settled_by turn)
unfolding try_send forward_progress settle record_dropped try_emit
known-take_turn f (offers value accepted) c o b = (c, omega arith)
known-take_turn f (offers value full) c o b = (c, ground arith)
known-take_turn f (offers value closed) c o b = cc
known-take_turn f (receives value accepted) c o b =
    rw (c, exact f.sink.dropped f.progress_dropped (omega arith))
      (
        refl,
        omega (
          arith,
          known-snoc f.emitted (f.sink.dropped + f.progress_dropped) (output_delta value),
        ),
      )
known-take_turn f (receives value full) c o b =
    rw
      (
        c,
        exact f.sink.dropped f.progress_dropped (omega arith),
        append-nil f.emitted,
        exact (f.sink.dropped + f.progress_dropped) 1 (omega arith),
      )
      (refl, omega arith)
known-take_turn f (receives value closed) c o b = cc

pub known-take_turns :
    (f : Forwarding) (turns : List Turn)
    → f.sink.closed_queue ≡ false
    → all is_open turns ≡ true
    → known f + all_settled turns < u64_mod
    → ((take_turns f turns).sink.closed_queue ≡ false)
      × (known (take_turns f turns) ≡ known f + all_settled turns)
unfolding take_turns
known-take_turns f [] c o b = (c, omega arith)
known-take_turns f (turn ∷ turns) c o b =
    let (c', e) = known-take_turn f turn c (ground arith) (omega arith) in
    let (c'', e') =
      known-take_turns (take_turn f turn) turns c' (ground arith) (omega (arith, e)) in
    (c'', omega (arith, e, e'))

pub known-settle : (f : Forwarding) → known f < u64_mod → known (settle f) ≡ known f
unfolding settle record_dropped
known-settle f b = rw (exact f.sink.dropped f.progress_dropped (omega arith)) (omega arith)

-- Every offer is settled by its own turn, or by the receipt of what the channel took.
pub all_settled_lem :
    (turns : List Turn)
    → all is_open turns ≡ true
    → all_settled turns + length (taken turns) ≡ length (offered turns) + length (received turns)
all_settled_lem [] o = omega arith
all_settled_lem (offers value accepted ∷ turns) o = omega (arith, all_settled_lem turns o)
all_settled_lem (offers value full ∷ turns) o = omega (arith, all_settled_lem turns o)
all_settled_lem (offers value closed ∷ turns) o = cc
all_settled_lem (receives value accepted ∷ turns) o = omega (arith, all_settled_lem turns o)
all_settled_lem (receives value full ∷ turns) o = omega (arith, all_settled_lem turns o)
all_settled_lem (receives value closed ∷ turns) o = cc

pub taken-offered :
    (turns : List Turn)
    → Sublist (map output_delta (taken turns)) (map output_delta (offered turns))
taken-offered [] = Sublist.refl []
taken-offered (offers value accepted ∷ turns) =
    Sublist.append (Sublist.refl (output_delta value ∷ [])) (taken-offered turns)
taken-offered (offers value full ∷ turns) =
    Sublist.trans (taken-offered turns)
      (sublist-cons_self (output_delta value) (map output_delta (offered turns)))
taken-offered (offers value closed ∷ turns) =
    Sublist.trans (taken-offered turns)
      (sublist-cons_self (output_delta value) (map output_delta (offered turns)))
taken-offered (receives value sent ∷ turns) = taken-offered turns

seen-deltas :
    (es : List (ℕ × OutputDelta)) (d : OutputDelta) (seen : List ℕ)
    → length seen ≤ 1
    → Sublist (deltas (es ++ map (λ n. (n, d)) seen)) (deltas es ++ (d ∷ []))
seen-deltas es d [] h = rw (append-nil es) (sublist-append_left (deltas es) (d ∷ []))
seen-deltas es d (n ∷ []) h = rw (map-append (λ e. e.1) es ((n, d) ∷ [])) (Sublist.refl _)
seen-deltas es d (n ∷ m ∷ seen) h = absurd (omega arith)

seen_once : (sent : Sent) (sink : Sink) → length (try_emit sent sink).1 ≤ 1
unfolding try_emit
seen_once accepted sink = ground arith
seen_once full sink = ground arith
seen_once closed sink = ground arith

pub take_turns-deltas :
    (f : Forwarding) (turns : List Turn)
    → Sublist
        (deltas (take_turns f turns).emitted)
        (deltas f.emitted ++ map output_delta (received turns))
unfolding take_turns forward_progress try_send
take_turns-deltas f [] = rw (append-nil (deltas f.emitted)) (Sublist.refl _)
take_turns-deltas f (offers value accepted ∷ turns) = take_turns-deltas f turns
take_turns-deltas f (offers value full ∷ turns) = take_turns-deltas (try_send full f) turns
take_turns-deltas f (offers value closed ∷ turns) = take_turns-deltas f turns
take_turns-deltas f (receives value sent ∷ turns) =
    Sublist.trans (take_turns-deltas (forward_progress f value sent) turns) (
      subst
        (Sublist
          (deltas (forward_progress f value sent).emitted ++ map output_delta (received turns)))
        (append_assoc (deltas f.emitted) (output_delta value ∷ [])
          (map output_delta (received turns)))
        (Sublist.append
          (seen-deltas f.emitted (output_delta value) (try_emit sent (settle f).sink).1
            (seen_once sent (settle f).sink))
          (Sublist.refl (map output_delta (received turns)))))

abbrev pub drains : List (ModelDriverProgress × Sent) → List Turn
drains = map (λ d. receives d.0 d.1)

pub drains-received :
    (drained : List (ModelDriverProgress × Sent))
    → received (drains drained) ≡ map (λ d. d.0) drained
drains-received [] = refl
drains-received (d ∷ drained) = ap (λ l. d.0 ∷ l) (drains-received drained)

pub drains-settled :
    (drained : List (ModelDriverProgress × Sent)) → all_settled (drains drained) ≡ length drained
drains-settled [] = refl
drains-settled (d ∷ drained) = omega (arith, drains-settled drained)

-- Nothing is left in the count that the driver and the runner share.
pub drains_count :
    (f : Forwarding) (drained : List (ModelDriverProgress × Sent))
    → f.progress_dropped ≡ 0
    → (take_turns f (drains drained)).progress_dropped ≡ 0
unfolding take_turns forward_progress settle
drains_count f [] h = h
drains_count f (d ∷ drained) h = drains_count (forward_progress f d.0 d.1) drained refl
