-- ===== src/Control/Examples.antt =====
-- Tests and concrete instances of the theorems on the control plane. A configuration is here a
-- number, valid below 100, and a report is a number too.
use mathlib.Core.List.{Sublist}
use minicore_runtime.Base.{
  ◌+◌, ℕ, ◌≡◌, refl, Bool, true, List, [], ◌∷◌, ◌++◌, some, arith, ltb, all, map,
}
use minicore_runtime.Interaction.{InteractionKind, InteractionAnswer, allow_once, low}
use minicore_runtime.Control.{
  Control, CancelSource, CancelReason, cancelled_prior, InteractionSlot, new, finish_once, update,
  next,
}
use minicore_runtime.Control.Calls.{
  Call, cancels, updates, takes_config, finishes, sets_interaction, takes_interaction, answers, run,
  replies, step,
}
use minicore_runtime.Control.Seal.{seal-run, decided_once, seals, cancels_won, total}
use minicore_runtime.Control.Updates.{refused_after, refused, update_linearizes, update_in_parts}
use minicore_runtime.Control.Revisions.{revisions_consecutive, handed-sublist, handed, history}
use minicore_runtime.Control.Answers.{answered_once, sent_to, taken_back, waiting_on, slots_on}

abbrev valid : ℕ → Bool
valid config = ltb config 100

abbrev slot : InteractionSlot
slot = record {
  id = 1 ∷ [];
  expected = InteractionKind.approval (record { prompt = b'?' ∷ []; risk = low });
  reply = 7;
}

abbrev yes_once : InteractionAnswer
yes_once = InteractionAnswer.approval allow_once

abbrev morning : List (Call ℕ ℕ)
morning =
    updates 5
    ∷ updates 200
    ∷ updates 6
    ∷ takes_config
    ∷ sets_interaction slot
    ∷ answers (1 ∷ []) yes_once
    ∷ answers (1 ∷ []) yes_once
    ∷ []

abbrev evening : List (Call ℕ ℕ)
evening = cancels CancelSource.shutdown ∷ updates 7 ∷ cancels CancelSource.user ∷ []

seal-run_example :
    (finish_once (run valid (new {Config = ℕ} {Report = ℕ} []) (morning ++ evening))).1.0
    ≡ cancelled_prior CancelReason.shutdown
unfolding new
seal-run_example = seal-run valid (new []) (morning ++ evening) refl refl

decided_once_example :
    (total seals (replies valid (new {Config = ℕ} {Report = ℕ} []) (finishes ∷ finishes ∷ evening))
      ≡ 1)
    × (total cancels_won
          (replies valid (new {Config = ℕ} {Report = ℕ} []) (finishes ∷ finishes ∷ evening))
        ≡ 0)
decided_once_example = decided_once valid [] (finishes ∷ finishes ∷ evening)

refused_after_example :
    all refused (replies valid (run valid (new {Config = ℕ} {Report = ℕ} []) evening) morning)
    ≡ true
refused_after_example = refused_after valid (new []) evening morning refl

update_linearizes_example :
    update_in_parts valid 8 (new {Config = ℕ} {Report = ℕ} []) evening
    ≡ update valid 8 (run valid (new {Config = ℕ} {Report = ℕ} []) evening)
update_linearizes_example = update_linearizes valid 8 (new []) evening refl

revisions_consecutive_example :
    map (λ p. p.revision) (history valid (new {Config = ℕ} {Report = ℕ} []) morning) ≡ 1 ∷ 2 ∷ []
unfolding new next replies step
revisions_consecutive_example = revisions_consecutive valid [] morning (omega arith)

handed-sublist_example :
    Sublist
      (handed (replies valid (new {Config = ℕ} {Report = ℕ} []) morning))
      (history valid (new {Config = ℕ} {Report = ℕ} []) morning)
handed-sublist_example = handed-sublist valid [] morning

waiting : Control ℕ ℕ
unfolding new
waiting = record (new []) { interaction = some slot }

-- A slot that is answered, one that finds it, and one that is taken back.
abbrev afternoon : List (Call ℕ ℕ)
afternoon =
    sets_interaction slot
    ∷ sets_interaction slot
    ∷ answers (1 ∷ []) yes_once
    ∷ sets_interaction slot
    ∷ takes_interaction
    ∷ []

answered_once_example :
    let c = run valid (new {Config = ℕ} {Report = ℕ} []) afternoon in
    let returned = replies valid (new {Config = ℕ} {Report = ℕ} []) afternoon in
    sent_to 7 c.sent + taken_back 7 returned + waiting_on 7 c.interaction
    ≡ slots_on 7 afternoon returned
answered_once_example = answered_once valid [] 7 afternoon
