-- ===== src/Control/Answers.antt =====
-- Answers to interactions: what each call of `answer` does, and what ever reaches the one-shot
-- channels, over every history of calls.
use minicore_runtime.Base.{
  ℕ, ◌+◌, ◌≡◌, refl, Bool, true, false, ◌&&◌, List, [], ◌∷◌, ◌++◌, Option, none, some, arith, ◌==◌,
  if◌then◌else◌, is_ok, ok,
}
use minicore_runtime.Ids.{RuntimeId, bytes_eq}
use minicore_runtime.Interaction.{InteractionAnswer, validate_answer}
use minicore_runtime.Control.{
  InteractionSlot, Control, phase_active, new, answer, set_interaction, take_interaction,
}
use minicore_runtime.Control.Calls.{
  Call, Reply, cancels, updates, sets_interaction, takes_interaction, answers, interaction_set,
  interaction_taken, step, run, replies,
}

-- Whether an answer may take this slot.
abbrev pub accepts : Bool → RuntimeId → InteractionAnswer → Option InteractionSlot → Bool
accepts open_ id given none = false
accepts open_ id given (some slot) =
    open_ && bytes_eq slot.id id && is_ok (validate_answer given slot.expected)

-- What taking the slot with an answer sends.
abbrev pub sends : Option InteractionSlot → InteractionAnswer → List (ℕ × InteractionAnswer)
sends none given = []
sends (some slot) given = (slot.reply, given) ∷ []

abbrev pub one_if : Bool → ℕ
one_if true = 1
one_if false = 0

-- The answers that a channel got, and the slots of a history that wait on it.
abbrev pub sent_to : ℕ → List (ℕ × InteractionAnswer) → ℕ
sent_to channel [] = 0
sent_to channel ((ch, given) ∷ sent) = one_if (ch == channel) + sent_to channel sent

abbrev pub waiting_on : ℕ → Option InteractionSlot → ℕ
waiting_on channel none = 0
waiting_on channel (some slot) = one_if (slot.reply == channel)

-- The slots that wait on a channel and that the calls of a history set, by what the calls returned; a
-- call that found another slot set none.
abbrev pub set_by : {Config Report : Type 0} → ℕ → Call Config Report → Reply Config → ℕ
set_by channel (sets_interaction slot) (interaction_set (ok u)) = one_if (slot.reply == channel)
set_by channel _ _ = 0

abbrev pub slots_on :
    {Config Report : Type 0} → ℕ → List (Call Config Report) → List (Reply Config) → ℕ
slots_on channel (call ∷ calls) (reply ∷ replies) =
    set_by channel call reply + slots_on channel calls replies
slots_on channel _ _ = 0

-- Those that the runner took back.
abbrev pub taken_by : {Config : Type 0} → ℕ → Reply Config → ℕ
taken_by channel (interaction_taken (some slot)) = one_if (slot.reply == channel)
taken_by channel _ = 0

abbrev pub taken_back : {Config : Type 0} → ℕ → List (Reply Config) → ℕ
taken_back channel [] = 0
taken_back channel (reply ∷ replies) = taken_by channel reply + taken_back channel replies

sent_to-append :
    (channel : ℕ) (xs ys : List (ℕ × InteractionAnswer))
    → sent_to channel (xs ++ ys) ≡ sent_to channel xs + sent_to channel ys
sent_to-append channel [] ys = omega arith
sent_to-append channel ((ch, given) ∷ xs) ys = omega (arith, sent_to-append channel xs ys)

module _ {Config Report : Type 0} where
  answer_cases :
      (id : RuntimeId) (given : InteractionAnswer) (o : Option InteractionSlot)
      (c : Control Config Report)
      → c.interaction ≡ o
      → (is_ok (answer id given c).1
          ≡ accepts (c.accepting_updates && phase_active c.state) id given o)
        × ((answer id given c).0 ≡ (
            if accepts (c.accepting_updates && phase_active c.state) id given o
            then record c { interaction = none; sent = c.sent ++ sends o given }
            else c))
  unfolding answer
  answer_cases id given none c e = rw e (ground arith, ground arith)
  answer_cases id given (some slot) c e = rw e (ground arith, ground arith)

  -- `answer` succeeds exactly when the loop still accepts input and the pending interaction has the
  -- given id and accepts this answer. It then empties the slot and sends the answer into its
  -- channel; on any error it changes nothing.
  pub answer_lem :
      (id : RuntimeId) (given : InteractionAnswer) (c : Control Config Report)
      → (is_ok (answer id given c).1
          ≡ accepts (c.accepting_updates && phase_active c.state) id given c.interaction)
        × ((answer id given c).0 ≡ (
            if accepts (c.accepting_updates && phase_active c.state) id given c.interaction
            then record c { interaction = none; sent = c.sent ++ sends c.interaction given }
            else c))
  answer_lem id given c = answer_cases id given c.interaction c refl

  -- The slots that were answered or still wait.
  abbrev held : ℕ → Control Config Report → ℕ
  held channel c = sent_to channel c.sent + waiting_on channel c.interaction

  held-answer :
      (channel : ℕ) (id : RuntimeId) (given : InteractionAnswer) (o : Option InteractionSlot)
      (c : Control Config Report)
      → c.interaction ≡ o
      → held channel (answer id given c).0 ≡ held channel c
  held-answer channel id given none c e = ground (arith, answer_cases id given none c e)
  held-answer channel id given (some slot) c e = ground (
    arith,
    answer_cases id given (some slot) c e,
    sent_to-append channel c.sent (sends (some slot) given),
  )

  held-set :
      (channel : ℕ) (slot : InteractionSlot) (o : Option InteractionSlot)
      (c : Control Config Report)
      → c.interaction ≡ o
      → held channel (set_interaction slot c).0
        ≡ held channel c
          + set_by {Config = Config} {Report = Report} channel
              (sets_interaction slot)
              (interaction_set (set_interaction slot c).1)
  unfolding set_interaction
  held-set channel slot none c e = rw e (omega arith)
  held-set channel slot (some other) c e = rw e (omega arith)

  held-take :
      (channel : ℕ) (o : Option InteractionSlot) (c : Control Config Report)
      → c.interaction ≡ o
      → held channel (take_interaction c).0
          + taken_by {Config = Config} channel (interaction_taken (take_interaction c).1)
        ≡ held channel c
  unfolding take_interaction
  held-take channel none c e = rw e (omega arith)
  held-take channel (some slot) c e = rw e (omega arith)

  held-step :
      (valid : Config → Bool) (channel : ℕ) (call : Call Config Report) (c : Control Config Report)
      → held channel (step valid call c).0 + taken_by channel (step valid call c).1
        ≡ held channel c + set_by channel call (step valid call c).1
  unfolding step
  held-step valid channel (updates config) c = ground arith
  held-step valid channel (cancels source) c = ground arith
  held-step valid channel (sets_interaction slot) c =
      omega (arith, held-set channel slot c.interaction c refl)
  held-step valid channel takes_interaction c =
      omega (arith, held-take channel c.interaction c refl)
  held-step valid channel (answers id given) c =
      omega (arith, held-answer channel id given c.interaction c refl)
  held-step valid channel _ c = omega arith

  held-run :
      (valid : Config → Bool) (channel : ℕ) (c : Control Config Report)
      (calls : List (Call Config Report))
      → held channel (run valid c calls) + taken_back channel (replies valid c calls)
        ≡ held channel c + slots_on channel calls (replies valid c calls)
  unfolding run replies
  held-run valid channel c [] = omega arith
  held-run valid channel c (call ∷ calls) =
      omega
        (arith, held-step valid channel call c, held-run valid channel (step valid call c).0 calls)

  -- Over any history of a new loop, the slots that were set and wait on a one-shot channel are as many
  -- as the answers sent into the channel, the slots of it that the runner took back, and the slot that
  -- still waits on it, together. A call that found another slot sets none.
  pub answered_once :
      (valid : Config → Bool) (id : RuntimeId) (channel : ℕ) (calls : List (Call Config Report))
      → let c = run valid (new id) calls in
        let returned = replies valid (new id) calls in
        sent_to channel c.sent + taken_back channel returned + waiting_on channel c.interaction
        ≡ slots_on channel calls returned
  unfolding new
  answered_once valid id channel calls = omega (arith, held-run valid channel (new id) calls)
