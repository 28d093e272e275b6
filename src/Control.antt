-- ===== src/Control.antt =====
-- src/agent_loop/control.rs: the state that the runner and the handles share. Each function is one
-- critical section or one atomic access, so any interleaving of threads is a sequence of calls;
-- `update` alone has an atomic access before its critical section, and is also given in two parts.
pub mod Calls
pub mod Host
pub mod Seal
pub mod Updates
pub mod Revisions
pub mod Answers
pub mod Examples
use minicore_runtime.Base.{
  ℕ, ◌-◌, ◌*◌, ◌^◌, Bool, true, false, ◌&&◌, ◌||◌, not, List, [], ◌∷◌, ◌++◌, Option, none, some,
  ltb, if◌then◌else◌, Result, ok, err, ◌>>=◌, is_ok, saturating_add, u64_mod, is_some,
}
use minicore_runtime.Ids.{RuntimeId, Bytes, bytes_eq}
use minicore_runtime.Interaction.{
  InteractionKind, InteractionAnswer, PendingInteraction, validate_answer,
}

-- ConfigRevision of src/execution.rs, a u64.
abbrev pub ConfigRevision : Type 0
ConfigRevision = ℕ

-- ConfigRevision::next
unfoldable pub next : ConfigRevision → ConfigRevision
next revision = saturating_add u64_mod revision 1

pub data CancelSource : Type 0 where
  user owner_dropped shutdown : CancelSource

-- CancelReason of src/agent_loop/mod.rs.
pub data CancelReason : Type 0 where
  user owner_dropped shutdown deadline : CancelReason

-- The values of the atomic state, STATE_NONE to STATE_FINISHED.
pub data Phase : Type 0 where
  active : Phase
  cancel_user cancel_owner_dropped cancel_shutdown : Phase
  finished : Phase

pub data FinishSeal : Type 0 where
  clean : FinishSeal
  cancelled_prior : CancelReason → FinishSeal
  already_finished : FinishSeal

pub data LoopStatus : Type 0 where
  starting running_model running_tools waiting_for_input finishing finished : LoopStatus

pub record LoopState : Type 0 where
  pub loop_id : RuntimeId
  pub status : LoopStatus
  pub request_index : ℕ
  pub config_revision : ConfigRevision
  pub model : Option Bytes
  pub pending_interaction : Option PendingInteraction

-- LoopState::new
abbrev pub new_state : RuntimeId → LoopStatus → ℕ → ConfigRevision → LoopState
new_state loop_id status request_index config_revision = record {
  loop_id = loop_id;
  status = status;
  request_index = request_index;
  config_revision = config_revision;
  model = none;
  pending_interaction = none;
}

-- `reply` names the one-shot channel that the runner waits on.
pub record InteractionSlot : Type 0 where
  pub id : RuntimeId
  pub expected : InteractionKind
  pub reply : ℕ

pub data UpdateError : Type 0 where
  invalid_config not_active : UpdateError

pub data AnswerError : Type 0 where
  interaction_not_found wrong_interaction not_active : AnswerError

pub data InteractionStateError : Type 0 where
  busy : InteractionStateError

pub record PendingConfig (Config : Type 0) : Type 0 where
  pub revision : ConfigRevision
  pub config : Config

-- `sent` lists the answers sent into one-shot channels; `token` is the cancellation token.
pub record Control (Config Report : Type 0) : Type 0 where
  pub id : RuntimeId
  pub token : Bool
  pub loop_state : LoopState
  pub completion : Option Report
  pub state : Phase
  pub interaction : Option InteractionSlot
  pub accepting_updates : Bool
  pub current_revision : ConfigRevision
  pub next_revision : ConfigRevision
  pub pending_config : Option (PendingConfig Config)
  pub sent : List (ℕ × InteractionAnswer)

abbrev pub source_phase : CancelSource → Phase
source_phase CancelSource.user = cancel_user
source_phase CancelSource.owner_dropped = cancel_owner_dropped
source_phase CancelSource.shutdown = cancel_shutdown

-- cancel_reason_value
abbrev pub cancel_reason_value : Phase → CancelReason
cancel_reason_value cancel_owner_dropped = CancelReason.owner_dropped
cancel_reason_value cancel_shutdown = CancelReason.shutdown
cancel_reason_value _ = CancelReason.user

abbrev pub phase_active : Phase → Bool
phase_active active = true
phase_active _ = false

abbrev pub phase_finished : Phase → Bool
phase_finished Phase.finished = true
phase_finished _ = false

-- The seal that `finish_once` reports when it finds the state.
abbrev pub phase_seal : Phase → FinishSeal
phase_seal active = clean
phase_seal Phase.finished = already_finished
phase_seal cancel_user = cancelled_prior (cancel_reason_value cancel_user)
phase_seal cancel_owner_dropped = cancelled_prior (cancel_reason_value cancel_owner_dropped)
phase_seal cancel_shutdown = cancelled_prior (cancel_reason_value cancel_shutdown)

-- The slot that an answer may take.
unfoldable pub answer_check :
    RuntimeId
    → InteractionAnswer
    → Bool
    → Option InteractionSlot
    → Result InteractionSlot AnswerError
answer_check interaction_id given open_ none =
    if open_ then err interaction_not_found else err AnswerError.not_active
answer_check interaction_id given open_ (some slot) =
    if not open_
    then err AnswerError.not_active
    else if not (bytes_eq slot.id interaction_id)
    then err wrong_interaction
    else if is_ok (validate_answer given slot.expected)
    then ok slot
    else err wrong_interaction

module _ {Config Report : Type 0} where
  -- LoopControl::new
  unfoldable pub new : RuntimeId → Control Config Report
  unfolding next
  new id = record {
    id = id;
    token = false;
    loop_state = new_state id starting 0 0;
    completion = none;
    state = active;
    interaction = none;
    accepting_updates = true;
    current_revision = 0;
    next_revision = next 0;
    pending_config = none;
    sent = [];
  }

  abbrev pub is_active : Control Config Report → Bool
  is_active c = phase_active c.state

  abbrev pub is_finished : Control Config Report → Bool
  is_finished c = phase_finished c.state

  -- LoopControl::mark_cancel
  unfoldable pub mark_cancel : CancelSource → Control Config Report → Control Config Report × Bool
  mark_cancel source c =
      if phase_active c.state
      then (record c { state = source_phase source; token = true }, true)
      else (c, false)

  unfoldable pub cancel_reason : Control Config Report → CancelReason
  cancel_reason c = cancel_reason_value c.state

  -- The critical section of `update`.
  unfoldable pub update_locked :
      Config → Control Config Report → Control Config Report × Result ConfigRevision UpdateError
  update_locked config c =
      if not c.accepting_updates || not (phase_active c.state)
      then (c, err UpdateError.not_active)
      else (
        record c {
          next_revision = next c.next_revision;
          pending_config = some (record { revision = c.next_revision; config = config });
        },
        ok c.next_revision,
      )

  -- What `update` does before it locks; `valid` is `validate_against_limits` on the config.
  unfoldable pub update_precheck : Bool → Control Config Report → Result (Unit {0}) UpdateError
  update_precheck valid c =
      if not (phase_active c.state)
      then err UpdateError.not_active
      else if valid
      then ok tt
      else err invalid_config

  -- LoopControl::update
  unfoldable pub update :
      (Config → Bool)
      → Config
      → Control Config Report
      → Control Config Report × Result ConfigRevision UpdateError
  unfolding update_precheck update_locked
  update valid config c = elim (update_precheck (valid config) c) [
    | err e ↦ (c, err e)
    | ok _ ↦ update_locked config c
  ]

  -- LoopControl::take_config
  unfoldable pub take_config :
      Control Config Report → Control Config Report × Option (PendingConfig Config)
  take_config c = (record c { pending_config = none }, c.pending_config)

  -- LoopControl::begin_final
  unfoldable pub begin_final :
      Control Config Report → Control Config Report × Option (PendingConfig Config)
  begin_final c = (record c { accepting_updates = false; pending_config = none }, c.pending_config)

  -- LoopControl::commit_revision
  unfoldable pub commit_revision : ConfigRevision → Control Config Report → Control Config Report
  commit_revision revision c = record c { current_revision = revision }

  -- LoopControl::finish_once. The second exchange starts from the state that the first one found,
  -- which nothing else changes, so the state is FINISHED on every path.
  unfoldable pub finish_once :
      Control Config Report → Control Config Report × (FinishSeal × Option (PendingConfig Config))
  finish_once c = (
    record c { state = Phase.finished; accepting_updates = false; pending_config = none },
    (phase_seal c.state, c.pending_config),
  )

  -- LoopControl::publish_state, and the send of the report.
  unfoldable pub publish_state : LoopState → Control Config Report → Control Config Report
  publish_state state c = record c { loop_state = state }

  unfoldable pub send_report : Report → Control Config Report → Control Config Report
  send_report report c = record c { completion = some report }

  -- LoopControl::set_interaction
  unfoldable pub set_interaction :
      InteractionSlot
      → Control Config Report
      → Control Config Report × Result (Unit {0}) InteractionStateError
  set_interaction slot c =
      if is_some c.interaction then (c, err busy) else (record c { interaction = some slot }, ok tt)

  -- LoopControl::take_interaction
  unfoldable pub take_interaction :
      Control Config Report → Control Config Report × Option InteractionSlot
  take_interaction c = (record c { interaction = none }, c.interaction)

  -- LoopControl::answer
  unfoldable pub answer :
      RuntimeId
      → InteractionAnswer
      → Control Config Report
      → Control Config Report × Result (Unit {0}) AnswerError
  unfolding answer_check
  answer interaction_id given c =
      elim (answer_check interaction_id given (c.accepting_updates && phase_active c.state)
        c.interaction) [
          | err e ↦ (c, err e)
          | ok slot ↦
              (record c { interaction = none; sent = c.sent ++ (slot.reply, given) ∷ [] }, ok tt)
        ]
