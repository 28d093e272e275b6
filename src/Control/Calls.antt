-- ===== src/Control/Calls.antt =====
-- A history of the control plane: the calls of the runner and of any number of handles, in the
-- order of their critical sections and atomic accesses, each with what it returned.
use minicore_runtime.Base.{◌≡◌, Bool, List, [], ◌∷◌, ◌++◌, Option, Result, refl, ap}
use minicore_runtime.Ids.{RuntimeId}
use minicore_runtime.Interaction.{InteractionAnswer}
use minicore_runtime.Control.{
  ConfigRevision, CancelSource, FinishSeal, InteractionSlot, UpdateError, AnswerError,
  InteractionStateError, PendingConfig, Control, LoopState, mark_cancel, update, take_config,
  begin_final, commit_revision, finish_once, set_interaction, take_interaction, answer,
  publish_state, send_report,
}

pub data Call (Config Report : Type 0) : Type 0 where
  cancels : CancelSource → Call Config Report
  updates : Config → Call Config Report
  takes_config : Call Config Report
  begins_final : Call Config Report
  commits : ConfigRevision → Call Config Report
  finishes : Call Config Report
  sets_interaction : InteractionSlot → Call Config Report
  takes_interaction : Call Config Report
  answers : RuntimeId → InteractionAnswer → Call Config Report
  publishes : LoopState → Call Config Report
  sends_report : Report → Call Config Report

pub data Reply (Config : Type 0) : Type 0 where
  cancelled : Bool → Reply Config
  updated : Result ConfigRevision UpdateError → Reply Config
  config_taken : Option (PendingConfig Config) → Reply Config
  sealed : FinishSeal → Option (PendingConfig Config) → Reply Config
  interaction_set : Result (Unit {0}) InteractionStateError → Reply Config
  interaction_taken : Option InteractionSlot → Reply Config
  answered : Result (Unit {0}) AnswerError → Reply Config
  done : Reply Config

module _ {Config Report : Type 0} (valid : Config → Bool) where
  unfoldable pub step :
      Call Config Report → Control Config Report → Control Config Report × Reply Config
  unfolding mark_cancel update take_config begin_final commit_revision finish_once set_interaction
      take_interaction answer publish_state send_report
  step (cancels source) c = let (c', won) = mark_cancel source c in (c', cancelled won)
  step (updates config) c = let (c', r) = update valid config c in (c', updated r)
  step takes_config c = let (c', pending) = take_config c in (c', config_taken pending)
  step begins_final c = let (c', pending) = begin_final c in (c', config_taken pending)
  step (commits revision) c = (commit_revision revision c, done)
  step finishes c = let (c', (seal, pending)) = finish_once c in (c', sealed seal pending)
  step (sets_interaction slot) c = let (c', r) = set_interaction slot c in (c', interaction_set r)
  step takes_interaction c = let (c', slot) = take_interaction c in (c', interaction_taken slot)
  step (answers id given) c = let (c', r) = answer id given c in (c', answered r)
  step (publishes state) c = (publish_state state c, done)
  step (sends_report report) c = (send_report report c, done)

  unfoldable pub run : Control Config Report → List (Call Config Report) → Control Config Report
  run c [] = c
  run c (call ∷ calls) = run (step call c).0 calls

  unfoldable pub replies : Control Config Report → List (Call Config Report) → List (Reply Config)
  replies c [] = []
  replies c (call ∷ calls) = (step call c).1 ∷ replies (step call c).0 calls

  pub run-append :
      (c : Control Config Report) (before after : List (Call Config Report))
      → run c (before ++ after) ≡ run (run c before) after
  unfolding run
  run-append c [] after = refl
  run-append c (a ∷ before) after = run-append (step a c).0 before after

  pub replies-append :
      (c : Control Config Report) (before after : List (Call Config Report))
      → replies c (before ++ after) ≡ replies c before ++ replies (run c before) after
  unfolding run replies
  replies-append c [] after = refl
  replies-append c (a ∷ before) after =
      ap (◌∷◌ (step a c).1) (replies-append (step a c).0 before after)
