-- ===== src/Control/Host.antt =====
-- The calls that handles make, src/agent_loop/handle.rs: they cancel, update and answer, and the rest
-- of the control plane is the runner's.
use minicore_runtime.Base.{◌≡◌, Bool, true, false, List, [], ◌∷◌, none, arith, any}
use minicore_runtime.Ids.{RuntimeId}
use minicore_runtime.Interaction.{InteractionAnswer}
use minicore_runtime.Control.{
  CancelSource, Control, phase_finished, update, update_precheck, update_locked, mark_cancel,
  answer,
}
use minicore_runtime.Control.Calls.{Call, cancels, updates, answers, step}

pub data HostCall (Config : Type 0) : Type 0 where
  host_cancels : CancelSource → HostCall Config
  host_updates : Config → HostCall Config
  host_answers : RuntimeId → InteractionAnswer → HostCall Config

abbrev pub is_update : {Config : Type 0} → HostCall Config → Bool
is_update (host_updates config) = true
is_update _ = false

module _ {Config Report : Type 0} where
  abbrev pub call_of : HostCall Config → Call Config Report
  call_of (host_cancels source) = cancels source
  call_of (host_updates config) = updates config
  call_of (host_answers id given) = answers id given

  -- What the handles do between two steps of the runner.
  unfoldable pub land :
      (Config → Bool) → List (HostCall Config) → Control Config Report → Control Config Report
  unfolding step
  land valid [] c = c
  land valid (call ∷ calls) c = land valid calls (step valid (call_of call) c).0

  -- The loop is not sealed.
  abbrev pub Unsealed : Control Config Report → Type 0
  Unsealed c = phase_finished c.state ≡ false

  host_step-Unsealed :
      (valid : Config → Bool) (call : HostCall Config) (c : Control Config Report)
      → Unsealed c
      → Unsealed (step valid (call_of call) c).0
  unfolding step mark_cancel update update_precheck update_locked answer
  host_step-Unsealed valid (host_cancels CancelSource.user) c h = ground arith
  host_step-Unsealed valid (host_cancels CancelSource.owner_dropped) c h = ground arith
  host_step-Unsealed valid (host_cancels CancelSource.shutdown) c h = ground arith
  host_step-Unsealed valid (host_updates config) c h = ground arith
  host_step-Unsealed valid (host_answers id given) c h = ground arith

  -- No handle seals the loop.
  pub land-Unsealed :
      (valid : Config → Bool) (calls : List (HostCall Config)) (c : Control Config Report)
      → Unsealed c
      → Unsealed (land valid calls c)
  unfolding land
  land-Unsealed valid [] c h = h
  land-Unsealed valid (call ∷ calls) c h =
      land-Unsealed valid calls (step valid (call_of call) c).0 (host_step-Unsealed valid call c h)

  host_step-pending :
      (valid : Config → Bool) (call : HostCall Config) (c : Control Config Report)
      → is_update call ≡ false
      → c.pending_config ≡ none
      → (step valid (call_of call) c).0.pending_config ≡ none
  unfolding step mark_cancel answer
  host_step-pending valid (host_cancels source) c u h = ground arith
  host_step-pending valid (host_updates config) c u h = ground arith
  host_step-pending valid (host_answers id given) c u h = ground arith

  -- Only an update leaves a configuration to be taken.
  pub land-pending :
      (valid : Config → Bool) (calls : List (HostCall Config)) (c : Control Config Report)
      → any is_update calls ≡ false
      → c.pending_config ≡ none
      → (land valid calls c).pending_config ≡ none
  unfolding land
  land-pending valid [] c u h = h
  land-pending valid (call ∷ calls) c u h =
      let v : is_update call ≡ false = ground arith in
      let w : any is_update calls ≡ false = ground arith in
      land-pending valid calls (step valid (call_of call) c).0 w
        (host_step-pending valid call c v h)
