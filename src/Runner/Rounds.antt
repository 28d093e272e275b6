-- ===== src/Runner/Rounds.antt =====
-- How the counts of the loop move in one pass: a request is issued at most once.
use minicore_runtime.Base.{
  ℕ, ◌≡◌, refl, Bool, true, false, List, [], ◌∷◌, any, Option, none, some, Result, ok, err,
  if_cases, Bool-cases, saturating_add, u64_mod, ◌⊎◌, inl, inr, arith,
}
use minicore_runtime.Text.{Text}
use minicore_runtime.Interaction.{CanonicalResult}
use minicore_runtime.Usage.{usage_or_default, Usage, sum_usage}
use minicore_runtime.Message.{ToolCall, ModelValueError}
use minicore_runtime.Exchange.{ModelMessage}
use minicore_runtime.Tools.{ToolResultOutcome}
use minicore_runtime.Driver.{ModelDriverFailure}
use minicore_runtime.Control.{
  take_config, running_tools, running_model, commit_revision, publish_state, new_state, starting,
  PendingConfig,
}
use minicore_runtime.Control.Host.{land, is_update, land-pending}
use minicore_runtime.Batch.{FailPath, Panic, settle_calls, round_limit_message}
use minicore_runtime.Batch.Call.{run_tool_batch}
use minicore_runtime.Response.{ModelResponse}
use minicore_runtime.Execution.{ExecutionConfig, has_tool}
use minicore_runtime.Request.{ModelRequest}
use minicore_runtime.History.{append_assistant}
use minicore_runtime.Options.{LoopOptions}
use minicore_runtime.Runner.{LoopControl}
use minicore_runtime.Runner.Turn.{
  Progress, Pass, Passed, ends, take_boundary, PromptPrep, ready, end_prompt, calls_of,
  no_tool_finish, build_model_request, prepare_prompt, with_config,
}
use minicore_runtime.Runner.Pass.{
  site_of, answer_item, rounds_used, tool_round, responded, counted, answered, issue, issued,
  rebuilt, prompted, prepared, run_pass, request_state, past_deadline,
}
use minicore_runtime.Runner.Counts.{
  Counted, Limited, Advanced, Issued, quiet, no_inputs, ended-Advanced, out_of_rounds-Advanced,
  after_batch-Advanced, next_round,
}

module _ (valid : ExecutionConfig → Bool) (encode : CanonicalResult → Text) (options : LoopOptions)
    (pass : Pass) where
  tool_round-Advanced :
      (q : Bool) (rounds : ℕ) (calls : List ToolCall) (c : LoopControl) (p : Progress)
      → Issued options q rounds p
      → Advanced options q rounds (tool_round valid encode options pass calls c p).1
  unfolding tool_round
  tool_round-Advanced q rounds calls c p w =
      if_cases (λ (r : LoopControl × Passed). Advanced options q rounds r.1) (rounds_used options p)
        (λ t.
          out_of_rounds-Advanced options q rounds
            (settle_calls (site_of options c.id p.request_index) calls ToolResultOutcome.failed
              round_limit_message)
            c p w)
        (λ f.
          let p' : Progress = record p { tool_rounds = saturating_add u64_mod p.tool_rounds 1 } in
          let n = next_round options q p rounds f w in
          after_batch-Advanced options q rounds
            (run_tool_batch valid encode (has_tool p.config.tools)
              (site_of options c.id p.request_index) calls pass.outside
              (request_state running_tools c p'))
            p' n.0 n.1 n.2)

  responded-Advanced :
      (q : Bool) (rounds : ℕ) (r : ModelResponse) (finish : Result (Option FailPath) FailPath)
      (c : LoopControl) (p : Progress)
      → Issued options q rounds p
      → Advanced options q rounds (responded valid encode options pass r finish c p).1
  unfolding responded
  responded-Advanced q rounds r (err path) c p w = (w.0, w.1)
  responded-Advanced q rounds r (ok (some path)) c p w =
      ended-Advanced options q rounds path c
        (record p { working = append_assistant (answer_item c.id r p) p.working }) w
  responded-Advanced q rounds r (ok none) c p w =
      tool_round-Advanced q rounds (calls_of r.parts) c
        (record p { working = append_assistant (answer_item c.id r p) p.working }) w

  counted-Advanced :
      (q : Bool) (rounds : ℕ) (r : ModelResponse) (usage : Result Usage (Unit {0}))
      (c : LoopControl) (p : Progress)
      → Issued options q rounds p
      → Advanced options q rounds (counted valid encode options pass r usage c p).1
  counted-Advanced q rounds r (err e) c p w = (w.0, w.1)
  counted-Advanced q rounds r (ok usage) c p w =
      responded-Advanced q rounds r (no_tool_finish (calls_of r.parts) r.finish_reason) c
        (record p { usage = usage }) w

  answered-Advanced :
      (q : Bool) (rounds : ℕ) (model : Result ModelResponse ModelDriverFailure) (c : LoopControl)
      (p : Progress)
      → Issued options q rounds p
      → Advanced options q rounds (answered valid encode options pass model c p).1
  answered-Advanced q rounds (err f) c p w = (w.0, w.1)
  answered-Advanced q rounds (ok r) c p w =
      counted-Advanced q rounds r (sum_usage p.usage (usage_or_default r.usage)) c p w

  -- Before a request is issued.
  abbrev Ready : ℕ → Progress → Type 0
  Ready rounds p = Counted p × Limited options p.tool_rounds × (p.tool_rounds ≡ rounds)

  -- An end before the request.
  Ready-Final :
      (q : Bool) (rounds : ℕ) (path : FailPath) (p : Progress)
      → Ready rounds p
      → Advanced options q rounds (ends path p)
  Ready-Final q rounds path p w = (omega (arith, w.0.0), w.1)

  issued-Advanced :
      (q : Bool) (rounds : ℕ) (request : Result ModelRequest ModelValueError) (c : LoopControl)
      (p : Progress)
      → Ready rounds p
      → Advanced options q rounds (issued valid encode options pass request c p).1
  issued-Advanced q rounds (err e) c p w = Ready-Final q rounds FailPath.prompt p w
  issued-Advanced q rounds (ok r) c p w =
      let p' : Progress = issue valid encode options pass p in
      answered-Advanced q rounds pass.model_outcome
        (land valid pass.during_model
          (request_state running_model (commit_revision p'.issued_revision c) p'))
        p' (ground arith)

  -- What a boundary leaves, with its flag.
  abbrev Boundary : ℕ → Bool → Result (Progress × Bool) Panic → Type 0
  Boundary rounds q (err e) = Unit
  Boundary rounds q (ok (p, taken)) = Ready rounds p × ((q ≡ false) ⊎ (taken ≡ false))

  with_config-Ready :
      (rounds : ℕ) (pending : Option (PendingConfig ExecutionConfig)) (p : Progress)
      → Ready rounds p
      → Ready rounds (with_config pending p)
  with_config-Ready rounds none p w = w
  with_config-Ready rounds (some pending) p w = w

  take_boundary-Boundary :
      (rounds : ℕ) (q : Bool) (inputs : Result (List Text) Panic) (c : LoopControl) (p : Progress)
      → Ready rounds p
      → ((q ≡ false) ⊎ ((no_inputs inputs ≡ true) × (c.pending_config ≡ none)))
      → Boundary rounds q (take_boundary inputs c p).1
  unfolding take_boundary take_config
  take_boundary-Boundary rounds q (err e) c p w n = tt
  take_boundary-Boundary rounds q (ok inputs) c p w (inl f) =
      (with_config-Ready rounds c.pending_config p w, inl f)
  take_boundary-Boundary rounds q (ok []) c p w (inr e) =
      (with_config-Ready rounds c.pending_config p w, inr (rw e.1 refl))
  take_boundary-Boundary rounds q (ok (x ∷ inputs)) c p w (inr e) = ground arith

  take_boundary-pending :
      (inputs : Result (List Text) Panic) (c : LoopControl) (p : Progress)
      → (take_boundary inputs c p).0.pending_config ≡ none
  unfolding take_boundary take_config
  take_boundary-pending inputs c p = refl

  rebuilt-Advanced :
      (q : Bool) (rounds : ℕ) (messages : List ModelMessage)
      (taken : LoopControl × Result (Progress × Bool) Panic)
      → Boundary rounds q taken.1
      → Advanced options q rounds (rebuilt valid encode options pass messages taken).1
  rebuilt-Advanced q rounds messages (c, err e) b = tt
  rebuilt-Advanced q rounds messages (c, ok (p, true)) b = ground arith
  rebuilt-Advanced q rounds messages (c, ok (p, false)) b =
      issued-Advanced q rounds (build_model_request messages p.config) c p b.0

  prompted-Advanced :
      (q : Bool) (rounds : ℕ) (prep : PromptPrep) (c : LoopControl) (p : Progress)
      → Ready rounds p
      → ((q ≡ false) ⊎ ((no_inputs pass.later_inputs ≡ true) × (c.pending_config ≡ none)))
      → Advanced options q rounds (prompted valid encode options pass prep c p).1
  prompted-Advanced q rounds (end_prompt path) c p w n = Ready-Final q rounds path p w
  prompted-Advanced q rounds (ready messages) c p w n =
      rebuilt-Advanced q rounds messages (take_boundary pass.later_inputs c p)
        (take_boundary-Boundary rounds q pass.later_inputs c p w n)

  prepared-Advanced :
      (rounds : ℕ) (taken : LoopControl × Result (Progress × Bool) Panic)
      → Boundary rounds false taken.1
      → taken.0.pending_config ≡ none
      → Advanced options (quiet pass) rounds (prepared valid encode options pass taken).1
  unfolding publish_state
  prepared-Advanced rounds (c, err e) b n = tt
  prepared-Advanced rounds (c, ok (p, t)) b n =
      let c' : LoopControl =
        publish_state (new_state c.id starting p.request_index p.issued_revision) c in
      prompted-Advanced (quiet pass) rounds (prepare_prompt pass.prompt_outcome)
        (land valid pass.during_prompt c') p b.0 (still (Bool-cases (quiet pass)))
    where
      still :
          (quiet pass ≡ true) ⊎ (quiet pass ≡ false)
          → (quiet pass ≡ false)
            ⊎ ((no_inputs pass.later_inputs ≡ true)
                × ((land valid pass.during_prompt (
                      publish_state
                        (new_state c.id starting p.request_index p.issued_revision)
                        c)).pending_config
                    ≡ none))
      still (inr f) = inl f
      still (inl t) =
          let u : any is_update pass.during_prompt ≡ false = ground arith in
          let i : no_inputs pass.later_inputs ≡ true = ground arith in
          inr (
            i,
            land-pending valid pass.during_prompt
                (publish_state (new_state c.id starting p.request_index p.issued_revision) c) u n,
          )

  pub run_pass-Advanced :
      (c : LoopControl) (p : Progress)
      → Counted p
      → Limited options p.tool_rounds
      → Advanced options (quiet pass) p.tool_rounds (run_pass valid encode options pass c p).1
  unfolding run_pass
  run_pass-Advanced c p w l =
      if_cases (λ (r : LoopControl × Passed). Advanced options (quiet pass) p.tool_rounds r.1)
        c.token (λ t. Ready-Final (quiet pass) p.tool_rounds FailPath.cancelled p (w, l, refl))
        (λ f.
          if_cases (λ (r : LoopControl × Passed). Advanced options (quiet pass) p.tool_rounds r.1)
            (past_deadline options.deadline pass.now)
            (λ d. Ready-Final (quiet pass) p.tool_rounds FailPath.deadline p (w, l, refl))
            (λ n.
              prepared-Advanced p.tool_rounds (take_boundary pass.inputs c p)
                (take_boundary-Boundary p.tool_rounds false pass.inputs c p (w, l, refl) (inl refl))
                (take_boundary-pending pass.inputs c p)))
