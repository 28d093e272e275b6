-- ===== src/Runner/Completed.antt =====
-- A loop that completes has ended with an answer.
use minicore_runtime.Base.{
  ◌≡◌, ◌≢◌, refl, Bool, true, false, List, [], ◌∷◌, Option, none, some, Result, ok, err, ◌⊎◌, inl,
  inr, if_cases, saturating_add, u64_mod,
}
use minicore_runtime.Text.{Text}
use minicore_runtime.Interaction.{CanonicalResult}
use minicore_runtime.Usage.{usage_or_default, Usage, sum_usage}
use minicore_runtime.Message.{ToolCall, ModelValueError}
use minicore_runtime.Exchange.{ModelMessage}
use minicore_runtime.Tools.{ToolResultOutcome}
use minicore_runtime.Driver.{ModelDriverFailure}
use minicore_runtime.Control.{
  running_tools, running_model, commit_revision, publish_state, new_state, starting,
}
use minicore_runtime.Control.Host.{land, HostCall, Unsealed}
use minicore_runtime.Batch.{FailPath, Panic, Site, settle_calls, round_limit_message}
use minicore_runtime.Batch.Call.{run_tool_batch}
use minicore_runtime.Batch.Paths.{run_tool_batch-BatchBreak}
use minicore_runtime.Response.{ModelResponse}
use minicore_runtime.Execution.{ExecutionConfig, has_tool}
use minicore_runtime.Request.{ModelRequest}
use minicore_runtime.History.{append_assistant}
use minicore_runtime.Options.{LoopOptions, LoopRequest}
use minicore_runtime.Runner.{LoopControl, LoopReport, LoopOutcome}
use minicore_runtime.Runner.Turn.{
  Progress, Pass, Passed, again, ends, panics, take_boundary, PromptPrep, ready, end_prompt,
  calls_of, no_tool_finish, build_model_request, prepare_prompt,
}
use minicore_runtime.Runner.Loop.{run_passes, run_loop, Ended, after_pass, first_progress}
use minicore_runtime.Runner.Pass.{
  site_of, answer_item, rounds_used, tool_round, responded, counted, answered, issue, issued,
  rebuilt, prompted, prepared, run_pass, request_state, past_deadline,
}
use minicore_runtime.Runner.Report.{LeadsTo, HasReport, run_loop-HasReport}
use minicore_runtime.Runner.Breaks.{
  EndsWithAnswer, Concluded, no_tool_finish-stop, no_tool_finish-err, prepare_prompt-IsBreak,
  map_model_failure-IsBreak, ended-Concluded, out_of_rounds-Concluded, after_batch-Concluded,
}

module _ (valid : ExecutionConfig → Bool) (encode : CanonicalResult → Text) (options : LoopOptions)
    (pass : Pass) where
  tool_round-Concluded :
      (calls : List ToolCall) (c : LoopControl) (p : Progress)
      → Concluded (tool_round valid encode options pass calls c p).1
  unfolding tool_round
  tool_round-Concluded calls c p =
      if_cases (λ (r : LoopControl × Passed). Concluded r.1) (rounds_used options p)
        (λ t.
          out_of_rounds-Concluded
            (settle_calls (site_of options c.id p.request_index) calls ToolResultOutcome.failed
              round_limit_message)
            c p)
        (λ f.
          let p' : Progress = record p { tool_rounds = saturating_add u64_mod p.tool_rounds 1 } in
          let site : Site = site_of options c.id p.request_index in
          after_batch-Concluded
            (run_tool_batch valid encode (has_tool p.config.tools) site calls pass.outside
              (request_state running_tools c p'))
            p'
            (run_tool_batch-BatchBreak valid encode site (has_tool p.config.tools) calls
              pass.outside (request_state running_tools c p')))

  responded-Concluded :
      (r : ModelResponse) (finish : Result (Option FailPath) FailPath) (c : LoopControl)
      (p : Progress)
      → no_tool_finish (calls_of r.parts) r.finish_reason ≡ finish
      → Concluded (responded valid encode options pass r finish c p).1
  unfolding responded append_assistant
  responded-Concluded r (err path) c p e =
      inl (no_tool_finish-err (calls_of r.parts) r.finish_reason path e)
  responded-Concluded r (ok (some path)) c p e =
      ended-Concluded path c
        (record p { working = append_assistant (answer_item c.id r p) p.working })
        (elim (no_tool_finish-stop (calls_of r.parts) r.finish_reason path e) [
          | inl b ↦ inl b
          | inr q ↦ inr (p.working.appended, answer_item c.id r p, (refl, q.0, q.1))
        ])
  responded-Concluded r (ok none) c p e =
      tool_round-Concluded (calls_of r.parts) c
        (record p { working = append_assistant (answer_item c.id r p) p.working })

  counted-Concluded :
      (r : ModelResponse) (usage : Result Usage (Unit {0})) (c : LoopControl) (p : Progress)
      → Concluded (counted valid encode options pass r usage c p).1
  counted-Concluded r (err e) c p = inl (λ f. cc)
  counted-Concluded r (ok usage) c p =
      responded-Concluded r (no_tool_finish (calls_of r.parts) r.finish_reason) c
        (record p { usage = usage }) refl

  answered-Concluded :
      (model : Result ModelResponse ModelDriverFailure) (c : LoopControl) (p : Progress)
      → Concluded (answered valid encode options pass model c p).1
  answered-Concluded (err f) c p = inl (map_model_failure-IsBreak c f)
  answered-Concluded (ok r) c p =
      counted-Concluded r (sum_usage p.usage (usage_or_default r.usage)) c p

  issued-Concluded :
      (request : Result ModelRequest ModelValueError) (c : LoopControl) (p : Progress)
      → Concluded (issued valid encode options pass request c p).1
  issued-Concluded (err e) c p = inl (λ f. cc)
  issued-Concluded (ok r) c p =
      let q : Progress = issue valid encode options pass p in
      answered-Concluded pass.model_outcome
        (land valid pass.during_model
          (request_state running_model (commit_revision q.issued_revision c) q))
        q

  rebuilt-Concluded :
      (messages : List ModelMessage) (taken : LoopControl × Result (Progress × Bool) Panic)
      → Concluded (rebuilt valid encode options pass messages taken).1
  rebuilt-Concluded messages (c, err e) = tt
  rebuilt-Concluded messages (c, ok (p, true)) = tt
  rebuilt-Concluded messages (c, ok (p, false)) =
      issued-Concluded (build_model_request messages p.config) c p

  prompted-Concluded :
      (prep : PromptPrep) (c : LoopControl) (p : Progress)
      → prepare_prompt pass.prompt_outcome ≡ prep
      → Concluded (prompted valid encode options pass prep c p).1
  prompted-Concluded (end_prompt path) c p e =
      inl (prepare_prompt-IsBreak pass.prompt_outcome path e)
  prompted-Concluded (ready messages) c p e =
      rebuilt-Concluded messages (take_boundary pass.later_inputs c p)

  prepared-Concluded :
      (taken : LoopControl × Result (Progress × Bool) Panic)
      → Concluded (prepared valid encode options pass taken).1
  prepared-Concluded (c, err e) = tt
  prepared-Concluded (c, ok (p, taken)) =
      prompted-Concluded (prepare_prompt pass.prompt_outcome)
        (land valid pass.during_prompt
          (publish_state (new_state c.id starting p.request_index p.issued_revision) c))
        p refl

  run_pass-Concluded :
      (c : LoopControl) (p : Progress) → Concluded (run_pass valid encode options pass c p).1
  unfolding run_pass
  run_pass-Concluded c p =
      if_cases (λ (r : LoopControl × Passed). Concluded r.1) c.token (λ t. inl (λ e. cc))
        (λ f.
          if_cases (λ (r : LoopControl × Passed). Concluded r.1)
            (past_deadline options.deadline pass.now) (λ d. inl (λ e. cc))
            (λ n. prepared-Concluded (take_boundary pass.inputs c p)))

-- A report that says that the loop completed has an answer at its end.
abbrev pub IsConcluded : LoopReport → Type 0
IsConcluded report = (report.outcome ≢ LoopOutcome.completed) ⊎ EndsWithAnswer report.appended

module _ (valid : ExecutionConfig → Bool) (encode : CanonicalResult → Text)
    (options : LoopOptions) where
  abbrev Concluding : Ended → Type 0
  Concluding = LeadsTo IsConcluded valid encode options

  after_pass-Concluding :
      (passed : LoopControl × Passed) (rest : LoopControl → Progress → Ended)
      → Concluded passed.1
      → ((c : LoopControl) (p : Progress) → Concluding (rest c p))
      → Concluding (after_pass passed rest)
  after_pass-Concluding (c, again p) rest w k = k c p
  after_pass-Concluding (c, ends path p) rest (inl b) k =
      λ id outcome revision e. inl (λ f. b (e f))
  after_pass-Concluding (c, ends path p) rest (inr a) k = λ id outcome revision e. inr a
  after_pass-Concluding (c, panics) rest w k = tt

  run_passes-Concluding :
      (passes : List Pass) (c : LoopControl) (p : Progress)
      → Concluding (run_passes valid encode options passes c p)
  unfolding run_passes
  run_passes-Concluding [] c p = tt
  run_passes-Concluding (pass ∷ passes) c p =
      after_pass-Concluding (run_pass valid encode options pass (land valid pass.before c) p)
        (λ c' p'. run_passes valid encode options passes c' p')
        (run_pass-Concluded valid encode options pass (land valid pass.before c) p)
        (λ c' p'. run_passes-Concluding passes c' p')

  -- The report of a runner that starts with a loop that is not sealed says that the loop completed
  -- only if the last item of its history is a response without tool calls that the model has stopped
  -- at.
  pub run_loop-IsConcluded :
      (request : LoopRequest) (passes : List Pass)
      (sealing panicking : List (HostCall ExecutionConfig)) (c : LoopControl)
      → Unsealed c
      → HasReport IsConcluded (run_loop valid encode options request passes sealing panicking c)
  run_loop-IsConcluded request passes sealing panicking c u =
      run_loop-HasReport IsConcluded valid encode options request passes sealing panicking c u
        (λ id. inl (λ e. cc))
        (run_passes-Concluding passes c (first_progress valid encode options c.id request))
