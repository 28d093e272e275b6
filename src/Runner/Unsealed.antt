-- ===== src/Runner/Unsealed.antt =====
-- No pass of the loop seals it: only its end does.
use minicore_runtime.Base.{
  Bool, true, false, List, [], ◌∷◌, Option, none, some, Result, ok, err, if_cases, saturating_add,
  u64_mod,
}
use minicore_runtime.Text.{Text}
use minicore_runtime.Interaction.{CanonicalResult}
use minicore_runtime.Usage.{usage_or_default, Usage, sum_usage}
use minicore_runtime.Message.{ToolCall, ModelValueError}
use minicore_runtime.Exchange.{ModelMessage}
use minicore_runtime.Tools.{ToolResultOutcome}
use minicore_runtime.Driver.{ModelDriverFailure}
use minicore_runtime.Control.{
  take_config, running_tools, running_model, commit_revision, publish_state, new_state, starting,
  begin_final, LoopStatus,
}
use minicore_runtime.Control.Host.{land, Unsealed, land-Unsealed}
use minicore_runtime.Batch.{
  FailPath, Panic, Site, ToolResultHistory, settle_calls, round_limit_message,
}
use minicore_runtime.Batch.Call.{run_tool_batch}
use minicore_runtime.Batch.Unsealed.{run_tool_batch-Unsealed}
use minicore_runtime.Response.{ModelResponse}
use minicore_runtime.Execution.{ExecutionConfig, has_tool}
use minicore_runtime.Request.{ModelRequest}
use minicore_runtime.History.{append_assistant}
use minicore_runtime.Options.{LoopOptions}
use minicore_runtime.Runner.{LoopControl}
use minicore_runtime.Runner.Turn.{
  Progress, Pass, Passed, again, ends, panics, take_boundary, PromptPrep, ready, end_prompt,
  calls_of, no_tool_finish, build_model_request, prepare_prompt,
}
use minicore_runtime.Runner.Loop.{run_passes, Ended, after_pass}
use minicore_runtime.Runner.Pass.{
  site_of, answer_item, ended, out_of_rounds, after_batch, rounds_used, tool_round, responded,
  counted, answered, issue, issued, rebuilt, prompted, prepared, run_pass, request_state,
  past_deadline,
}

take_boundary-Unsealed :
    (inputs : Result (List Text) Panic) (c : LoopControl) (p : Progress)
    → Unsealed c
    → Unsealed (take_boundary inputs c p).0
unfolding take_boundary take_config
take_boundary-Unsealed inputs c p u = u

request_state-Unsealed :
    (status : LoopStatus) (c : LoopControl) (p : Progress)
    → Unsealed c
    → Unsealed (request_state status c p)
unfolding publish_state
request_state-Unsealed status c p u = u

ended-Unsealed :
    (path : FailPath) (c : LoopControl) (p : Progress) → Unsealed c → Unsealed (ended path c p).0
unfolding begin_final
ended-Unsealed FailPath.completed c p u = u
ended-Unsealed FailPath.cancelled c p u = u
ended-Unsealed FailPath.deadline c p u = u
ended-Unsealed FailPath.prompt c p u = u
ended-Unsealed (FailPath.model e) c p u = u
ended-Unsealed (FailPath.invalid_model_response e) c p u = u
ended-Unsealed FailPath.output_limit c p u = u
ended-Unsealed FailPath.refused c p u = u
ended-Unsealed FailPath.content_filtered c p u = u
ended-Unsealed FailPath.policy c p u = u
ended-Unsealed FailPath.interaction c p u = u
ended-Unsealed FailPath.max_tool_rounds c p u = u
ended-Unsealed FailPath.internal c p u = u

out_of_rounds-Unsealed :
    (settled : Result (List ToolResultHistory) Panic) (c : LoopControl) (p : Progress)
    → Unsealed c
    → Unsealed (out_of_rounds settled c p).0
out_of_rounds-Unsealed (err e) c p u = u
out_of_rounds-Unsealed (ok rs) c p u = u

after_batch-Unsealed :
    (batch : LoopControl × Result (List ToolResultHistory × Option FailPath) Panic) (p : Progress)
    → Unsealed batch.0
    → Unsealed (after_batch batch p).0
after_batch-Unsealed (c, err e) p u = u
after_batch-Unsealed (c, ok (rs, some path)) p u = u
after_batch-Unsealed (c, ok (rs, none)) p u = u

module _ (valid : ExecutionConfig → Bool) (encode : CanonicalResult → Text) (options : LoopOptions)
    (pass : Pass) where
  tool_round-Unsealed :
      (calls : List ToolCall) (c : LoopControl) (p : Progress)
      → Unsealed c
      → Unsealed (tool_round valid encode options pass calls c p).0
  unfolding tool_round
  tool_round-Unsealed calls c p u =
      if_cases (λ (r : LoopControl × Passed). Unsealed r.0) (rounds_used options p)
        (λ t.
          out_of_rounds-Unsealed
            (settle_calls (site_of options c.id p.request_index) calls ToolResultOutcome.failed
              round_limit_message)
            c p u)
        (λ f.
          let p' : Progress = record p { tool_rounds = saturating_add u64_mod p.tool_rounds 1 } in
          let site : Site = site_of options c.id p.request_index in
          after_batch-Unsealed
            (run_tool_batch valid encode (has_tool p.config.tools) site calls pass.outside
              (request_state running_tools c p'))
            p'
            (run_tool_batch-Unsealed valid encode site (has_tool p.config.tools) calls pass.outside
              (request_state running_tools c p') (request_state-Unsealed running_tools c p' u)))

  responded-Unsealed :
      (r : ModelResponse) (finish : Result (Option FailPath) FailPath) (c : LoopControl)
      (p : Progress)
      → Unsealed c
      → Unsealed (responded valid encode options pass r finish c p).0
  unfolding responded
  responded-Unsealed r (err path) c p u = u
  responded-Unsealed r (ok (some path)) c p u =
      ended-Unsealed path c
        (record p { working = append_assistant (answer_item c.id r p) p.working }) u
  responded-Unsealed r (ok none) c p u =
      tool_round-Unsealed (calls_of r.parts) c
        (record p { working = append_assistant (answer_item c.id r p) p.working }) u

  counted-Unsealed :
      (r : ModelResponse) (usage : Result Usage (Unit {0})) (c : LoopControl) (p : Progress)
      → Unsealed c
      → Unsealed (counted valid encode options pass r usage c p).0
  counted-Unsealed r (err e) c p u = u
  counted-Unsealed r (ok usage) c p u =
      responded-Unsealed r (no_tool_finish (calls_of r.parts) r.finish_reason) c
        (record p { usage = usage }) u

  answered-Unsealed :
      (model : Result ModelResponse ModelDriverFailure) (c : LoopControl) (p : Progress)
      → Unsealed c
      → Unsealed (answered valid encode options pass model c p).0
  answered-Unsealed (err f) c p u = u
  answered-Unsealed (ok r) c p u =
      counted-Unsealed r (sum_usage p.usage (usage_or_default r.usage)) c p u

  issued-Unsealed :
      (request : Result ModelRequest ModelValueError) (c : LoopControl) (p : Progress)
      → Unsealed c
      → Unsealed (issued valid encode options pass request c p).0
  unfolding commit_revision
  issued-Unsealed (err e) c p u = u
  issued-Unsealed (ok r) c p u =
      let q : Progress = issue valid encode options pass p in
      let c' : LoopControl = request_state running_model (commit_revision q.issued_revision c) q in
      answered-Unsealed pass.model_outcome (land valid pass.during_model c') q (
        land-Unsealed valid pass.during_model c'
          (request_state-Unsealed running_model (commit_revision q.issued_revision c) q u))

  rebuilt-Unsealed :
      (messages : List ModelMessage) (taken : LoopControl × Result (Progress × Bool) Panic)
      → Unsealed taken.0
      → Unsealed (rebuilt valid encode options pass messages taken).0
  rebuilt-Unsealed messages (c, err e) u = u
  rebuilt-Unsealed messages (c, ok (p, true)) u = u
  rebuilt-Unsealed messages (c, ok (p, false)) u =
      issued-Unsealed (build_model_request messages p.config) c p u

  prompted-Unsealed :
      (prep : PromptPrep) (c : LoopControl) (p : Progress)
      → Unsealed c
      → Unsealed (prompted valid encode options pass prep c p).0
  prompted-Unsealed (end_prompt path) c p u = u
  prompted-Unsealed (ready messages) c p u =
      rebuilt-Unsealed messages (take_boundary pass.later_inputs c p)
        (take_boundary-Unsealed pass.later_inputs c p u)

  prepared-Unsealed :
      (taken : LoopControl × Result (Progress × Bool) Panic)
      → Unsealed taken.0
      → Unsealed (prepared valid encode options pass taken).0
  unfolding publish_state
  prepared-Unsealed (c, err e) u = u
  prepared-Unsealed (c, ok (p, taken)) u =
      let c' : LoopControl =
        publish_state (new_state c.id starting p.request_index p.issued_revision) c in
      prompted-Unsealed (prepare_prompt pass.prompt_outcome) (land valid pass.during_prompt c') p
        (land-Unsealed valid pass.during_prompt c' u)

  run_pass-Unsealed :
      (c : LoopControl) (p : Progress)
      → Unsealed c
      → Unsealed (run_pass valid encode options pass c p).0
  unfolding run_pass
  run_pass-Unsealed c p u =
      if_cases (λ (r : LoopControl × Passed). Unsealed r.0) c.token (λ t. u)
        (λ f.
          if_cases (λ (r : LoopControl × Passed). Unsealed r.0)
            (past_deadline options.deadline pass.now) (λ d. u)
            (λ n.
              prepared-Unsealed (take_boundary pass.inputs c p)
                (take_boundary-Unsealed pass.inputs c p u)))

after_pass-Unsealed :
    (passed : LoopControl × Passed) (rest : LoopControl → Progress → Ended)
    → Unsealed passed.0
    → ((c : LoopControl) (p : Progress) → Unsealed c → Unsealed (rest c p).0)
    → Unsealed (after_pass passed rest).0
after_pass-Unsealed (c, again p) rest u k = k c p u
after_pass-Unsealed (c, ends path p) rest u k = u
after_pass-Unsealed (c, panics) rest u k = u

pub run_passes-Unsealed :
    (valid : ExecutionConfig → Bool) (encode : CanonicalResult → Text) (options : LoopOptions)
    (passes : List Pass) (c : LoopControl) (p : Progress)
    → Unsealed c
    → Unsealed (run_passes valid encode options passes c p).0
unfolding run_passes
run_passes-Unsealed valid encode options [] c p u = u
run_passes-Unsealed valid encode options (pass ∷ passes) c p u =
    after_pass-Unsealed (run_pass valid encode options pass (land valid pass.before c) p)
      (λ c' p'. run_passes valid encode options passes c' p')
      (run_pass-Unsealed valid encode options pass (land valid pass.before c) p
        (land-Unsealed valid pass.before c u))
      (λ c' p' u'. run_passes-Unsealed valid encode options passes c' p' u')
