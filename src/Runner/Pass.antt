-- ===== src/Runner/Pass.antt =====
-- src/agent_loop/runner.rs: one pass through the loop of `run_loop_inner`. `valid` is the validation of a
-- configuration against the limits, and `encode` the JSON text of an answer.
use minicore_runtime.Base.{
  ℕ, Bool, true, false, List, [], ◌∷◌, Option, none, some, leb, ◌==◌, ◌&&◌, not, if◌then◌else◌,
  Result, ok, err, saturating_add, u32_mod, u64_mod,
}
use minicore_runtime.Text.{Text}
use minicore_runtime.Ids.{RuntimeId}
use minicore_runtime.Interaction.{CanonicalResult}
use minicore_runtime.Usage.{usage_or_default, Usage, sum_usage}
use minicore_runtime.Message.{ToolCall, ModelValueError}
use minicore_runtime.Exchange.{ModelMessage}
use minicore_runtime.Tools.{ToolResultOutcome}
use minicore_runtime.Driver.{ModelDriverFailure}
use minicore_runtime.Control.{
  new_state, starting, running_model, running_tools, begin_final, commit_revision, publish_state,
  LoopStatus,
}
use minicore_runtime.Control.Host.{land}
use minicore_runtime.Batch.{
  FailPath, Panic, Site, ToolResultHistory, settle_calls, round_limit_message,
}
use minicore_runtime.Batch.Call.{run_tool_batch}
use minicore_runtime.Response.{ModelResponse}
use minicore_runtime.Execution.{ExecutionConfig, has_tool}
use minicore_runtime.Request.{ModelRequest}
use minicore_runtime.History.{
  WorkingHistory, AssistantHistory, append_assistant, append_tool_result,
}
use minicore_runtime.Options.{LoopOptions}
use minicore_runtime.Runner.{LoopControl}
use minicore_runtime.Runner.Turn.{
  Progress, Pass, Passed, again, ends, panics, take_boundary, PromptPrep, ready, end_prompt,
  prepare_prompt, build_model_request, map_model_failure, calls_of, no_tool_finish, or_revision,
}

abbrev pub append_results : List ToolResultHistory → WorkingHistory → WorkingHistory
append_results [] working = working
append_results (result ∷ results) working =
    append_results results (append_tool_result result working)

abbrev pub site_of : LoopOptions → RuntimeId → ℕ → Site
site_of options id request_index = record {
  id = id;
  request_index = request_index;
  max_output_bytes = options.limits.max_tool_output_bytes;
}

-- The state that is published during a request.
abbrev pub request_state : LoopStatus → LoopControl → Progress → LoopControl
request_state status c p =
    publish_state
      (record (new_state c.id status p.request_index p.issued_revision) {
        model = some p.config.descriptor.model_ref;
      })
      c

abbrev pub answer_item : RuntimeId → ModelResponse → Progress → AssistantHistory
answer_item id response p = record {
  loop_id = id;
  request_index = p.request_index;
  model = p.config.descriptor.model_ref;
  reasoning = p.config.reasoning;
  content = response.parts;
  provider_replay = response.provider_replay;
  finish_reason = response.finish_reason;
  usage = usage_or_default response.usage;
}

abbrev pub past_deadline : Option ℕ → ℕ → Bool
past_deadline none now = false
past_deadline (some deadline) now = leb deadline now

-- A response that ends the loop without tool calls; only a completion closes the updates first.
abbrev pub ended : FailPath → LoopControl → Progress → LoopControl × Passed
ended FailPath.completed c p = ((begin_final c).0, ends FailPath.completed p)
ended path c p = (c, ends path p)

-- After the settlement of the calls that no round is left for.
abbrev pub out_of_rounds :
    Result (List ToolResultHistory) Panic → LoopControl → Progress → LoopControl × Passed
out_of_rounds (err e) c p = (c, panics)
out_of_rounds (ok results) c p =
    (c, ends FailPath.max_tool_rounds (record p { working = append_results results p.working }))

abbrev pub after_batch :
    LoopControl × Result (List ToolResultHistory × Option FailPath) Panic
    → Progress
    → LoopControl × Passed
after_batch (c, err e) p = (c, panics)
after_batch (c, ok (results, some path)) p =
    (c, ends path (record p { working = append_results results p.working }))
after_batch (c, ok (results, none)) p = (
  c,
  again (record p {
    working = append_results results p.working;
    request_index = saturating_add u32_mod p.request_index 1;
  }),
)

abbrev pub rounds_used : LoopOptions → Progress → Bool
rounds_used options p =
    not (options.max_tool_rounds == 0) && leb options.max_tool_rounds p.tool_rounds

module _ (valid : ExecutionConfig → Bool) (encode : CanonicalResult → Text) (options : LoopOptions)
    (pass : Pass) where
  -- The tool round of a response with calls.
  unfoldable pub tool_round : List ToolCall → LoopControl → Progress → LoopControl × Passed
  unfolding settle_calls run_tool_batch publish_state
  tool_round calls c p =
      if rounds_used options p
      then out_of_rounds
          (settle_calls (site_of options c.id p.request_index) calls ToolResultOutcome.failed
            round_limit_message)
          c p
      else (let p' : Progress = record p { tool_rounds = saturating_add u64_mod p.tool_rounds 1 } in
          after_batch
            (run_tool_batch valid encode (has_tool p.config.tools)
              (site_of options c.id p.request_index) calls pass.outside
              (request_state running_tools c p'))
            p')

  -- After the check of a response's finish reason; the response enters the history.
  unfoldable pub responded :
      ModelResponse
      → Result (Option FailPath) FailPath
      → LoopControl
      → Progress
      → LoopControl × Passed
  unfolding tool_round append_assistant begin_final
  responded response (err path) c p = (c, ends path p)
  responded response (ok (some path)) c p =
      ended path c (record p { working = append_assistant (answer_item c.id response p) p.working })
  responded response (ok none) c p =
      tool_round (calls_of response.parts) c
        (record p { working = append_assistant (answer_item c.id response p) p.working })

  -- After the addition of the response's usage.
  abbrev pub counted :
      ModelResponse → Result Usage (Unit {0}) → LoopControl → Progress → LoopControl × Passed
  counted response (err e) c p = (c, ends FailPath.internal p)
  counted response (ok usage) c p =
      responded response (no_tool_finish (calls_of response.parts) response.finish_reason) c
        (record p { usage = usage })

  abbrev pub answered :
      Result ModelResponse ModelDriverFailure → LoopControl → Progress → LoopControl × Passed
  answered (err failure) c p = (c, ends (map_model_failure c failure) p)
  answered (ok response) c p =
      counted response (sum_usage p.usage (usage_or_default response.usage)) c p

  -- The variables when a request is issued.
  abbrev pub issue : Progress → Progress
  issue p = record p {
    issued_revision = or_revision p.candidate_revision p.issued_revision;
    candidate_revision = none;
    requests = saturating_add u32_mod p.requests 1;
    last_issued_request_index = some p.request_index;
  }

  abbrev pub issued :
      Result ModelRequest ModelValueError → LoopControl → Progress → LoopControl × Passed
  issued (err e) c p = (c, ends FailPath.prompt p)
  issued (ok request) c p =
      answered pass.model_outcome
        (land valid pass.during_model
          (request_state running_model (commit_revision (issue p).issued_revision c) (issue p)))
        (issue p)

  -- After the second boundary: a prompt that something came after is prepared again.
  abbrev pub rebuilt :
      List ModelMessage → LoopControl × Result (Progress × Bool) Panic → LoopControl × Passed
  rebuilt messages (c, err e) = (c, panics)
  rebuilt messages (c, ok (p, true)) = (c, again p)
  rebuilt messages (c, ok (p, false)) = issued (build_model_request messages p.config) c p

  abbrev pub prompted : PromptPrep → LoopControl → Progress → LoopControl × Passed
  prompted (end_prompt path) c p = (c, ends path p)
  prompted (ready messages) c p = rebuilt messages (take_boundary pass.later_inputs c p)

  -- After the first boundary.
  abbrev pub prepared : LoopControl × Result (Progress × Bool) Panic → LoopControl × Passed
  prepared (c, err e) = (c, panics)
  prepared (c, ok (p, taken)) =
      prompted (prepare_prompt pass.prompt_outcome)
        (land valid pass.during_prompt
          (publish_state (new_state c.id starting p.request_index p.issued_revision) c))
        p

  -- One pass, from the control that the handles have left.
  unfoldable pub run_pass : LoopControl → Progress → LoopControl × Passed
  unfolding responded
  run_pass c p =
      if c.token
      then (c, ends FailPath.cancelled p)
      else if past_deadline options.deadline pass.now
      then (c, ends FailPath.deadline p)
      else prepared (take_boundary pass.inputs c p)
