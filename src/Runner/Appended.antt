-- ===== src/Runner/Appended.antt =====
-- The history that a report carries: whatever happens, each response in it has its results.
use minicore_runtime.Base.{
  ℕ, ◌≡◌, refl, Bool, true, false, List, [], ◌∷◌, Option, none, some, Result, ok, err,
  saturating_add, u64_mod, arith, Bool-cases, if_cases, inl, inr,
}
use minicore_runtime.Text.{Text}
use minicore_runtime.Interaction.{CanonicalResult}
use minicore_runtime.Usage.{usage_or_default, Usage, sum_usage}
use minicore_runtime.Message.{ToolCall, ModelValueError}
use minicore_runtime.Exchange.{ModelMessage}
use minicore_runtime.Tools.{ToolResultOutcome}
use minicore_runtime.Driver.{ModelDriverFailure}
use minicore_runtime.Control.{
  running_tools, running_model, commit_revision, publish_state, new_state, starting,
}
use minicore_runtime.Control.Host.{land}
use minicore_runtime.Batch.{FailPath, Panic, Site, settle_calls, round_limit_message}
use minicore_runtime.Batch.Call.{run_tool_batch}
use minicore_runtime.Batch.Results.{settle_calls-AreResultsOf}
use minicore_runtime.Batch.Answers.{run_tool_batch-AreResultsOf}
use minicore_runtime.Response.{ModelResponse, ModelFinishReason}
use minicore_runtime.Execution.{ExecutionConfig, has_tool}
use minicore_runtime.Request.{ModelRequest}
use minicore_runtime.History.{append_user}
use minicore_runtime.Options.{LoopOptions}
use minicore_runtime.Runner.{LoopControl}
use minicore_runtime.Runner.Turn.{
  Progress, Pass, Passed, again, ends, panics, take_boundary, PromptPrep, ready, end_prompt,
  calls_of, no_tool_finish, build_model_request, prepare_prompt,
}
use minicore_runtime.Runner.Loop.{run_passes, Ended, after_pass}
use minicore_runtime.Runner.Pass.{
  site_of, rounds_used, tool_round, responded, counted, answered, issue, issued, rebuilt, prompted,
  prepared, run_pass, request_state, past_deadline,
}
use minicore_runtime.Runner.Exchange.{
  Exchanges, Head, PassedWell, TakenWell, Awaits, with_answer, take_boundary-TakenWell,
  with_answer-Awaits, with_answer-Whole, out_of_rounds-PassedWell, after_batch-PassedWell,
  Head-Whole, ended-PassedWell, nothing, input,
}
use minicore_runtime.Runner.{LoopReport}
use minicore_runtime.Control.Host.{Unsealed, HostCall}
use minicore_runtime.History.{prompt_message}
use minicore_runtime.Options.{LoopRequest}
use minicore_runtime.Runner.Loop.{run_loop, first_progress}
use minicore_runtime.Runner.Report.{LeadsTo, HasReport, run_loop-HasReport}

-- A response that ends the loop has no calls.
no_tool_finish-none :
    (calls : List ToolCall) (reason : ModelFinishReason) (path : FailPath)
    → no_tool_finish calls reason ≡ ok (some path)
    → calls ≡ []
unfolding no_tool_finish
no_tool_finish-none [] reason path e = refl
no_tool_finish-none (call ∷ calls) reason path e = ground arith

module _ (valid : ExecutionConfig → Bool) (encode : CanonicalResult → Text) (options : LoopOptions)
    (pass : Pass) where
  tool_round-PassedWell :
      (calls : List ToolCall) (c : LoopControl) (p : Progress)
      → Awaits options c.id calls p
      → PassedWell options (tool_round valid encode options pass calls c p).1
  unfolding tool_round
  tool_round-PassedWell calls c p w = elim (Bool-cases (rounds_used options p)) [
    | inl t ↦ rw t (
        out_of_rounds-PassedWell options
          (settle_calls (site_of options c.id p.request_index) calls ToolResultOutcome.failed
            round_limit_message)
          c.id calls c p w
          (λ rs e.
            settle_calls-AreResultsOf (site_of options c.id p.request_index) calls
              ToolResultOutcome.failed round_limit_message rs e))
    | inr f ↦
        let p' : Progress = record p { tool_rounds = saturating_add u64_mod p.tool_rounds 1 } in
        let site : Site = site_of options c.id p.request_index in
        rw f (
          after_batch-PassedWell options
            (run_tool_batch valid encode (has_tool p.config.tools) site calls pass.outside
              (request_state running_tools c p'))
            c.id calls p' w
            (λ rs path e.
              run_tool_batch-AreResultsOf valid encode site (has_tool p.config.tools) calls
                pass.outside (request_state running_tools c p') rs path e))
  ]

  responded-PassedWell :
      (r : ModelResponse) (finish : Result (Option FailPath) FailPath) (c : LoopControl)
      (p : Progress)
      → no_tool_finish (calls_of r.parts) r.finish_reason ≡ finish
      → Head options p
      → PassedWell options (responded valid encode options pass r finish c p).1
  unfolding responded
  responded-PassedWell r (err path) c p e h = Head-Whole options p h
  responded-PassedWell r (ok (some path)) c p e h =
      ended-PassedWell options path c (with_answer options c.id r p) (
        with_answer-Whole options c.id r p h
          (no_tool_finish-none (calls_of r.parts) r.finish_reason path e))
  responded-PassedWell r (ok none) c p e h =
      tool_round-PassedWell (calls_of r.parts) c (with_answer options c.id r p)
        (with_answer-Awaits options c.id r p h)

  counted-PassedWell :
      (r : ModelResponse) (usage : Result Usage (Unit {0})) (c : LoopControl) (p : Progress)
      → Head options p
      → PassedWell options (counted valid encode options pass r usage c p).1
  counted-PassedWell r (err e) c p h = Head-Whole options p h
  counted-PassedWell r (ok usage) c p h =
      responded-PassedWell r (no_tool_finish (calls_of r.parts) r.finish_reason) c
        (record p { usage = usage }) refl h

  answered-PassedWell :
      (model : Result ModelResponse ModelDriverFailure) (c : LoopControl) (p : Progress)
      → Head options p
      → PassedWell options (answered valid encode options pass model c p).1
  answered-PassedWell (err f) c p h = Head-Whole options p h
  answered-PassedWell (ok r) c p h =
      counted-PassedWell r (sum_usage p.usage (usage_or_default r.usage)) c p h

  issued-PassedWell :
      (request : Result ModelRequest ModelValueError) (c : LoopControl) (p : Progress)
      → Head options p
      → PassedWell options (issued valid encode options pass request c p).1
  issued-PassedWell (err e) c p h = Head-Whole options p h
  issued-PassedWell (ok r) c p h =
      let q : Progress = issue valid encode options pass p in
      answered-PassedWell pass.model_outcome
        (land valid pass.during_model
          (request_state running_model (commit_revision q.issued_revision c) q))
        q h

  rebuilt-PassedWell :
      (messages : List ModelMessage) (taken : LoopControl × Result (Progress × Bool) Panic)
      → TakenWell options taken.1
      → PassedWell options (rebuilt valid encode options pass messages taken).1
  rebuilt-PassedWell messages (c, err e) t = tt
  rebuilt-PassedWell messages (c, ok (p, true)) t = t
  rebuilt-PassedWell messages (c, ok (p, false)) t =
      issued-PassedWell (build_model_request messages p.config) c p t

  prompted-PassedWell :
      (prep : PromptPrep) (c : LoopControl) (p : Progress)
      → Head options p
      → PassedWell options (prompted valid encode options pass prep c p).1
  prompted-PassedWell (end_prompt path) c p h = Head-Whole options p h
  prompted-PassedWell (ready messages) c p h =
      rebuilt-PassedWell messages (take_boundary pass.later_inputs c p)
        (take_boundary-TakenWell options pass.later_inputs c p h)

  prepared-PassedWell :
      (taken : LoopControl × Result (Progress × Bool) Panic)
      → TakenWell options taken.1
      → PassedWell options (prepared valid encode options pass taken).1
  prepared-PassedWell (c, err e) t = tt
  prepared-PassedWell (c, ok (p, taken)) t =
      prompted-PassedWell (prepare_prompt pass.prompt_outcome)
        (land valid pass.during_prompt
          (publish_state (new_state c.id starting p.request_index p.issued_revision) c))
        p t

  run_pass-PassedWell :
      (c : LoopControl) (p : Progress)
      → Head options p
      → PassedWell options (run_pass valid encode options pass c p).1
  unfolding run_pass
  run_pass-PassedWell c p h =
      if_cases (λ (r : LoopControl × Passed). PassedWell options r.1) c.token
        (λ t. Head-Whole options p h)
        (λ f.
          if_cases (λ (r : LoopControl × Passed). PassedWell options r.1)
            (past_deadline options.deadline pass.now) (λ d. Head-Whole options p h)
            (λ n.
              prepared-PassedWell (take_boundary pass.inputs c p)
                (take_boundary-TakenWell options pass.inputs c p h)))

-- The history of a report is a sequence of exchanges, numbered from zero.
abbrev pub IsExchanged : LoopOptions → LoopReport → Type 0
IsExchanged options report = (j : ℕ) × Exchanges options 0 report.appended j

module _ (valid : ExecutionConfig → Bool) (encode : CanonicalResult → Text)
    (options : LoopOptions) where
  abbrev Exchanging : Ended → Type 0
  Exchanging = LeadsTo (IsExchanged options) valid encode options

  after_pass-Exchanging :
      (passed : LoopControl × Passed) (rest : LoopControl → Progress → Ended)
      → PassedWell options passed.1
      → ((c : LoopControl) (p : Progress) → Head options p → Exchanging (rest c p))
      → Exchanging (after_pass passed rest)
  after_pass-Exchanging (c, again p) rest w k = k c p w
  after_pass-Exchanging (c, ends path p) rest w k = λ id outcome revision e. w
  after_pass-Exchanging (c, panics) rest w k = tt

  run_passes-Exchanging :
      (passes : List Pass) (c : LoopControl) (p : Progress)
      → Head options p
      → Exchanging (run_passes valid encode options passes c p)
  unfolding run_passes
  run_passes-Exchanging [] c p h = tt
  run_passes-Exchanging (pass ∷ passes) c p h =
      after_pass-Exchanging (run_pass valid encode options pass (land valid pass.before c) p)
        (λ c' p'. run_passes valid encode options passes c' p')
        (run_pass-PassedWell valid encode options pass (land valid pass.before c) p h)
        (λ c' p' h'. run_passes-Exchanging passes c' p' h')

  -- The history that a runner appends, if the loop is not sealed when it starts, is a sequence of
  -- the host's inputs and of responses: the responses are numbered from zero, up to the bound of a
  -- `u32`, and each is directly followed by one result for each of its calls, in their order, with
  -- its number and an output within the budget. So it is whatever ends the loop.
  pub run_loop-IsExchanged :
      (request : LoopRequest) (passes : List Pass)
      (sealing panicking : List (HostCall ExecutionConfig)) (c : LoopControl)
      → Unsealed c
      → HasReport
          (IsExchanged options)
          (run_loop valid encode options request passes sealing panicking c)
  unfolding append_user
  run_loop-IsExchanged request passes sealing panicking c u =
      run_loop-HasReport (IsExchanged options) valid encode options request passes sealing panicking
        c u (λ id. (0, nothing 0))
        (run_passes-Exchanging passes c (first_progress valid encode options c.id request) (
          input (record { loop_id = c.id; kind = prompt_message; input = request.input }) 0 0 []
            (nothing 0)))
