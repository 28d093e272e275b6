-- ===== src/Runner/Loop.antt =====
-- src/agent_loop/runner.rs: the loop, and the runner that catches a panic of it. `valid` is the
-- validation of a configuration against the limits, and `encode` the JSON text of an answer.
use minicore_runtime.Base.{Bool, List, [], ◌∷◌, Option, none, some, Result, ok, err}
use minicore_runtime.Text.{Text}
use minicore_runtime.Ids.{RuntimeId}
use minicore_runtime.Interaction.{CanonicalResult}
use minicore_runtime.Usage.{default_usage}
use minicore_runtime.Control.Host.{HostCall, land}
use minicore_runtime.Batch.{FailPath, Panic}
use minicore_runtime.Execution.{ExecutionConfig}
use minicore_runtime.History.{prompt_message, append_user, new_working}
use minicore_runtime.Options.{LoopOptions, LoopRequest}
use minicore_runtime.Runner.{LoopControl, LoopReport, Totals, finish_loop, panic_report}
use minicore_runtime.Runner.Turn.{Progress, Pass, Passed, again, ends, panics}
use minicore_runtime.Runner.Pass.{run_pass}

-- How the loop ends; none if the passes are over and it still runs.
abbrev pub Ended : Type 0
Ended = LoopControl × Option (Result (FailPath × Progress) Panic)

abbrev pub after_pass : LoopControl × Passed → (LoopControl → Progress → Ended) → Ended
after_pass (c, again p) rest = rest c p
after_pass (c, ends path p) rest = (c, some (ok (path, p)))
after_pass (c, panics) rest = (c, some (err Panic.panic))

module _ (valid : ExecutionConfig → Bool) (encode : CanonicalResult → Text)
    (options : LoopOptions) where
  unfoldable pub run_passes : List Pass → LoopControl → Progress → Ended
  unfolding run_pass
  run_passes [] c p = (c, none)
  run_passes (pass ∷ passes) c p =
      after_pass (run_pass valid encode options pass (land valid pass.before c) p)
        (λ c' p'. run_passes passes c' p')

  abbrev pub first_progress : RuntimeId → LoopRequest → Progress
  first_progress id request = record {
    working =
        append_user (record { loop_id = id; kind = prompt_message; input = request.input })
          (new_working request.history);
    config = request.config;
    issued_revision = 0;
    candidate_revision = none;
    request_index = 0;
    tool_rounds = 0;
    requests = 0;
    last_issued_request_index = none;
    usage = default_usage;
  }

  abbrev pub totals_of : Progress → Totals
  totals_of p = record {
    appended = p.working.appended;
    usage = p.usage;
    requests = p.requests;
    last_issued_request_index = p.last_issued_request_index;
    tool_rounds = p.tool_rounds;
  }

  -- `sealing` and `panicking` are what the handles do before the seal of either end.
  abbrev pub finished :
      List (HostCall ExecutionConfig) → Ended → LoopControl × Option (Result LoopReport Panic)
  finished sealing (c, none) = (c, none)
  finished sealing (c, some (err e)) = (c, some (err e))
  finished sealing (c, some (ok (path, p))) =
      let (c', report) = finish_loop valid sealing path (totals_of p) c in (c', some report)

  unfoldable pub run_loop_inner :
      LoopRequest
      → List Pass
      → List (HostCall ExecutionConfig)
      → LoopControl
      → LoopControl × Option (Result LoopReport Panic)
  unfolding run_passes finish_loop append_user
  run_loop_inner request passes sealing c =
      finished sealing (run_passes passes c (first_progress c.id request))

  abbrev pub caught :
      List (HostCall ExecutionConfig)
      → LoopControl × Option (Result LoopReport Panic)
      → LoopControl × Option (Result LoopReport Panic)
  caught panicking (c, some (err e)) =
      let (c', report) = panic_report (land valid panicking c) in (c', some report)
  caught panicking (c, end) = (c, end)

  unfoldable pub run_loop :
      LoopRequest
      → List Pass
      → List (HostCall ExecutionConfig)
      → List (HostCall ExecutionConfig)
      → LoopControl
      → LoopControl × Option (Result LoopReport Panic)
  unfolding run_loop_inner panic_report
  run_loop request passes sealing panicking c =
      caught panicking (run_loop_inner request passes sealing c)
