-- ===== src/Runner/Bounds.antt =====
-- The tool rounds of a loop keep to their limit, its requests are at most one more, and with a limit
-- the loop ends.
use minicore_runtime.Base.{
  ℕ, suc, ◌+◌, ◌≤◌, ◌<◌, ◌≡◌, ◌^◌, refl, Bool, true, false, List, [], ◌∷◌, Option, none, some,
  is_some, Result, ok, err, inr, arith, if◌then◌else◌,
}
use minicore_runtime.Text.{Text}
use minicore_runtime.Interaction.{CanonicalResult}
use minicore_runtime.Control.Host.{HostCall, land, Unsealed}
use minicore_runtime.Batch.{Panic}
use minicore_runtime.Execution.{ExecutionConfig}
use minicore_runtime.Options.{LoopOptions, LoopRequest}
use minicore_runtime.Runner.{LoopControl, LoopReport}
use minicore_runtime.Runner.Turn.{Progress, Pass, Passed, again, ends, panics}
use minicore_runtime.Runner.Loop.{
  Ended, run_passes, run_loop, run_loop_inner, after_pass, first_progress, caught, finished,
}
use minicore_runtime.Runner.Pass.{run_pass}
use minicore_runtime.Runner.Report.{LeadsTo, HasReport, run_loop-HasReport}
use minicore_runtime.Runner.Published.{Reported, run_loop-Reported}
use minicore_runtime.Runner.Counts.{Counted, Limited, Advanced, quiet}
use minicore_runtime.Runner.Rounds.{run_pass-Advanced}

abbrev pub IsWithin : LoopOptions → LoopReport → Type 0
IsWithin options report =
    (report.requests ≤ report.tool_rounds + 1) × Limited options report.tool_rounds

-- The passes in which nothing comes from the host while the prompt is prepared.
abbrev pub quiet_passes : List Pass → ℕ
quiet_passes [] = 0
quiet_passes (pass ∷ passes) = if quiet pass then suc (quiet_passes passes) else quiet_passes passes

module _ (valid : ExecutionConfig → Bool) (encode : CanonicalResult → Text)
    (options : LoopOptions) where
  abbrev Within : Ended → Type 0
  Within = LeadsTo (IsWithin options) valid encode options

  after_pass-Within :
      (q : Bool) (rounds : ℕ) (passed : LoopControl × Passed)
      (rest : LoopControl → Progress → Ended)
      → Advanced options q rounds passed.1
      → ((c : LoopControl) (p : Progress)
          → Counted p
          → Limited options p.tool_rounds
          → Within (rest c p))
      → Within (after_pass passed rest)
  after_pass-Within q rounds (c, again p) rest a k = k c p a.0 a.1
  after_pass-Within q rounds (c, ends path p) rest a k = λ id outcome revision e. a
  after_pass-Within q rounds (c, panics) rest a k = tt

  run_passes-Within :
      (passes : List Pass) (c : LoopControl) (p : Progress)
      → Counted p
      → Limited options p.tool_rounds
      → Within (run_passes valid encode options passes c p)
  unfolding run_passes
  run_passes-Within [] c p w l = tt
  run_passes-Within (pass ∷ passes) c p w l =
      let c' : LoopControl = land valid pass.before c in
      after_pass-Within (quiet pass) p.tool_rounds (run_pass valid encode options pass c' p)
        (λ c'' p'. run_passes valid encode options passes c'' p')
        (run_pass-Advanced valid encode options pass c' p w l)
        (λ c'' p' w' l'. run_passes-Within passes c'' p' w' l')

  -- The report of a runner that starts with a loop that is not sealed counts at most one request
  -- more than tool rounds, and at most as many tool rounds as the options allow, if they limit them.
  pub run_loop-IsWithin :
      (request : LoopRequest) (passes : List Pass)
      (sealing panicking : List (HostCall ExecutionConfig)) (c : LoopControl)
      → Unsealed c
      → HasReport
          (IsWithin options)
          (run_loop valid encode options request passes sealing panicking c)
  run_loop-IsWithin request passes sealing panicking c u =
      run_loop-HasReport (IsWithin options) valid encode options request passes sealing panicking c
        u (λ id. (omega arith, inr (omega arith)))
        (run_passes-Within passes c (first_progress valid encode options c.id request)
          (omega arith, omega arith) (inr (omega arith)))

  after_pass_ends :
      (q : Bool) (rounds left : ℕ) (passed : LoopControl × Passed)
      (rest : LoopControl → Progress → Ended)
      → Advanced options q rounds passed.1
      → 0 < options.max_tool_rounds
      → options.max_tool_rounds < 2 ^ 16
      → options.max_tool_rounds < rounds + (if q then suc left else left)
      → ((c : LoopControl) (p : Progress)
          → Counted p
          → Limited options p.tool_rounds
          → options.max_tool_rounds < p.tool_rounds + left
          → is_some (rest c p).1 ≡ true)
      → is_some (after_pass passed rest).1 ≡ true
  after_pass_ends true rounds left (c, again p) rest a o m e k =
      let e' : options.max_tool_rounds < p.tool_rounds + left = ground arith in k c p a.0 a.1 e'
  after_pass_ends false rounds left (c, again p) rest a o m e k =
      let e' : options.max_tool_rounds < p.tool_rounds + left = ground arith in k c p a.0 a.1 e'
  after_pass_ends q rounds left (c, ends path p) rest a o m e k = refl
  after_pass_ends q rounds left (c, panics) rest a o m e k = refl

  run_passes_ends :
      (passes : List Pass) (c : LoopControl) (p : Progress)
      → Counted p
      → Limited options p.tool_rounds
      → 0 < options.max_tool_rounds
      → options.max_tool_rounds < 2 ^ 16
      → options.max_tool_rounds < p.tool_rounds + quiet_passes passes
      → is_some (run_passes valid encode options passes c p).1 ≡ true
  unfolding run_passes
  run_passes_ends [] c p w l o m e = ground arith
  run_passes_ends (pass ∷ passes) c p w l o m e =
      let c' : LoopControl = land valid pass.before c in
      after_pass_ends (quiet pass) p.tool_rounds (quiet_passes passes)
        (run_pass valid encode options pass c' p)
        (λ c'' p'. run_passes valid encode options passes c'' p')
        (run_pass-Advanced valid encode options pass c' p w l) o m e
        (λ c'' p' w' l' e'. run_passes_ends passes c'' p' w' l' o m e')

  caught_some :
      (panicking : List (HostCall ExecutionConfig))
      (x : LoopControl × Option (Result LoopReport Panic))
      → is_some x.1 ≡ true
      → is_some (caught valid encode options panicking x).1 ≡ true
  caught_some panicking (c, none) e = ground arith
  caught_some panicking (c, some (err x)) e = refl
  caught_some panicking (c, some (ok report)) e = refl

  ended_some :
      (sealing panicking : List (HostCall ExecutionConfig)) (end : Ended)
      → is_some end.1 ≡ true
      → is_some
          (caught valid encode options panicking (finished valid encode options sealing end)).1
        ≡ true
  ended_some sealing panicking (c, none) e = ground arith
  ended_some sealing panicking (c, some (err x)) e = refl
  ended_some sealing panicking (c, some (ok (path, p))) e =
      caught_some panicking (finished valid encode options sealing (c, some (ok (path, p)))) refl

  report_there :
      (x : LoopControl × Option (Result LoopReport Panic))
      → Reported x
      → is_some x.1 ≡ true
      → (report : LoopReport) × (x.1 ≡ some (ok report))
  report_there (c, none) d e = ground arith
  report_there (c, some (err p)) d e = elim d [ ]
  report_there (c, some (ok report)) d e = (report, refl)

  -- With a limit on the tool rounds, a `u16` that is not zero, a runner that starts with a loop that
  -- is not sealed ends with a report: after at most one more pass than the limit in which nothing
  -- comes from the host while the prompt is prepared.
  pub run_loop_ends :
      (request : LoopRequest) (passes : List Pass)
      (sealing panicking : List (HostCall ExecutionConfig)) (c : LoopControl)
      → Unsealed c
      → 0 < options.max_tool_rounds
      → options.max_tool_rounds < 2 ^ 16
      → options.max_tool_rounds < quiet_passes passes
      → (report : LoopReport) × ((run_loop valid encode options request passes sealing panicking
            c).1
          ≡ some (ok report))
  unfolding run_loop run_loop_inner
  run_loop_ends request passes sealing panicking c u o m e =
      let p : Progress = first_progress valid encode options c.id request in
      report_there (run_loop valid encode options request passes sealing panicking c)
        (run_loop-Reported valid encode options request passes sealing panicking c u)
        (ended_some sealing panicking (run_passes valid encode options passes c p) (
          run_passes_ends passes c p (omega arith, omega arith) (inr (omega arith)) o m
            (omega (arith, e))))
