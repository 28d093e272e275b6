-- ===== src/Runner/Counts.antt =====
-- The counts of the loop: every request but the last one is followed by a tool round, and the tool
-- rounds keep to their limit.
use minicore_runtime.Base.{
  ℕ, suc, ◌+◌, ◌≤◌, ◌<◌, ◌≡◌, Bool, false, ◌&&◌, not, List, any, Option, none, some, is_empty,
  Result, ok, err, saturating_add, u64_mod, u32_mod, ◌⊎◌, arith,
}
use minicore_runtime.Text.{Text}
use minicore_runtime.Control.Host.{is_update}
use minicore_runtime.Batch.{FailPath, Panic, ToolResultHistory}
use minicore_runtime.Options.{LoopOptions}
use minicore_runtime.Runner.{LoopControl}
use minicore_runtime.Runner.Turn.{Progress, Pass, Passed, again, ends, panics}
use minicore_runtime.Runner.Pass.{ended, out_of_rounds, after_batch, rounds_used}

-- The counts at the head of the loop.
abbrev pub Counted : Progress → Type 0
Counted p = (p.requests ≤ p.tool_rounds) × (p.tool_rounds < u64_mod)

-- And when it ends.
abbrev pub Final : Progress → Type 0
Final p = p.requests ≤ p.tool_rounds + 1

abbrev pub Limited : LoopOptions → ℕ → Type 0
Limited options rounds = (options.max_tool_rounds ≡ 0) ⊎ (rounds ≤ options.max_tool_rounds)

-- Nothing comes from the host while the prompt is prepared.
abbrev pub no_inputs : Result (List Text) Panic → Bool
no_inputs (ok inputs) = is_empty inputs
no_inputs (err e) = false

abbrev pub quiet : Pass → Bool
quiet pass = no_inputs pass.later_inputs && not (any is_update pass.during_prompt)

-- The rounds after a pass that goes on; a quiet one adds one.
abbrev pub Moves : Bool → ℕ → ℕ → Type 0
Moves q before after =
    (before ≤ after) × ((q ≡ false) ⊎ (suc before ≤ after) ⊎ (u64_mod ≤ suc before))

module _ (options : LoopOptions) (q : Bool) (rounds : ℕ) where
  abbrev pub Advanced : Passed → Type 0
  Advanced (again p) = Counted p × Limited options p.tool_rounds × Moves q rounds p.tool_rounds
  Advanced (ends path p) = Final p × Limited options p.tool_rounds
  Advanced panics = Unit

  -- The counts when a request was issued.
  abbrev pub Issued : Progress → Type 0
  Issued p =
      Final p
      × Limited options p.tool_rounds
      × (p.tool_rounds ≡ rounds)
      × (p.requests < u32_mod)
      × (p.tool_rounds < u64_mod)

  pub ended-Advanced :
      (path : FailPath) (c : LoopControl) (p : Progress) → Issued p → Advanced (ended path c p).1
  ended-Advanced FailPath.completed c p w = (w.0, w.1)
  ended-Advanced FailPath.cancelled c p w = (w.0, w.1)
  ended-Advanced FailPath.deadline c p w = (w.0, w.1)
  ended-Advanced FailPath.prompt c p w = (w.0, w.1)
  ended-Advanced (FailPath.model e) c p w = (w.0, w.1)
  ended-Advanced (FailPath.invalid_model_response e) c p w = (w.0, w.1)
  ended-Advanced FailPath.output_limit c p w = (w.0, w.1)
  ended-Advanced FailPath.refused c p w = (w.0, w.1)
  ended-Advanced FailPath.content_filtered c p w = (w.0, w.1)
  ended-Advanced FailPath.policy c p w = (w.0, w.1)
  ended-Advanced FailPath.interaction c p w = (w.0, w.1)
  ended-Advanced FailPath.max_tool_rounds c p w = (w.0, w.1)
  ended-Advanced FailPath.internal c p w = (w.0, w.1)

  pub out_of_rounds-Advanced :
      (settled : Result (List ToolResultHistory) Panic) (c : LoopControl) (p : Progress)
      → Issued p
      → Advanced (out_of_rounds settled c p).1
  out_of_rounds-Advanced (err e) c p w = tt
  out_of_rounds-Advanced (ok rs) c p w = (w.0, w.1)

  pub after_batch-Advanced :
      (batch : LoopControl × Result (List ToolResultHistory × Option FailPath) Panic) (p : Progress)
      → Counted p
      → Limited options p.tool_rounds
      → Moves q rounds p.tool_rounds
      → Advanced (after_batch batch p).1
  after_batch-Advanced (c, err e) p w l m = tt
  after_batch-Advanced (c, ok (rs, some path)) p w l m = (omega (arith, w.0), l)
  after_batch-Advanced (c, ok (rs, none)) p w l m = (w, l, m)

-- A round is added.
pub next_round :
    (options : LoopOptions) (q : Bool) (p : Progress) (rounds : ℕ)
    → rounds_used options p ≡ false
    → Issued options q rounds p
    → let after = saturating_add u64_mod p.tool_rounds 1 in
      ((p.requests ≤ after) × (after < u64_mod)) × Limited options after × Moves q rounds after
next_round options q p rounds f w = ground arith
