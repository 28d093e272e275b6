-- ===== src/Batch/Results.antt =====
-- Every result that a call leaves carries the call's id and name, and its output is within the
-- loop's budget.
use minicore_runtime.Base.{
  ℕ, ◌≡◌, refl, ◌≤◌, List, [], ◌∷◌, Option, none, some, Result, ok, err, ◌>>=◌, arith, leb,
  Result-cases, inl, inr, if◌then◌else◌, subst,
}
use minicore_runtime.Text.{Text, byte_len}
use minicore_runtime.Message.{ToolCall}
use minicore_runtime.Tools.{ToolResultOutcome, failed, denied, tool_output}
use minicore_runtime.Batch.{
  Site, ToolResultHistory, Panic, result, static_output, terminal_tool_result, completed_result,
  provided_input_result, denied_result, settle_calls, expect, denial, too_large_message,
  denied_message,
}

-- The result is that of the call, and its output is within `max_output_bytes`.
abbrev pub IsResultOf : Site → ToolCall → ToolResultHistory → Type 0
IsResultOf site call h =
    (h.call_id ≡ call.tool_call_id)
    × (h.tool_name ≡ call.name)
    × (h.request_index ≡ site.request_index)
    × (byte_len h.output ≤ site.max_output_bytes)

-- A tool outputs its text unchanged.
tool_output_same : (t u : Text) → tool_output t ≡ ok u → u ≡ t
unfolding tool_output
tool_output_same t u h = ground arith

expect_same : (t u : Text) → expect (tool_output t) ≡ ok u → u ≡ t
expect_same t u h = elim (Result-cases (tool_output t)) [
  | inl (v, s) ↦ ground (arith, s, tool_output_same t v s)
  | inr (x, s) ↦ ground (arith, s)
]

shortened : (m : Text) (n : ℕ) → byte_len (if leb (byte_len m) n then m else []) ≤ n
unfolding byte_len
shortened m n = ground arith

static_output_bounded : (m t : Text) (n : ℕ) → static_output m n ≡ ok t → byte_len t ≤ n
unfolding static_output
static_output_bounded m t n h =
    rw (expect_same (if leb (byte_len m) n then m else []) t h) (shortened m n)

-- What follows a text that may have been refused.
with_output :
    (site : Site) (call : ToolCall) (o : ToolResultOutcome) (r : Result Text Panic)
    (h : ToolResultHistory)
    → ((t : Text) → r ≡ ok t → byte_len t ≤ site.max_output_bytes)
    → (r >>= λ t. ok (result site call o t)) ≡ ok h
    → IsResultOf site call h
with_output site call o (ok t) h b e = ground (arith, b t refl)
with_output site call o (err x) h b e = ground arith

pub terminal_tool_result-IsResultOf :
    (site : Site) (call : ToolCall) (o : ToolResultOutcome) (m : Text) (h : ToolResultHistory)
    → terminal_tool_result site call o m ≡ ok h
    → IsResultOf site call h
unfolding terminal_tool_result
terminal_tool_result-IsResultOf site call o m h e =
    with_output site call o (static_output m site.max_output_bytes) h
      (λ t s. static_output_bounded m t site.max_output_bytes s) e

pub completed_result-IsResultOf :
    (site : Site) (call : ToolCall) (t : Text) (h : ToolResultHistory)
    → completed_result site call t ≡ ok h
    → IsResultOf site call h
unfolding completed_result
completed_result-IsResultOf site call t h e =
    ground (arith, terminal_tool_result-IsResultOf site call failed too_large_message h)

pub provided_input_result-IsResultOf :
    (site : Site) (call : ToolCall) (t : Text) (h : ToolResultHistory)
    → provided_input_result site call t ≡ ok h
    → IsResultOf site call h
unfolding provided_input_result
provided_input_result-IsResultOf site call t h e = elim (Result-cases (tool_output t)) [
  | inl (v, s) ↦ ground (
    arith,
    s,
    tool_output_same t v s,
    terminal_tool_result-IsResultOf site call failed too_large_message h,
  )
  | inr (x, s) ↦
      ground (arith, s, terminal_tool_result-IsResultOf site call failed too_large_message h)
]

denial_bounded :
    (site : Site) (reason : Option Text) (t : Text)
    → denial site reason ≡ ok t
    → byte_len t ≤ site.max_output_bytes
denial_bounded site none t e = static_output_bounded denied_message t site.max_output_bytes e
denial_bounded site (some r) t e =
    ground (arith, expect_same r t, static_output_bounded denied_message t site.max_output_bytes)

pub denied_result-IsResultOf :
    (site : Site) (call : ToolCall) (reason : Option Text) (h : ToolResultHistory)
    → denied_result site call reason ≡ ok h
    → IsResultOf site call h
unfolding denied_result
denied_result-IsResultOf site call reason h e =
    with_output site call denied (denial site reason) h (denial_bounded site reason) e

-- The results of the calls, one for each, in their order.
abbrev pub AreResultsOf : Site → List ToolCall → List ToolResultHistory → Type 0
AreResultsOf site [] [] = Unit
AreResultsOf site [] (h ∷ hs) = ⊥
AreResultsOf site (c ∷ cs) [] = ⊥
AreResultsOf site (c ∷ cs) (h ∷ hs) = IsResultOf site c h × AreResultsOf site cs hs

pub settle_calls-AreResultsOf :
    (site : Site) (calls : List ToolCall) (o : ToolResultOutcome) (m : Text)
    (hs : List ToolResultHistory)
    → settle_calls site calls o m ≡ ok hs
    → AreResultsOf site calls hs
unfolding settle_calls
settle_calls-AreResultsOf site [] o m [] e = tt
settle_calls-AreResultsOf site [] o m (h ∷ hs) e = ground arith
settle_calls-AreResultsOf site (c ∷ cs) o m hs e =
    elim (Result-cases (terminal_tool_result site c o m)) [
      | inl (f, s) ↦ elim (Result-cases (settle_calls site cs o m)) [
        | inl (r, q) ↦ subst (AreResultsOf site (c ∷ cs)) {x = f ∷ r} (ground (arith, s, q)) (
          terminal_tool_result-IsResultOf site c o m f s,
          settle_calls-AreResultsOf site cs o m r q,
        )
        | inr (x, q) ↦ ground (arith, s, q)
      ]
      | inr (x, s) ↦ ground (arith, s)
    ]
