-- ===== src/Runner/Exchange.antt =====
-- The history that a loop appends is a sequence of exchanges: every response is directly followed by
-- the results of its calls, and the responses are numbered.
use minicore_runtime.Base.{
  ℕ, ◌≡◌, ◌∙◌, refl, sym, ap, subst, Bool, List, [], ◌∷◌, ◌++◌, map, append_assoc, append-nil,
  Option, none, some, Result, ok, err, saturating_add, u32_mod,
}
use minicore_runtime.Text.{Text}
use minicore_runtime.Ids.{RuntimeId}
use minicore_runtime.Message.{ToolCall}
use minicore_runtime.Control.{take_config, PendingConfig}
use minicore_runtime.Batch.{FailPath, Panic, ToolResultHistory}
use minicore_runtime.Batch.Results.{AreResultsOf}
use minicore_runtime.Response.{ModelResponse}
use minicore_runtime.Execution.{ExecutionConfig}
use minicore_runtime.History.{
  HistoryItem, user_item, assistant_item, result_item, UserHistory, AssistantHistory,
  WorkingHistory, append_user, append_assistant, append_tool_result, steering,
}
use minicore_runtime.Options.{LoopOptions}
use minicore_runtime.Runner.{LoopControl}
use minicore_runtime.Runner.Turn.{
  Progress, Passed, again, ends, panics, take_boundary, append_inputs, with_config, calls_of,
}
use minicore_runtime.Runner.Pass.{
  append_results, site_of, answer_item, ended, out_of_rounds, after_batch,
}

abbrev pub next_index : ℕ → ℕ
next_index i = saturating_add u32_mod i 1

module _ (options : LoopOptions) where
  -- Inputs of the host, and responses with the results of their calls; the responses are numbered
  -- from `i`, and `j` is the number of the next one.
  pub data Exchanges : ℕ → List HistoryItem → ℕ → Type 0 where
    nothing : (i : ℕ) → Exchanges i [] i
    input :
        (u : UserHistory) (i j : ℕ) (items : List HistoryItem)
        → Exchanges i items j
        → Exchanges i (user_item u ∷ items) j
    response :
        (a : AssistantHistory) (id : RuntimeId) (results : List ToolResultHistory) (i j : ℕ)
        (items : List HistoryItem)
        → a.request_index ≡ i
        → AreResultsOf (site_of options id i) (calls_of a.content) results
        → Exchanges (next_index i) items j
        → Exchanges i (assistant_item a ∷ (map result_item results ++ items)) j

  Exchanges-append :
      {i j k : ℕ} {xs : List HistoryItem} (ys : List HistoryItem)
      → Exchanges i xs j
      → Exchanges j ys k
      → Exchanges i (xs ++ ys) k
  Exchanges-append ys (nothing i) e = e
  Exchanges-append {k = k} ys (input u i j items d) e =
      input u i k (items ++ ys) (Exchanges-append ys d e)
  Exchanges-append {k = k} ys (response a id results i j items n r d) e =
      subst (λ zs. Exchanges i (assistant_item a ∷ zs) k)
        (sym (append_assoc (map result_item results) items ys))
        (response a id results i k (items ++ ys) n r (Exchanges-append ys d e))

  append_results-appended :
      (results : List ToolResultHistory) (w : WorkingHistory)
      → (append_results results w).appended ≡ w.appended ++ map result_item results
  unfolding append_tool_result
  append_results-appended [] w = sym (append-nil w.appended)
  append_results-appended (r ∷ results) w =
      append_results-appended results (append_tool_result r w)
      ∙ append_assoc w.appended (result_item r ∷ []) (map result_item results)

  -- A response and its results, after what was there.
  answered-Exchanges :
      (id : RuntimeId) (w : WorkingHistory) (a : AssistantHistory)
      (results : List ToolResultHistory) (j : ℕ)
      → Exchanges 0 w.appended j
      → a.request_index ≡ j
      → AreResultsOf (site_of options id j) (calls_of a.content) results
      → Exchanges 0 (append_results results (append_assistant a w)).appended (next_index j)
  unfolding append_assistant
  answered-Exchanges id w a results j d n r =
      subst (λ zs. Exchanges 0 zs (next_index j))
        (ap (λ zs. w.appended ++ assistant_item a ∷ zs) (append-nil (map result_item results))
          ∙ sym (append_assoc w.appended (assistant_item a ∷ []) (map result_item results))
          ∙ sym (append_results-appended results (append_assistant a w)))
        (Exchanges-append (assistant_item a ∷ (map result_item results ++ [])) d
          (response a id results j (next_index j) [] n r (nothing (next_index j))))

  append_inputs-Exchanges :
      (id : RuntimeId) (inputs : List Text) (w : WorkingHistory) (j : ℕ)
      → Exchanges 0 w.appended j
      → Exchanges 0 (append_inputs id inputs w).appended j
  unfolding append_user
  append_inputs-Exchanges id [] w j d = d
  append_inputs-Exchanges id (x ∷ inputs) w j d =
      append_inputs-Exchanges id inputs
        (append_user (record { loop_id = id; kind = steering; input = x }) w) j
        (Exchanges-append (user_item (record { loop_id = id; kind = steering; input = x }) ∷ []) d
          (input (record { loop_id = id; kind = steering; input = x }) j j [] (nothing j)))

  -- What a pass leaves: at the head of the loop the next response has the index of the loop.
  abbrev pub Head : Progress → Type 0
  Head p = Exchanges 0 p.working.appended p.request_index

  abbrev pub Whole : Progress → Type 0
  Whole p = (j : ℕ) × Exchanges 0 p.working.appended j

  abbrev pub PassedWell : Passed → Type 0
  PassedWell (again p) = Head p
  PassedWell (ends path p) = Whole p
  PassedWell panics = Unit

  abbrev pub TakenWell : Result (Progress × Bool) Panic → Type 0
  TakenWell (err e) = Unit
  TakenWell (ok (p, taken)) = Head p

  pub take_boundary-TakenWell :
      (inputs : Result (List Text) Panic) (c : LoopControl) (p : Progress)
      → Head p
      → TakenWell (take_boundary inputs c p).1
  unfolding take_boundary take_config
  take_boundary-TakenWell (err e) c p h = tt
  take_boundary-TakenWell (ok inputs) c p h = kept c.pending_config
    where
      kept :
          (pending : Option (PendingConfig ExecutionConfig))
          → Head (record (with_config pending p) {
            working = append_inputs c.id inputs (with_config pending p).working;
          })
      kept none = append_inputs-Exchanges c.id inputs p.working p.request_index h
      kept (some pending) = append_inputs-Exchanges c.id inputs p.working p.request_index h

  -- Results of these calls are what the history waits for.
  abbrev pub Awaits : RuntimeId → List ToolCall → Progress → Type 0
  Awaits id calls p =
      (results : List ToolResultHistory)
      → AreResultsOf (site_of options id p.request_index) calls results
      → Exchanges 0 (append_results results p.working).appended (next_index p.request_index)

  abbrev pub with_answer : RuntimeId → ModelResponse → Progress → Progress
  with_answer id r p = record p { working = append_assistant (answer_item id r p) p.working }

  pub with_answer-Awaits :
      (id : RuntimeId) (r : ModelResponse) (p : Progress)
      → Head p
      → Awaits id (calls_of r.parts) (with_answer id r p)
  with_answer-Awaits id r p h results a =
      answered-Exchanges id p.working (answer_item id r p) results p.request_index h refl a

  -- Without calls nothing is awaited.
  pub with_answer-Whole :
      (id : RuntimeId) (r : ModelResponse) (p : Progress)
      → Head p
      → calls_of r.parts ≡ []
      → Whole (with_answer id r p)
  with_answer-Whole id r p h e = (
    next_index p.request_index,
    with_answer-Awaits id r p h []
        (subst (λ cs. AreResultsOf (site_of options id p.request_index) cs []) (sym e) tt),
  )

  pub out_of_rounds-PassedWell :
      (settled : Result (List ToolResultHistory) Panic) (id : RuntimeId) (calls : List ToolCall)
      (c : LoopControl) (p : Progress)
      → Awaits id calls p
      → ((rs : List ToolResultHistory)
          → settled ≡ ok rs
          → AreResultsOf (site_of options id p.request_index) calls rs)
      → PassedWell (out_of_rounds settled c p).1
  out_of_rounds-PassedWell (err e) id calls c p w a = tt
  out_of_rounds-PassedWell (ok rs) id calls c p w a = (next_index p.request_index, w rs (a rs refl))

  pub after_batch-PassedWell :
      (batch : LoopControl × Result (List ToolResultHistory × Option FailPath) Panic)
      (id : RuntimeId) (calls : List ToolCall) (p : Progress)
      → Awaits id calls p
      → ((rs : List ToolResultHistory) (path : Option FailPath)
          → batch.1 ≡ ok (rs, path)
          → AreResultsOf (site_of options id p.request_index) calls rs)
      → PassedWell (after_batch batch p).1
  after_batch-PassedWell (c, err e) id calls p w a = tt
  after_batch-PassedWell (c, ok (rs, some path)) id calls p w a =
      (next_index p.request_index, w rs (a rs (some path) refl))
  after_batch-PassedWell (c, ok (rs, none)) id calls p w a = w rs (a rs none refl)

  -- An end that changes nothing.
  pub Head-Whole : (p : Progress) → Head p → Whole p
  Head-Whole p h = (p.request_index, h)

  pub ended-PassedWell :
      (path : FailPath) (c : LoopControl) (p : Progress) → Whole p → PassedWell (ended path c p).1
  ended-PassedWell FailPath.completed c p w = w
  ended-PassedWell FailPath.cancelled c p w = w
  ended-PassedWell FailPath.deadline c p w = w
  ended-PassedWell FailPath.prompt c p w = w
  ended-PassedWell (FailPath.model e) c p w = w
  ended-PassedWell (FailPath.invalid_model_response e) c p w = w
  ended-PassedWell FailPath.output_limit c p w = w
  ended-PassedWell FailPath.refused c p w = w
  ended-PassedWell FailPath.content_filtered c p w = w
  ended-PassedWell FailPath.policy c p w = w
  ended-PassedWell FailPath.interaction c p w = w
  ended-PassedWell FailPath.max_tool_rounds c p w = w
  ended-PassedWell FailPath.internal c p w = w
