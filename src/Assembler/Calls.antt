-- ===== src/Assembler/Calls.antt =====
-- src/model/driver/assembler.rs, finish: the calls of the response are those of the tools that the
-- stream started, and no slot asks for a call that is not there.
use minicore_runtime.Base.{
  ℕ, zero, suc, ◌<◌, ◌≤◌, ◌≡◌, refl, sym, subst, ap, ◌∙◌, true, false, ◌&&◌, not, is_empty, List,
  [], ◌∷◌, map, length, any, Option, none, some, is_some, if_cases, Result, ok, err, ◌>>=◌, map_err,
  Ok, Ok-bind, Ok-intro, Option-cases, inl, inr, arith,
}
use minicore_runtime.Text.{Text}
use minicore_runtime.Json.{JsonValue, Serialized}
use minicore_runtime.Limits.{LoopLimits}
use minicore_runtime.Usage.{usage_or_default, Usage}
use minicore_runtime.Execution.{ToolSpec}
use minicore_runtime.Exchange.{ProviderReplay}
use minicore_runtime.Message.{
  AssistantPart, ModelValueError, empty_response_parts, validate_tool_call_order, ReasoningContent,
  ToolCall, text, reasoning, tool_call, new_reasoning, as_tool_call, normalize_parts,
  normalize_part,
}
use minicore_runtime.Response.{ModelEvent, ModelFinishReason, ModelResponse, new_response}
use minicore_runtime.Runner.Turn.{calls_of}
use minicore_runtime.Assembler.{
  Assembler, ToolAssembly, PartSlot, text_slot, reasoning_slot, tool_slot, new_assembler,
  invalid_response,
}
use minicore_runtime.Assembler.Finish.{
  take_call, slot_parts, Parts, with_part, Finished, contradicts, finished_by, finish_response,
  push_all,
}
use minicore_runtime.Assembler.Ordered.{IsOrdered, is_open, Closed, IsAssembly, push_all-IsAssembly}

-- The calls from an index on.
abbrev pub calls_from : ℕ → List ToolAssembly → List (Option ToolCall)
calls_from next [] = []
calls_from zero (tool ∷ tools) = tool.call ∷ calls_from zero tools
calls_from (suc next) (tool ∷ tools) = calls_from next tools

-- All the tools from an index on have a call.
abbrev Awaiting : ℕ → List ToolAssembly → Type 0
Awaiting next [] = Unit
Awaiting zero (tool ∷ tools) = (is_some tool.call ≡ true) × Awaiting zero tools
Awaiting (suc next) (tool ∷ tools) = Awaiting next tools

-- No panic, and when there are parts their calls are the given ones.
abbrev Assembles : List (Option ToolCall) → Parts → Type 0
Assembles calls (err p) = ⊥
Assembles calls (ok (err e)) = Unit
Assembles calls (ok (ok parts)) = map some (calls_of parts) ≡ calls

abbrev Taken : ℕ → List ToolAssembly → Type 0
Taken index tools =
    (call : ToolCall) × (tools' : List ToolAssembly) × (take_call index tools ≡ ok (call, tools'))
    × (length tools' ≡ length tools)
    × Awaiting (suc index) tools'
    × (calls_from index tools ≡ some call ∷ calls_from (suc index) tools')

IsOrdered-le : (next total : ℕ) (slots : List PartSlot) → IsOrdered next total slots → next ≤ total
IsOrdered-le next total [] w = omega (arith, w)
IsOrdered-le next total (text_slot ∷ slots) w = IsOrdered-le next total slots w
IsOrdered-le next total (reasoning_slot ∷ slots) w = IsOrdered-le next total slots w
IsOrdered-le next total (tool_slot index ∷ slots) w =
    omega (arith, IsOrdered-le (suc next) total slots w.1)

calls_from_end : (tools : List ToolAssembly) → [] ≡ calls_from (length tools) tools
calls_from_end [] = refl
calls_from_end (tool ∷ tools) = calls_from_end tools

calls_from_start :
    (tools : List ToolAssembly) → calls_from 0 tools ≡ map (λ (t : ToolAssembly). t.call) tools
calls_from_start [] = refl
calls_from_start (tool ∷ tools) = ap (λ calls. tool.call ∷ calls) (calls_from_start tools)

closed-Awaiting : (tools : List ToolAssembly) → any is_open tools ≡ false → Awaiting 0 tools
closed-Awaiting [] h = tt
closed-Awaiting (tool ∷ tools) h = (ground arith, closed-Awaiting tools (ground arith))

take_call-Taken :
    (index : ℕ) (tools : List ToolAssembly)
    → index < length tools
    → Awaiting index tools
    → Taken index tools
unfolding take_call
take_call-Taken index [] h w = absurd (omega arith)
take_call-Taken zero (tool ∷ tools) h w = elim (Option-cases tool.call) [
  | inl h' ↦ absurd (ground (arith, h'))
  | inr c ↦ (
    c.0,
    record tool { call = none } ∷ tools,
    rw c.1 refl,
    refl,
    w.1,
    ap (λ call. call ∷ calls_from 0 tools) c.1,
  )
]
take_call-Taken (suc index) (tool ∷ tools) h w =
    let (call, tools', taken, same, rest, calls) =
      take_call-Taken index tools (omega (arith, h)) w in
    (
      call,
      tool ∷ tools',
      ap (λ r. r >>= λ (x : ToolCall × List ToolAssembly). ok (x.0, tool ∷ x.1)) taken,
      ap suc same,
      rest,
      calls,
    )

other_part :
    (part : AssistantPart) (calls : List (Option ToolCall)) (rest : Parts)
    → as_tool_call part ≡ none
    → Assembles calls rest
    → Assembles calls (with_part part rest)
other_part part calls (err p) h w = w
other_part part calls (ok (err e)) h w = tt
other_part part calls (ok (ok parts)) h w =
    ap (map some) (ap (λ o. elim o [ none ↦ calls_of parts | some call ↦ call ∷ calls_of parts ]) h)
    ∙ w

call_part :
    (call : ToolCall) (calls : List (Option ToolCall)) (rest : Parts)
    → Assembles calls rest
    → Assembles (some call ∷ calls) (with_part (tool_call call) rest)
unfolding as_tool_call
call_part call calls (err p) w = w
call_part call calls (ok (err e)) w = tt
call_part call calls (ok (ok parts)) w = ap (λ calls'. some call ∷ calls') w

reasoned-Assembles :
    (calls : List (Option ToolCall)) (r : Result ReasoningContent ModelValueError) (rest : Parts)
    → Assembles calls rest
    → Assembles calls
        (elim r [ err e ↦ ok (err invalid_response) | ok r ↦ with_part (reasoning r) rest ])
unfolding as_tool_call
reasoned-Assembles calls (err e) rest w = tt
reasoned-Assembles calls (ok r) rest w = other_part (reasoning r) calls rest refl w

slot_parts-Assembles :
    (content thought : Text) (tools : List ToolAssembly) (slots : List PartSlot) (next : ℕ)
    → IsOrdered next (length tools) slots
    → Awaiting next tools
    → Assembles (calls_from next tools) (slot_parts content thought tools slots)
unfolding slot_parts as_tool_call
slot_parts-Assembles content thought tools [] next o w =
    subst (λ n. [] ≡ calls_from n tools) (sym o) (calls_from_end tools)
slot_parts-Assembles content thought tools (text_slot ∷ slots) next o w =
    other_part (text content) _ _ refl (slot_parts-Assembles [] thought tools slots next o w)
slot_parts-Assembles content thought tools (reasoning_slot ∷ slots) next o w =
    reasoned-Assembles (calls_from next tools) (new_reasoning (some thought) none none none) _
      (slot_parts-Assembles content [] tools slots next o w)
slot_parts-Assembles content thought tools (tool_slot index ∷ slots) next o w =
    let (call, tools', taken, same, rest, calls) =
      take_call-Taken next tools (IsOrdered-le (suc next) (length tools) slots o.1) w in
    rw (o.0, taken, calls)
      (call_part call (calls_from (suc next) tools') _ (
        slot_parts-Assembles content thought tools' slots (suc next)
          (subst (λ n. IsOrdered (suc next) n slots) (sym same) o.1) rest))

normalize_parts-calls :
    (parts : List AssistantPart) → calls_of (normalize_parts parts) ≡ calls_of parts
unfolding normalize_parts normalize_part as_tool_call
normalize_parts-calls [] = refl
normalize_parts-calls (text t ∷ parts) = normalize_parts-calls parts
normalize_parts-calls (reasoning r ∷ parts) = normalize_parts-calls parts
normalize_parts-calls (tool_call call ∷ parts) =
    ap (λ calls. call ∷ calls) (normalize_parts-calls parts)

-- No panic, and the calls of a response are the given ones.
abbrev pub Answers : List (Option ToolCall) → Finished → Type 0
Answers calls (err p) = ⊥
Answers calls (ok (err e)) = Unit
Answers calls (ok (ok response)) = map some (calls_of response.parts) ≡ calls

abbrev pub HasParts : List AssistantPart → Result ModelResponse ModelValueError → Type 0
HasParts parts = Ok (λ (r : ModelResponse). r.parts ≡ normalize_parts parts)

pub new_response-HasParts :
    (parts : List AssistantPart) (reason : ModelFinishReason) (usage : Option Usage)
    (replay : Option ProviderReplay)
    → HasParts parts (new_response parts reason usage replay)
unfolding new_response
new_response-HasParts parts reason usage replay =
    if_cases (HasParts parts) (is_empty (normalize_parts parts) && not (is_some replay))
      {x = err empty_response_parts} (λ t. tt)
      (λ f.
        Ok-bind (λ u. Unit {0}) (λ (r : ModelResponse). r.parts ≡ normalize_parts parts)
          (validate_tool_call_order (normalize_parts parts)) _
          (Ok-intro (λ u. Unit {0}) (validate_tool_call_order (normalize_parts parts)) (λ u. tt))
          (λ u v. refl))

-- The end of `with_reason`, from the parts.
with_response :
    (calls : List (Option ToolCall)) (assembled : Parts)
    (make : List AssistantPart → Result ModelResponse ModelValueError)
    → ((parts : List AssistantPart) → HasParts parts (make parts))
    → Assembles calls assembled
    → Answers calls
        (assembled >>= λ r. ok (r >>= λ parts. map_err (λ e. invalid_response) (make parts)))
with_response calls (err p) make h w = w
with_response calls (ok (err e)) make h w = tt
with_response calls (ok (ok parts)) make h w = made (make parts) (h parts)
  where
    made :
        (r : Result ModelResponse ModelValueError)
        → HasParts parts r
        → Answers calls (ok (map_err (λ e. invalid_response) r))
    made (err e) g = tt
    made (ok r) g = ap (map some) (ap calls_of g ∙ normalize_parts-calls parts) ∙ w

pub finished_by-Answers :
    (a : Assembler) (reason : Option ModelFinishReason)
    → IsOrdered 0 (length a.tools) a.slots
    → Closed reason a.tools
    → Answers (map (λ (t : ToolAssembly). t.call) a.tools) (finished_by a reason)
finished_by-Answers a none o closed = tt
finished_by-Answers a (some reason) o closed =
    let calls = map (λ (t : ToolAssembly). t.call) a.tools in
    if_cases (Answers calls) (contradicts a reason) (λ t. tt)
      (λ f.
        with_response calls (slot_parts a.text a.reasoning a.tools a.slots)
          (λ parts. new_response parts reason (some (usage_or_default a.usage)) a.provider_replay)
          (λ parts. new_response-HasParts parts reason _ a.provider_replay)
          (subst (λ cs. Assembles cs (slot_parts a.text a.reasoning a.tools a.slots))
            (calls_from_start a.tools)
            (slot_parts-Assembles a.text a.reasoning a.tools a.slots 0 o
              (closed-Awaiting a.tools closed))))

-- When an assembler has taken all the events of a stream, its finish does not panic, neither by a
-- slot's index nor by a missing call: it gives an error or a response, and the calls of a response
-- are those of the assembler's tools, each there and once, in their order.
pub finish_response-Answers :
    (parse : Text → Option JsonValue) (to_writer : JsonValue → Serialized) (tools : List ToolSpec)
    (limits : LoopLimits) (events : List ModelEvent) (a : Assembler)
    → push_all parse to_writer (new_assembler tools limits) events ≡ ok a
    → Answers (map (λ (t : ToolAssembly). t.call) a.tools) (finish_response a)
unfolding finish_response
finish_response-Answers parse to_writer tools limits events a e =
    let w : IsAssembly a =
      subst (Ok IsAssembly) e
        (push_all-IsAssembly parse to_writer (new_assembler tools limits) events (refl, tt)) in
    finished_by-Answers a a.finish_reason w.0 w.1
