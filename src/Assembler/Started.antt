-- ===== src/Assembler/Started.antt =====
-- src/model/driver/assembler.rs: the calls of a response and the starts of the stream.
use minicore_runtime.Base.{
  ◌≡◌, refl, sym, subst, ◌∙◌, List, [], ◌∷◌, map, All, Option, some, ok, err, Ok,
}
use minicore_runtime.Text.{Text}
use minicore_runtime.Json.{JsonValue, Serialized}
use minicore_runtime.Limits.{LoopLimits}
use minicore_runtime.Message.{ToolCall}
use minicore_runtime.Execution.{ToolSpec}
use minicore_runtime.Response.{ModelEvent}
use minicore_runtime.Runner.Turn.{calls_of}
use minicore_runtime.Assembler.{Assembler, ToolAssembly, new_assembler}
use minicore_runtime.Assembler.Finish.{Finished, push_all, finish_response}
use minicore_runtime.Assembler.Calls.{Answers, finish_response-Answers}
use minicore_runtime.Assembler.Keyed.{starts, call_key, tool_key, Own, IsOwn, push_all-Grows}

own_calls :
    (calls : List ToolCall) (tools : List ToolAssembly)
    → All IsOwn tools
    → map some calls ≡ map (λ (t : ToolAssembly). t.call) tools
    → map call_key calls ≡ map tool_key tools
own_calls [] [] w e = refl
own_calls [] (tool ∷ tools) w e = cc
own_calls (call ∷ calls) [] w e = cc
own_calls (call ∷ calls) (tool ∷ tools) w e =
    let same : some call ≡ tool.call = cc e in
    let rest : map some calls ≡ map (λ (t : ToolAssembly). t.call) tools = cc e in
    let own : Own (tool_key tool) (some call) = subst (Own (tool_key tool)) (sym same) w.0 in
    cc (own, own_calls calls tools w.1 rest)

-- No panic, and the calls of a response are those that the stream started.
abbrev pub AnswersStarts : List ModelEvent → Finished → Type 0
AnswersStarts events (err p) = ⊥
AnswersStarts events (ok (err e)) = Unit
AnswersStarts events (ok (ok response)) = map call_key (calls_of response.parts) ≡ starts events

started_calls :
    (events : List ModelEvent) (tools : List ToolAssembly) (f : Finished)
    → map tool_key tools ≡ starts events
    → All IsOwn tools
    → Answers (map (λ (t : ToolAssembly). t.call) tools) f
    → AnswersStarts events f
started_calls events tools (err p) k w h = h
started_calls events tools (ok (err e)) k w h = tt
started_calls events tools (ok (ok response)) k w h =
    own_calls (calls_of response.parts) tools w h ∙ k

-- When a new assembler has taken all the events of a stream, its finish does not panic, neither by a
-- slot's index nor by a missing call: it gives an error or a response, and the ids and names of the
-- calls of a response are those of the starts in the stream, one call for each start, in their order.
pub finish_response-AnswersStarts :
    (parse : Text → Option JsonValue) (to_writer : JsonValue → Serialized) (tools : List ToolSpec)
    (limits : LoopLimits) (events : List ModelEvent) (a : Assembler)
    → push_all parse to_writer (new_assembler tools limits) events ≡ ok a
    → AnswersStarts events (finish_response a)
finish_response-AnswersStarts parse to_writer tools limits events a e =
    let (keys, own) : (map tool_key a.tools ≡ starts events) × All IsOwn a.tools =
      subst (Ok (λ b. (map tool_key b.tools ≡ starts events) × All IsOwn b.tools)) e
        (push_all-Grows parse to_writer (new_assembler tools limits) events tt) in
    started_calls events a.tools (finish_response a) keys own
      (finish_response-Answers parse to_writer tools limits events a e)
