-- ===== src/Assembler/Contents.antt =====
-- src/model/driver/assembler.rs, push: the assembled text is that of the text events, however it
-- was cut into deltas, and stays within its limit; the same for the reasoning.
use minicore_runtime.Base.{
  ◌≤◌, ◌≡◌, refl, sym, subst, ◌∙◌, true, List, [], ◌∷◌, ◌++◌, append-nil, append_assoc, Option,
  is_some, if_cases, Result, ok, err, Ok, Ok-bind, Ok-map, arith,
}
use minicore_runtime.Text.{Text, byte_len, normalize_model_text}
use minicore_runtime.Text.Stream.{
  normalized_delta, stream_normalize, stream_normalize-concat, concat,
}
use minicore_runtime.Json.{JsonValue, Serialized}
use minicore_runtime.Limits.{LoopLimits}
use minicore_runtime.Message.{ModelValueError}
use minicore_runtime.Execution.{ToolSpec}
use minicore_runtime.Response.{
  ModelEvent, text_delta, reasoning_delta, tool_call_start, tool_call_arguments_delta,
  tool_call_end, usage_event, provider_replay_event, finish, validate_event,
}
use minicore_runtime.Assembler.{Assembler, new_assembler, push_checked, push, ModelDriverProgress}
use minicore_runtime.Assembler.Finish.{push_all}
use minicore_runtime.Assembler.Deltas.{
  Content, text_of, reasoning_of, Grows, Moves, Moved, push_event-Moved,
}

-- The deltas of the two kinds.
abbrev pub text_deltas : List ModelEvent → List Text
text_deltas [] = []
text_deltas (text_delta delta ∷ events) = delta ∷ text_deltas events
text_deltas (event ∷ events) = text_deltas events

abbrev pub reasoning_deltas : List ModelEvent → List Text
reasoning_deltas [] = []
reasoning_deltas (reasoning_delta delta ∷ events) = delta ∷ reasoning_deltas events
reasoning_deltas (event ∷ events) = reasoning_deltas events

-- The content after a list of deltas.
abbrev Grown : List Text → Content → Content → Type 0
Grown deltas (content, ended, maximum) (content', ended', maximum') =
    (content' ≡ content ++ stream_normalize ended deltas)
    × (maximum' ≡ maximum)
    × (byte_len content ≤ maximum → byte_len content' ≤ maximum)

Grown-nil : (x : Content) → Grown [] x x
unfolding stream_normalize
Grown-nil (content, ended, maximum) = (sym (append-nil content), refl, λ h. h)

Grown-cons :
    (delta : Text) (deltas : List Text) (x y z : Content)
    → Grows delta x y
    → Grown deltas y z
    → Grown (delta ∷ deltas) x z
unfolding stream_normalize
Grown-cons delta deltas (c, e, m) (c', e', m') (c'', e'', m'') (p, q, r, s) (t, u, v) =
    let (piece, ended) = normalized_delta delta e in
    (
      t ∙ rw (p, q) (append_assoc c piece (stream_normalize ended deltas)),
      u ∙ r,
      λ h. subst (λ k. byte_len c' ≤ k → byte_len c'' ≤ k) r v (s h),
    )

-- What the events do to both contents.
abbrev Contents : List ModelEvent → Assembler → Assembler → Type 0
Contents events a b =
    Grown (text_deltas events) (text_of a) (text_of b)
    × Grown (reasoning_deltas events) (reasoning_of a) (reasoning_of b)

unmoved :
    (events : List ModelEvent) (a b c : Assembler)
    → (text_of b ≡ text_of a) × (reasoning_of b ≡ reasoning_of a)
    → Contents events b c
    → Contents events a c
unmoved events a b c m w = (
  subst (λ x. Grown (text_deltas events) x (text_of c)) m.0 w.0,
  subst (λ x. Grown (reasoning_deltas events) x (reasoning_of c)) m.1 w.1,
)

Contents-cons :
    (event : ModelEvent) (events : List ModelEvent) (a b c : Assembler)
    → Moves event a b
    → Contents events b c
    → Contents (event ∷ events) a c
Contents-cons (text_delta delta) events a b c m w = (
  Grown-cons delta (text_deltas events) (text_of a) (text_of b) (text_of c) m.0 w.0,
  subst (λ x. Grown (reasoning_deltas events) x (reasoning_of c)) m.1 w.1,
)
Contents-cons (reasoning_delta delta) events a b c m w = (
  subst (λ x. Grown (text_deltas events) x (text_of c)) m.0 w.0,
  Grown-cons delta (reasoning_deltas events) (reasoning_of a) (reasoning_of b) (reasoning_of c) m.1
      w.1,
)
Contents-cons (tool_call_start id name) events a b c m w = unmoved events a b c m w
Contents-cons (tool_call_arguments_delta id delta) events a b c m w = unmoved events a b c m w
Contents-cons (tool_call_end id) events a b c m w = unmoved events a b c m w
Contents-cons (usage_event usage) events a b c m w = unmoved events a b c m w
Contents-cons (provider_replay_event replay) events a b c m w = unmoved events a b c m w
Contents-cons (finish reason) events a b c m w = unmoved events a b c m w

module _ (parse : Text → Option JsonValue) (to_writer : JsonValue → Serialized) where
  push_checked-Moved :
      (a : Assembler) (event : ModelEvent) (v : Result (Unit {0}) ModelValueError)
      → Moved event a (push_checked parse to_writer a event v)
  push_checked-Moved a event (err e) = tt
  push_checked-Moved a event (ok u) =
      if_cases (Moved event a) (is_some a.finish_reason) (λ t. tt)
        (λ f. push_event-Moved a parse to_writer event)

  push_all-Grown :
      (a : Assembler) (events : List ModelEvent)
      → Ok (Contents events a) (push_all parse to_writer a events)
  unfolding push_all push
  push_all-Grown a [] = (Grown-nil (text_of a), Grown-nil (reasoning_of a))
  push_all-Grown a (event ∷ events) =
      let a' = record a { observed_event = true } in
      Ok-bind (λ (r : Assembler × Option ModelDriverProgress). Moves event a' r.0)
        (Contents (event ∷ events) a) (push parse to_writer a' event) _
        (push_checked-Moved a' event (validate_event event))
        (λ r m.
          Ok-map (Contents events r.0) (Contents (event ∷ events) a)
            (push_all parse to_writer r.0 events) (λ b w. Contents-cons event events a' r.0 b m w)
            (push_all-Grown r.0 events))

-- The assembled contents are those of the events, and within their limits.
abbrev pub HasContents : LoopLimits → List ModelEvent → Assembler → Type 0
HasContents limits events a =
    (a.text ≡ normalize_model_text (concat (text_deltas events)))
    × (a.reasoning ≡ normalize_model_text (concat (reasoning_deltas events)))
    × (byte_len a.text ≤ limits.max_model_text_bytes)
    × (byte_len a.reasoning ≤ limits.max_model_reasoning_bytes)

-- When a new assembler has taken all the events of a stream, its text is the normalization of the
-- whole text of the stream, however this was cut into deltas and what came between them, its
-- reasoning likewise, and both are within their limits.
pub push_all-HasContents :
    (parse : Text → Option JsonValue) (to_writer : JsonValue → Serialized) (tools : List ToolSpec)
    (limits : LoopLimits) (events : List ModelEvent) (a : Assembler)
    → push_all parse to_writer (new_assembler tools limits) events ≡ ok a
    → HasContents limits events a
unfolding byte_len
push_all-HasContents parse to_writer tools limits events a e =
    let w : Contents events (new_assembler tools limits) a =
      subst (Ok (Contents events (new_assembler tools limits))) e
        (push_all-Grown parse to_writer (new_assembler tools limits) events) in
    (
      w.0.0 ∙ stream_normalize-concat (text_deltas events),
      w.1.0 ∙ stream_normalize-concat (reasoning_deltas events),
      w.0.2 (omega arith),
      w.1.2 (omega arith),
    )
