-- ===== src/Exchange/Turns.antt =====
-- A request that passes the check is a sequence of turns, in which the results that follow a message
-- are exactly those of its calls.
use minicore_runtime.Base.{
  ◌≡◌, refl, sym, ◌∙◌, ap, subst, true, List, [], ◌∷◌, ◌++◌, map, ok, err, arith, inl, inr,
  Bool-cases, append-nil, Result, ◌>>◌,
}
use mathlib.Core.List.{Perm, perm_middle}
use mathlib.Core.List.Perm
use minicore_runtime.Text.{Text}
use minicore_runtime.Tools.{ToolResultOutcome}
use minicore_runtime.Ids.{Bytes, bytes_eq}
use minicore_runtime.Ids.Hex.{bytes_eq_iff}
use minicore_runtime.Message.{
  AssistantPart, tool_call, text, reasoning, contains_id, validate_tool_call_order, ModelValueError,
}
use minicore_runtime.Message.Order.{tool_calls, FreshIds, validate_tool_call_order_iff}
use minicore_runtime.Exchange.{
  ModelMessage, ProviderReplay, system, user, assistant, assistant_with_replay, tool,
  validate_message, insert_calls, remove_id, check_exchange, validate_tool_exchange,
}

pub record ToolResult : Type 0 where
  pub id : Bytes
  pub output : Text
  pub outcome : ToolResultOutcome

abbrev pub result_message : ToolResult → ModelMessage
result_message r = tool r.id r.output r.outcome

-- The ids of the calls of a message that is no tool result.
abbrev pub call_ids : List AssistantPart → List Bytes
call_ids parts = map (λ c. c.tool_call_id) (tool_calls parts)

pub data OpensTurn : ModelMessage → List Bytes → Type 0 where
  system_turn : (t : Text) → OpensTurn (system t) []
  user_turn : (t : Text) → OpensTurn (user t) []
  assistant_turn : (parts : List AssistantPart) → OpensTurn (assistant parts) (call_ids parts)
  replay_turn :
      (parts : List AssistantPart) (r : _)
      → OpensTurn (assistant_with_replay parts r) (call_ids parts)

-- A turn is a valid message and, in any order, one result for each of its calls.
pub data Turns : List ModelMessage → Type 0 where
  done : Turns []
  turn :
      (m : ModelMessage) (ids : List Bytes) (results : List ToolResult) (ms : List ModelMessage)
      → OpensTurn m ids
      → validate_message m ≡ ok tt
      → Perm (map (λ r. r.id) results) ids
      → Turns ms
      → Turns (m ∷ map result_message results ++ ms)

pub contains-Perm :
    (id : Bytes) (ids : List Bytes) → contains_id id ids ≡ true → Perm (id ∷ remove_id id ids) ids
unfolding remove_id
contains-Perm id [] h = ground arith
contains-Perm id (x ∷ xs) h = elim (Bool-cases (bytes_eq id x)) [
  | inl e ↦ rw e (Perm.cons' ((bytes_eq_iff id x).0 e) (Perm.refl xs))
  | inr n ↦ rw n (
      Perm.trans (Perm.swap x id (remove_id id xs)) (Perm.cons x (contains-Perm id xs (rw n at h))))
]

insert_calls-Perm :
    (parts : List AssistantPart) (seen : List Bytes)
    → FreshIds seen (tool_calls parts)
    → Perm (insert_calls parts seen) (call_ids parts ++ seen)
unfolding insert_calls tool_calls
insert_calls-Perm [] seen f = Perm.refl seen
insert_calls-Perm (text t ∷ parts) seen f = insert_calls-Perm parts seen f
insert_calls-Perm (reasoning r ∷ parts) seen f = insert_calls-Perm parts seen f
insert_calls-Perm (tool_call c ∷ parts) seen f = rw (f.0) (
    Perm.trans (insert_calls-Perm parts (c.tool_call_id ∷ seen) f.1)
      (perm_middle (call_ids parts) seen))

pub order-Perm :
    (parts : List AssistantPart)
    → validate_tool_call_order parts ≡ ok tt
    → Perm (insert_calls parts []) (call_ids parts)
order-Perm parts h =
    let (v, n, f, l) = (validate_tool_call_order_iff parts).0 h in
    subst (Perm (insert_calls parts [])) (append-nil (call_ids parts))
      (insert_calls-Perm parts [] f)

-- The results that answer what is pending, and the turns after them.
record Split (ms : List ModelMessage) (pending : List Bytes) : Type 0 where
  results : List ToolResult
  rest : List ModelMessage
  parts_of : ms ≡ map result_message results ++ rest
  answered : Perm (map (λ r. r.id) results) pending
  turns : Turns rest

opened :
    (m : ModelMessage) (ids inserted : List Bytes) (ms : List ModelMessage)
    → OpensTurn m ids
    → validate_message m ≡ ok tt
    → Perm inserted ids
    → Split ms inserted
    → Split (m ∷ ms) []
opened m ids inserted ms o v p s = record {
  results = [];
  rest = m ∷ ms;
  parts_of = refl;
  answered = Perm.refl [];
  turns =
      subst (λ l. Turns (m ∷ l)) (sym s.parts_of)
        (turn m ids s.results s.rest o v (Perm.trans s.answered p) s.turns);
}

both : (a b : Result (Unit {0}) ModelValueError) → a >> b ≡ ok tt → (a ≡ ok tt) × (b ≡ ok tt)
both (ok u) b h = (refl, h)
both (err e) b h = ground arith

pub message_order :
    (parts : List AssistantPart)
    → validate_message (assistant parts) ≡ ok tt
    → validate_tool_call_order parts ≡ ok tt
unfolding validate_message
message_order [] h = ground arith
message_order (p ∷ ps) h = h

pub replay_order :
    (parts : List AssistantPart) (r : ProviderReplay)
    → validate_message (assistant_with_replay parts r) ≡ ok tt
    → validate_tool_call_order parts ≡ ok tt
unfolding validate_message
replay_order parts r h = h

answered_one :
    (id : Bytes) (output : Text) (outcome : ToolResultOutcome) (ms : List ModelMessage)
    (pending completed : List Bytes)
    → check_exchange (tool id output outcome ∷ ms) pending completed ≡ ok tt
    → (contains_id id pending ≡ true)
      × (check_exchange ms (remove_id id pending) (id ∷ completed) ≡ ok tt)
unfolding check_exchange
answered_one id output outcome ms pending completed h = ground arith

with_result :
    (id : Bytes) (output : Text) (outcome : ToolResultOutcome) (ms : List ModelMessage)
    (pending : List Bytes)
    → contains_id id pending ≡ true
    → Split ms (remove_id id pending)
    → Split (tool id output outcome ∷ ms) pending
with_result id output outcome ms pending c s = record {
  results = record { id = id; output = output; outcome = outcome } ∷ s.results;
  rest = s.rest;
  parts_of = ap (λ l. tool id output outcome ∷ l) s.parts_of;
  answered = Perm.trans (Perm.cons id s.answered) (contains-Perm id pending c);
  turns = s.turns;
}

pub no_ids : (rs : List ToolResult) → map (λ r. r.id) rs ≡ [] → rs ≡ []
no_ids [] h = refl
no_ids (r ∷ rs) h = cc

Split-of :
    (ms : List ModelMessage) (pending completed : List Bytes)
    → check_exchange ms pending completed ≡ ok tt
    → Split ms pending
unfolding check_exchange
Split-of [] [] completed h = record {
  results = [];
  rest = [];
  parts_of = refl;
  answered = Perm.refl [];
  turns = done;
}
Split-of [] (x ∷ pending) completed h = ground arith
Split-of (system t ∷ ms) (x ∷ pending) completed h = ground arith
Split-of (user t ∷ ms) (x ∷ pending) completed h = ground arith
Split-of (assistant parts ∷ ms) (x ∷ pending) completed h = ground arith
Split-of (assistant_with_replay parts r ∷ ms) (x ∷ pending) completed h = ground arith
Split-of (system t ∷ ms) [] completed h =
    let (v, r) = both (validate_message (system t)) (check_exchange ms [] []) h in
    opened (system t) [] [] ms (system_turn t) v (Perm.refl []) (Split-of ms [] [] r)
Split-of (user t ∷ ms) [] completed h =
    let (v, r) = both (validate_message (user t)) (check_exchange ms [] []) h in
    opened (user t) [] [] ms (user_turn t) v (Perm.refl []) (Split-of ms [] [] r)
Split-of (assistant parts ∷ ms) [] completed h =
    let (v, r) =
      both (validate_message (assistant parts)) (check_exchange ms (insert_calls parts []) []) h in
    opened (assistant parts) (call_ids parts) (insert_calls parts []) ms (assistant_turn parts) v
      (order-Perm parts (message_order parts v)) (Split-of ms (insert_calls parts []) [] r)
Split-of (assistant_with_replay parts p ∷ ms) [] completed h =
    let (v, r) =
      both (validate_message (assistant_with_replay parts p))
        (check_exchange ms (insert_calls parts []) []) h in
    opened (assistant_with_replay parts p) (call_ids parts) (insert_calls parts []) ms
      (replay_turn parts p) v (order-Perm parts (replay_order parts p v))
      (Split-of ms (insert_calls parts []) [] r)
Split-of (tool id output outcome ∷ ms) pending completed h =
    let (c, r) = answered_one id output outcome ms pending completed h in
    with_result id output outcome ms pending c
      (Split-of ms (remove_id id pending) (id ∷ completed) r)

-- Every request that passes the check is a sequence of turns: each message that is no tool result is
-- valid, and directly after it come, in some order, the results of its calls, one for each.
pub validate_tool_exchange-Turns :
    (ms : List ModelMessage) → validate_tool_exchange ms ≡ ok tt → Turns ms
unfolding validate_tool_exchange
validate_tool_exchange-Turns ms h =
    let s = Split-of ms [] [] h in
    subst Turns
      (sym (
        s.parts_of
        ∙ ap (λ rs. map result_message rs ++ s.rest) (no_ids s.results (Perm.eq-nil s.answered))))
      s.turns
