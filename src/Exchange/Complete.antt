-- ===== src/Exchange/Complete.antt =====
-- Every sequence of turns passes the check of src/model/request.rs, whatever the order of the results
-- within a turn.
use minicore_runtime.Base.{
  ◌≡◌, refl, sym, subst, true, false, List, [], ◌∷◌, ◌++◌, append-nil, map, ok, Bool-cases, inl,
  inr, arith, ◌↔◌,
}
use mathlib.Core.HLevel.{⊥_prop}
use mathlib.Core.Logic.Or
use mathlib.Core.List.{
  Mem, Nodup, Nodup-cons, Perm, perm_middle, not-mem-nil, mem-append_right, mem-cons_self,
  eq-or-mem_of_mem-cons,
}
use mathlib.Core.List.Perm
use mathlib.Core.List.Pairwise
use minicore_runtime.Ids.{Bytes}
use minicore_runtime.Ids.Hex.{bytes_eq_iff}
use minicore_runtime.Message.{AssistantPart, ToolCall, contains_id, validate_tool_call_order}
use minicore_runtime.Message.Order.{tool_calls, FreshIds, validate_tool_call_order_iff}
use minicore_runtime.Exchange.{
  ModelMessage, validate_message, insert_calls, remove_id, check_exchange, validate_tool_exchange,
}
use minicore_runtime.Exchange.Turns.{
  ToolResult, result_message, call_ids, OpensTurn, system_turn, user_turn, assistant_turn,
  replay_turn, Turns, done, turn, contains-Perm, order-Perm, message_order, replay_order, no_ids,
  validate_tool_exchange-Turns,
}

pub not-mem_of_absent : (id : Bytes) (ids : List Bytes) → contains_id id ids ≡ false → ¬ Mem id ids
not-mem_of_absent id [] h = not-mem-nil
not-mem_of_absent id (x ∷ xs) h = λ m.
    Or.elim ⊥_prop (eq-or-mem_of_mem-cons m) (λ here. ground (arith, bytes_eq_iff id x))
      (not-mem_of_absent id xs (ground arith))

absent_of_not-mem : (id : Bytes) (ids : List Bytes) → ¬ Mem id ids → contains_id id ids ≡ false
absent_of_not-mem id ids n = elim (Bool-cases (contains_id id ids)) [
  | inr f ↦ f
  | inl t ↦ absurd (n ((Perm.mem_iff (contains-Perm id ids t)).0 mem-cons_self))
]

pub present_of_mem : (id : Bytes) (ids : List Bytes) → Mem id ids → contains_id id ids ≡ true
present_of_mem id ids m = elim (Bool-cases (contains_id id ids)) [
  | inl t ↦ t
  | inr f ↦ absurd (not-mem_of_absent id ids f m)
]

FreshIds-Nodup :
    (cs : List ToolCall) (seen : List Bytes)
    → FreshIds seen cs
    → Nodup seen
    → Nodup (map (λ c. c.tool_call_id) cs ++ seen)
FreshIds-Nodup [] seen f n = n
FreshIds-Nodup (c ∷ cs) seen f n = Perm.nodup (perm_middle (map (λ c. c.tool_call_id) cs) seen) (
    FreshIds-Nodup cs (c.tool_call_id ∷ seen) f.1
      (Nodup-cons.1 (not-mem_of_absent c.tool_call_id seen f.0, n)))

-- Results that answer what is pending, in any order, are accepted one by one.
answers_accepted :
    (results : List ToolResult) (ms : List ModelMessage) (pending completed : List Bytes)
    → Perm (map (λ r. r.id) results) pending
    → Nodup (map (λ r. r.id) results ++ completed)
    → ((c : List Bytes) → check_exchange ms [] c ≡ ok tt)
    → check_exchange (map result_message results ++ ms) pending completed ≡ ok tt
unfolding check_exchange
answers_accepted [] ms pending completed p n rest =
    subst (λ ids. check_exchange ms ids completed ≡ ok tt) (sym (Perm.eq-nil (Perm.symm p)))
      (rest completed)
answers_accepted (r ∷ rs) ms pending completed p n rest =
    let middle = perm_middle {a = r.id} (map (λ r. r.id) rs) completed in
    let new =
      absent_of_not-mem r.id completed
        (λ m. (Nodup-cons.0 n).0 (mem-append_right (map (λ r. r.id) rs) m)) in
    let here = present_of_mem r.id pending ((Perm.mem_iff p).0 mem-cons_self) in
    let ih =
      answers_accepted rs ms (remove_id r.id pending) (r.id ∷ completed)
        (Perm.cons_inv (Perm.trans p (Perm.symm (contains-Perm r.id pending here))))
        (Perm.nodup (Perm.symm middle) n) rest in
    rw (new, here) ih

-- The calls of a valid message are answered by results with their ids, in any order.
turn_accepted :
    (parts : List AssistantPart) (results : List ToolResult) (ms : List ModelMessage)
    → validate_tool_call_order parts ≡ ok tt
    → Perm (map (λ r. r.id) results) (call_ids parts)
    → ((c : List Bytes) → check_exchange ms [] c ≡ ok tt)
    → check_exchange (map result_message results ++ ms) (insert_calls parts []) [] ≡ ok tt
turn_accepted parts results ms v p rest =
    let (valid, numbered, fresh, few) = (validate_tool_call_order_iff parts).0 v in
    answers_accepted results ms (insert_calls parts []) []
      (Perm.trans p (Perm.symm (order-Perm parts v)))
      (subst Nodup (sym (append-nil (map (λ r. r.id) results))) (
        Perm.nodup (Perm.symm p) (
          subst Nodup (append-nil (call_ids parts))
            (FreshIds-Nodup (tool_calls parts) [] fresh Pairwise.nil))))
      rest

module _ (results : List ToolResult) (ms : List ModelMessage)
    (rest : (c : List Bytes) → check_exchange ms [] c ≡ ok tt) where
  -- A message without calls.
  plain_accepted :
      Perm (map (λ r. r.id) results) []
      → check_exchange (map result_message results ++ ms) [] [] ≡ ok tt
  plain_accepted p =
      subst (λ rs. check_exchange (map result_message rs ++ ms) [] [] ≡ ok tt)
        (sym (no_ids results (Perm.eq-nil p))) (rest [])

  opened_accepted :
      (m : ModelMessage) (ids completed : List Bytes)
      → OpensTurn m ids
      → validate_message m ≡ ok tt
      → Perm (map (λ r. r.id) results) ids
      → check_exchange (m ∷ map result_message results ++ ms) [] completed ≡ ok tt
  unfolding check_exchange
  opened_accepted _ _ completed (system_turn t) v p = rw v (plain_accepted p)
  opened_accepted _ _ completed (user_turn t) v p = rw v (plain_accepted p)
  opened_accepted _ _ completed (assistant_turn parts) v p =
      rw v (turn_accepted parts results ms (message_order parts v) p rest)
  opened_accepted _ _ completed (replay_turn parts r) v p =
      rw v (turn_accepted parts results ms (replay_order parts r v) p rest)

pub Turns-accepted :
    {ms : List ModelMessage}
    → Turns ms
    → (completed : List Bytes) → check_exchange ms [] completed ≡ ok tt
unfolding check_exchange
Turns-accepted done completed = refl
Turns-accepted (turn m ids results ms opens valid p turns) completed =
    opened_accepted results ms (Turns-accepted turns) m ids completed opens valid p

-- The messages of a request pass the check exactly if they are a sequence of turns: a valid message
-- each, directly followed by the results of its calls, one for each call and in any order.
pub validate_tool_exchange_iff :
    (ms : List ModelMessage) → (validate_tool_exchange ms ≡ ok tt) ↔ Turns ms
unfolding validate_tool_exchange
validate_tool_exchange_iff ms = (validate_tool_exchange-Turns ms, λ t. Turns-accepted t [])
