-- ===== src/Interaction/Laws.antt =====
-- A validated answer can be encoded.
use minicore_runtime.Base.{
  ℕ, ◌<◌, ◌≡◌, List, [], ◌∷◌, arith, length, zero, suc, ok, get_elem?, some, refl,
}
use minicore_runtime.Text.{Text}
use minicore_runtime.Interaction.{
  ToolInputAnswer, ToolInputAnswerKind, text, choice, ToolInputRequest, InteractionAnswer,
  InteractionKind, validate_answer, validate_input_answer, canonical_result, CanonicalResult,
  text_result, choice_result, text_kind, single_choice,
}

get_elem?-lt : (xs : List Text) (i : ℕ) → i < length xs → (t : Text) × (get_elem? xs i ≡ some t)
get_elem?-lt [] i h = elim h [ ]
get_elem?-lt (x ∷ xs) zero h = (x, refl)
get_elem?-lt (x ∷ xs) (suc i) h = get_elem?-lt xs i (omega arith)

choice_in_range :
    (index : ℕ) (kind : ToolInputAnswerKind) (choices : List Text)
    → validate_input_answer (choice index) kind choices ≡ ok tt
    → index < length choices
unfolding validate_input_answer
choice_in_range index text_kind choices h = cc
choice_in_range index single_choice choices h = ground arith

-- The index of a validated choice is in range, so encoding the answer to an input request, which
-- indexes the choices without a check, does not panic.
pub canonical_result_total :
    (answer : ToolInputAnswer) (request : ToolInputRequest)
    → validate_answer (InteractionAnswer.tool_input answer) (InteractionKind.tool_input request)
      ≡ ok tt
    → (r : CanonicalResult) × (canonical_result answer request ≡ some r)
unfolding validate_answer canonical_result
canonical_result_total (text t) request h = (text_result t, refl)
canonical_result_total (choice index) request h =
    let (t, e) = get_elem?-lt request.choices index (choice_in_range index _ request.choices h) in
    (choice_result index t, rw (e, canonical_result) refl)
