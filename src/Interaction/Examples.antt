-- ===== src/Interaction/Examples.antt =====
-- Tests and concrete instances of the theorems on interactions.
use minicore_runtime.Base.{◌≡◌, refl, [], ◌∷◌, ok, err}
use minicore_runtime.Text.{byte_len, valid_text, allowed_char}
use minicore_runtime.Interaction.{
  ToolInputRequest, choice, text, single_choice, InteractionAnswer, InteractionKind,
  validate_answer, validate_request, invalid_answer,
}

abbrev pub pick : ToolInputRequest
pick = record {
  prompt = b'?' ∷ [];
  choices = (b'a' ∷ []) ∷ (b'b' ∷ []) ∷ [];
  answer_kind = single_choice;
}

pick_is_valid : validate_request pick ≡ ok tt
unfolding validate_request valid_text byte_len allowed_char
pick_is_valid = refl

third_choice_refused :
    validate_answer (InteractionAnswer.tool_input (choice 2)) (InteractionKind.tool_input pick)
    ≡ err invalid_answer
unfolding validate_answer
third_choice_refused = refl

text_refused :
    validate_answer
      (InteractionAnswer.tool_input (text (b'a' ∷ [])))
      (InteractionKind.tool_input pick)
    ≡ err invalid_answer
unfolding validate_answer
text_refused = refl
