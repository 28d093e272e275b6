-- ===== src/ModelCall/Texts.antt =====
-- src/model/driver/assembler.rs, finish: the text of the response is the text that was assembled.
use minicore_runtime.Base.{
  ◌≡◌, refl, sym, ap, subst, ◌∙◌, Bool, true, false, not, List, [], ◌∷◌, ◌++◌, append-nil, any, all,
  is_empty, Option, none, some, Result, ok, err, ◌>>=◌, map_err, if_cases, if◌then◌else◌,
}
use minicore_runtime.Text.{Text, allowed_char, normalize_model_text}
use minicore_runtime.Text.Normalize.{normalize_model_text_lem, normalize_chars_id}
use minicore_runtime.Message.{
  AssistantPart, ModelValueError, ReasoningContent, ToolCall, text, reasoning, tool_call,
  new_reasoning, normalize_parts, normalize_part,
}
use minicore_runtime.Batch.{Panic}
use minicore_runtime.Response.{ModelResponse, ModelFinishReason, new_response}
use minicore_runtime.Usage.{usage_or_default}
use minicore_runtime.Assembler.{
  Assembler, ToolAssembly, PartSlot, text_slot, reasoning_slot, tool_slot, invalid_response,
}
use minicore_runtime.Assembler.Finish.{
  Parts, Finished, take_call, slot_parts, with_part, contradicts, finished_by,
}
use minicore_runtime.Assembler.Calls.{HasParts, new_response-HasParts}
use minicore_runtime.ModelCall.Deltas.{is_text_slot, HasSlot}

-- The texts of a message, one after the other.
abbrev pub texts_of : List AssistantPart → Text
texts_of [] = []
texts_of (text t ∷ parts) = t ++ texts_of parts
texts_of (reasoning r ∷ parts) = texts_of parts
texts_of (tool_call c ∷ parts) = texts_of parts

-- The parts, if there are parts, have this text, which is allowed.
abbrev Reads : Text → Parts → Type 0
Reads content (err p) = Unit
Reads content (ok (err e)) = Unit
Reads content (ok (ok parts)) =
    (texts_of parts ≡ content) × (texts_of (normalize_parts parts) ≡ texts_of parts)

-- The text goes to the first of its slots.
abbrev slot_text : List PartSlot → Text → Text
slot_text slots content = if any is_text_slot slots then content else []

normalize_allowed : (t : Text) → all allowed_char t ≡ true → normalize_model_text t ≡ t
normalize_allowed t h = normalize_model_text_lem t ∙ normalize_chars_id t h

text_part-Reads :
    (t content : Text) (rest : Parts)
    → all allowed_char t ≡ true
    → Reads content rest
    → Reads (t ++ content) (with_part (text t) rest)
unfolding normalize_parts normalize_part
text_part-Reads t content (err p) a w = tt
text_part-Reads t content (ok (err e)) a w = tt
text_part-Reads t content (ok (ok parts)) a w =
    (ap (λ s. t ++ s) w.0, cc (normalize_allowed t a, w.1))

other_part-Reads :
    (part : AssistantPart) (content : Text) (rest : Parts)
    → ((parts : List AssistantPart) → texts_of (part ∷ parts) ≡ texts_of parts)
    → normalize_part part ≡ part
    → Reads content rest
    → Reads content (with_part part rest)
unfolding normalize_parts
other_part-Reads part content (err p) o n w = tt
other_part-Reads part content (ok (err e)) o n w = tt
other_part-Reads part content (ok (ok parts)) o n w =
    (o parts ∙ w.0, rw n (o (normalize_parts parts) ∙ w.1 ∙ sym (o parts)))

no_text : (b : Bool) → ◌≡◌ {A = Text} (if b then [] else []) []
no_text true = refl
no_text false = refl

reasoned-Reads :
    (content : Text) (r : Result ReasoningContent ModelValueError) (rest : Parts)
    → Reads content rest
    → Reads content
        (elim r [ err e ↦ ok (err invalid_response) | ok r ↦ with_part (reasoning r) rest ])
unfolding normalize_part
reasoned-Reads content (err e) rest w = tt
reasoned-Reads content (ok r) rest w =
    other_part-Reads (reasoning r) content rest (λ ps. refl) refl w

called-Reads :
    (content : Text) (taken : Result (ToolCall × List ToolAssembly) Panic)
    (rest : List ToolAssembly → Parts)
    → ((tools : List ToolAssembly) → Reads content (rest tools))
    → Reads content (taken >>= λ w. with_part (tool_call w.0) (rest w.1))
unfolding normalize_part
called-Reads content (err p) rest w = tt
called-Reads content (ok (call, tools)) rest w =
    other_part-Reads (tool_call call) content (rest tools) (λ ps. refl) refl (w tools)

slot_parts-Reads :
    (content thought : Text) (tools : List ToolAssembly) (slots : List PartSlot)
    → all allowed_char content ≡ true
    → Reads (slot_text slots content) (slot_parts content thought tools slots)
unfolding slot_parts normalize_part normalize_parts
slot_parts-Reads content thought tools [] a = (refl, refl)
slot_parts-Reads content thought tools (text_slot ∷ slots) a =
    subst (λ s. Reads s (with_part (text content) (slot_parts [] thought tools slots)))
      (ap (λ s. content ++ s) (no_text (any is_text_slot slots)) ∙ append-nil content)
      (text_part-Reads content (slot_text slots []) (slot_parts [] thought tools slots) a
        (slot_parts-Reads [] thought tools slots refl))
slot_parts-Reads content thought tools (reasoning_slot ∷ slots) a =
    reasoned-Reads (slot_text slots content) (new_reasoning (some thought) none none none) _
      (slot_parts-Reads content [] tools slots a)
slot_parts-Reads content thought tools (tool_slot index ∷ slots) a =
    called-Reads (slot_text slots content) (take_call index tools)
      (λ tools'. slot_parts content thought tools' slots)
      (λ tools'. slot_parts-Reads content thought tools' slots a)

-- A response, if there is one, has this text.
abbrev pub HasText : Text → Finished → Type 0
HasText content (err p) = Unit
HasText content (ok (err e)) = Unit
HasText content (ok (ok response)) = texts_of response.parts ≡ content

made-HasText :
    (content : Text) (assembled : Parts)
    (make : List AssistantPart → Result ModelResponse ModelValueError)
    → ((parts : List AssistantPart) → HasParts parts (make parts))
    → Reads content assembled
    → HasText content
        (assembled >>= λ r. ok (r >>= λ parts. map_err (λ e. invalid_response) (make parts)))
made-HasText content (err p) make h w = tt
made-HasText content (ok (err e)) make h w = tt
made-HasText content (ok (ok parts)) make h w = made (make parts) (h parts)
  where
    made :
        (r : Result ModelResponse ModelValueError)
        → HasParts parts r
        → HasText content (ok (map_err (λ e. invalid_response) r))
    made (err e) g = tt
    made (ok r) g = ap texts_of g ∙ w.1 ∙ w.0

slot_text_lem :
    (slots : List PartSlot) (content : Text)
    → any is_text_slot slots ≡ not (is_empty content)
    → slot_text slots content ≡ content
slot_text_lem slots [] h = no_text (any is_text_slot slots)
slot_text_lem slots (c ∷ content) h = rw h refl

pub finished_by-HasText :
    (a : Assembler) (reason : Option ModelFinishReason)
    → HasSlot a
    → all allowed_char a.text ≡ true
    → HasText a.text (finished_by a reason)
finished_by-HasText a none s h = tt
finished_by-HasText a (some reason) s h =
    if_cases (HasText a.text) (contradicts a reason) (λ t. tt)
      (λ f.
        made-HasText a.text (slot_parts a.text a.reasoning a.tools a.slots)
          (λ parts. new_response parts reason (some (usage_or_default a.usage)) a.provider_replay)
          (λ parts. new_response-HasParts parts reason _ a.provider_replay)
          (subst (λ t. Reads t (slot_parts a.text a.reasoning a.tools a.slots))
            (slot_text_lem a.slots a.text s)
            (slot_parts-Reads a.text a.reasoning a.tools a.slots h)))
