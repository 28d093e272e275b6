-- ===== src/Text/Stream.antt =====
-- `normalized_delta` of src/model/driver/assembler.rs: text that arrives in pieces is normalized
-- piece by piece, with one bit carried from each piece to the next.
use minicore_runtime.Base.{
  ℕ, ◌≡◌, refl, sym, ◌∙◌, Bool, true, false, List, [], ◌∷◌, ◌++◌, arith, ◌==◌, is_empty,
  if◌then◌else◌, ◌||◌, ◌&&◌, not, is_ok,
}
use minicore_runtime.Text.{
  Text, normalize_chars, normalize_model_text, newline, carriage_return, bounded_text, valid_text,
  usize_max, byte_len,
}
use minicore_runtime.Text.Normalize.{normalize_model_text_lem}

-- raw.strip_prefix('\n').unwrap_or(raw)
unfoldable pub strip_newline : Text → Text
strip_newline [] = []
strip_newline (c ∷ s) = if c == newline then s else c ∷ s

-- raw.ends_with('\r')
unfoldable pub ends_with_return : Text → Bool
ends_with_return [] = false
ends_with_return (c ∷ []) = c == carriage_return
ends_with_return (c ∷ d ∷ s) = ends_with_return (d ∷ s)

-- The normalized piece, and the new value of `ended_with_cr`.
unfoldable pub normalized_delta : Text → Bool → Text × Bool
normalized_delta delta ended_with_cr = if is_empty delta then (delta, ended_with_cr) else (
  normalize_model_text (if ended_with_cr then strip_newline delta else delta),
  ends_with_return delta,
)

-- Whether the `expect` on the text of the piece panics; text that was borrowed whole is not made again.
unfoldable pub delta_panics : Text → Bool → Bool
delta_panics delta ended_with_cr =
    let raw = if ended_with_cr then strip_newline delta else delta in
    if is_empty delta || valid_text raw usize_max true && byte_len raw == byte_len delta
    then false
    else not (is_ok (bounded_text (normalize_model_text raw)))

-- The pieces that a stream of deltas shows, end to end.
unfoldable pub stream_normalize : Bool → List Text → Text
unfolding normalized_delta
stream_normalize ended_with_cr [] = []
stream_normalize ended_with_cr (delta ∷ rest) =
    let (text, ended) = normalized_delta delta ended_with_cr in text ++ stream_normalize ended rest

abbrev pub concat : List Text → Text
concat [] = []
concat (t ∷ ts) = t ++ concat ts

abbrev resume : Bool → Text → Text
resume ended s = normalize_chars (if ended then strip_newline s else s)

-- A text may be cut anywhere, if the second part is read on from the first.
normalize_chars-append :
    (a b : Text) → normalize_chars (a ++ b) ≡ normalize_chars a ++ resume (ends_with_return a) b
unfolding normalize_chars ends_with_return strip_newline
normalize_chars-append [] b = refl
normalize_chars-append (c ∷ []) [] = ground arith
normalize_chars-append (c ∷ []) (d ∷ b) = ground arith
normalize_chars-append (c ∷ d ∷ a) b =
    ground (arith, normalize_chars-append a b, normalize_chars-append (d ∷ a) b)

-- Dropping the line feed of a pair does not change how the piece ends.
ends_with_return-strip_newline :
    (s : Text) → ends_with_return (strip_newline s) ≡ ends_with_return s
unfolding ends_with_return strip_newline
ends_with_return-strip_newline [] = refl
ends_with_return-strip_newline (c ∷ []) = ground arith
ends_with_return-strip_newline (c ∷ d ∷ s) = ground arith

strip_newline-append :
    (c : ℕ) (s t : Text) → strip_newline (c ∷ s ++ t) ≡ strip_newline (c ∷ s) ++ t
unfolding strip_newline
strip_newline-append c s t = ground arith

resume-append :
    (e : Bool) (c : ℕ) (s t : Text)
    → resume e ((c ∷ s) ++ t)
      ≡ (normalized_delta (c ∷ s) e).0 ++ resume (ends_with_return (c ∷ s)) t
unfolding normalized_delta
resume-append false c s t = rw normalize_model_text_lem (normalize_chars-append (c ∷ s) t)
resume-append true c s t =
    rw (normalize_model_text_lem, strip_newline-append, ← ends_with_return-strip_newline (c ∷ s))
      (normalize_chars-append (strip_newline (c ∷ s)) t)

stream_normalize-resume :
    (e : Bool) (deltas : List Text) → stream_normalize e deltas ≡ resume e (concat deltas)
unfolding stream_normalize normalize_chars strip_newline
stream_normalize-resume true [] = refl
stream_normalize-resume false [] = refl
stream_normalize-resume e ([] ∷ rest) = stream_normalize-resume e rest
stream_normalize-resume e ((c ∷ s) ∷ rest) =
    rw (stream_normalize-resume (ends_with_return (c ∷ s)) rest)
      (sym (resume-append e c s (concat rest)))

-- However the model's text is cut into deltas, also between a carriage return and its line feed,
-- the pieces that `normalized_delta` shows are together the normalization of the whole text.
pub stream_normalize-concat :
    (deltas : List Text) → stream_normalize false deltas ≡ normalize_model_text (concat deltas)
stream_normalize-concat deltas =
    stream_normalize-resume false deltas ∙ sym (normalize_model_text_lem (concat deltas))
