-- ===== src/Prompt/Summary.antt =====
-- src/prompt.rs, summary_message: what is kept of a summary that is too long.
use minicore_runtime.Base.{
  ℕ, zero, suc, ◌+◌, ◌-◌, ◌≤◌, ◌<◌, ◌≡◌, refl, sym, ap, subst, ◌∙◌, true, false, [], ◌∷◌, ◌++◌,
  append-nil, ok, ◌>>=◌, leb, ltb, ◌==◌, Bool-cases, if_cases, inl, inr, arith,
}
use minicore_runtime.Text.{Text, byte_len, char_len}
use minicore_runtime.Text.Bytes.{char_len_pos, byte_len-append}
use minicore_runtime.Message.{max_model_message_text_bytes}
use minicore_runtime.Exchange.{new_system}
use minicore_runtime.Prompt.{
  summary_prefix, is_char_boundary, slice_to, back_to_boundary, summary_end, summary_message,
}

-- A text cut in two, the first part of the given length.
record Cut (content : Text) (end : ℕ) : Type 0 where
  before : Text
  after : Text
  parts : content ≡ before ++ after
  length : byte_len before ≡ end
  sliced : slice_to content end ≡ ok before

Cut-cons :
    (c : ℕ) (content : Text) (end : ℕ)
    → char_len c ≤ end
    → Cut content (end - char_len c)
    → Cut (c ∷ content) end
unfolding slice_to byte_len
Cut-cons c content end h cut = record {
  before = c ∷ cut.before;
  after = cut.after;
  parts = ap (◌∷◌ c) cut.parts;
  length = omega (arith, cut.length);
  sliced = ground (arith, cut.sliced, char_len_pos c);
}

Cut-zero : (content : Text) → Cut content 0
unfolding slice_to byte_len
Cut-zero [] = record { before = []; after = []; parts = refl; length = refl; sliced = refl }
Cut-zero (c ∷ content) = record {
  before = [];
  after = c ∷ content;
  parts = refl;
  length = refl;
  sliced = refl;
}

is_char_boundary-Cut :
    (content : Text) (end : ℕ) → is_char_boundary content end ≡ true → Cut content end
unfolding is_char_boundary
is_char_boundary-Cut [] end h = subst (Cut []) {x = 0} (ground arith) (Cut-zero [])
is_char_boundary-Cut (c ∷ content) end h = elim (Bool-cases (end == 0)) [
  | inl z ↦ subst (Cut (c ∷ content)) {x = 0} (ground arith) (Cut-zero (c ∷ content))
  | inr n ↦
      Cut-cons c content end (ground arith)
        (is_char_boundary-Cut content (end - char_len c) (ground arith))
]

is_char_boundary_zero : (content : Text) → is_char_boundary content 0 ≡ true
unfolding is_char_boundary
is_char_boundary_zero [] = refl
is_char_boundary_zero (c ∷ content) = refl

-- The end of the next character is a boundary.
is_char_boundary_next :
    (before : Text) (d : ℕ) (after : Text)
    → is_char_boundary (before ++ d ∷ after) (byte_len before + char_len d) ≡ true
unfolding is_char_boundary byte_len
is_char_boundary_next [] d after =
    let e : 0 + char_len d - char_len d ≡ 0 = omega arith in
    ground (arith, char_len_pos d, ap (is_char_boundary after) e, is_char_boundary_zero after)
is_char_boundary_next (c ∷ before) d after =
    let e : char_len c + byte_len before + char_len d - char_len c ≡ byte_len before + char_len d =
      omega arith in
    ground (
      arith,
      char_len_pos c,
      ap (is_char_boundary (before ++ d ∷ after)) e,
      is_char_boundary_next before d after,
    )

-- The loop stops at a boundary, with none between it and the start.
back_to_boundary_lem :
    (content : Text) (end : ℕ)
    → (is_char_boundary content (back_to_boundary content end) ≡ true)
      × ((k : ℕ) → back_to_boundary content end < k → k ≤ end → is_char_boundary content k ≡ false)
unfolding back_to_boundary
back_to_boundary_lem content zero = (is_char_boundary_zero content, λ k l m. absurd (omega arith))
back_to_boundary_lem content (suc end) = elim (Bool-cases (is_char_boundary content (suc end))) [
  | inl b ↦ rw b (b, λ k l m. absurd (omega arith))
  | inr n ↦ let ih = back_to_boundary_lem content end in rw n (ih.0, λ k l m. below k ih l m n)
]
  where
    below :
        (k : ℕ)
        → (is_char_boundary content (back_to_boundary content end) ≡ true)
          × ((k : ℕ)
              → back_to_boundary content end < k
              → k ≤ end
              → is_char_boundary content k ≡ false)
        → back_to_boundary content end < k
        → k ≤ suc end
        → is_char_boundary content (suc end) ≡ false
        → is_char_boundary content k ≡ false
    below k ih l m n = elim (Bool-cases (leb k end)) [
      | inl a ↦ ih.1 k l (ground arith)
      | inr b ↦ subst (λ j. is_char_boundary content j ≡ false) {x = suc end} (ground arith) n
    ]

-- The next character of the rest would go over the limit.
abbrev pub Full : ℕ → Text → Text → Type 0
Full maximum before [] = Unit
Full maximum before (d ∷ after) = maximum < byte_len before + char_len d

-- A message is made of the prefix and as much of the content as fits: its first characters, all of
-- them or so many that the next one would go over the limit.
pub record Keeps (content kept : Text) : Type 0 where
  pub rest : Text
  pub parts : content ≡ kept ++ rest
  pub within : byte_len (summary_prefix ++ kept) ≤ max_model_message_text_bytes
  pub full : Full max_model_message_text_bytes (summary_prefix ++ kept) rest

back_to_boundary-le : (content : Text) (end : ℕ) → back_to_boundary content end ≤ end
unfolding back_to_boundary
back_to_boundary-le content zero = omega arith
back_to_boundary-le content (suc end) = ground (arith, back_to_boundary-le content end)

slice_to-all : (content : Text) → slice_to content (byte_len content) ≡ ok content
unfolding slice_to byte_len
slice_to-all [] = refl
slice_to-all (c ∷ content) =
    let e : char_len c + byte_len content - char_len c ≡ byte_len content = omega arith in
    ground (arith, char_len_pos c, ap (slice_to content) e, slice_to-all content)

prefix_bytes : byte_len summary_prefix ≡ 22
unfolding byte_len
prefix_bytes = refl

-- What the loop leaves is full.
Full-back :
    (content before after : Text)
    → content ≡ before ++ after
    → byte_len before ≡ back_to_boundary content (max_model_message_text_bytes - 22)
    → Full max_model_message_text_bytes (summary_prefix ++ before) after
Full-back content before [] p l = tt
Full-back content before (d ∷ after) p l =
    let at = byte_len before + char_len d in
    let sum = byte_len-append summary_prefix before in
    elim (Bool-cases (leb at (max_model_message_text_bytes - 22))) [
      | inl a ↦
          let (b, none_after) = back_to_boundary_lem content (max_model_message_text_bytes - 22) in
          let next : is_char_boundary content at ≡ true =
            subst (λ t. is_char_boundary t at ≡ true) (sym p)
              (is_char_boundary_next before d after) in
          absurd
            (ground (arith, next, none_after at (omega (arith, l, char_len_pos d)) (ground arith)))
      | inr n ↦ ground (arith, n, sum, prefix_bytes)
    ]

Keeps-end :
    (content : Text)
    → (kept : Text) × Keeps content kept × (slice_to content (summary_end content) ≡ ok kept)
unfolding summary_end
Keeps-end content =
    if_cases (λ end. (kept : Text) × Keeps content kept × (slice_to content end ≡ ok kept))
      (ltb max_model_message_text_bytes (byte_len summary_prefix + byte_len content))
      (λ t.
        subst
          (λ n.
            (kept : Text) × Keeps content kept
            × (slice_to content (back_to_boundary content (max_model_message_text_bytes - n))
                ≡ ok kept))
          (sym prefix_bytes) (long (max_model_message_text_bytes - 22) refl))
      (λ f. (
        content,
        record {
          rest = [];
          parts = sym (append-nil content);
          within = ground (arith, byte_len-append summary_prefix content);
          full = tt;
        },
        slice_to-all content,
      ))
  where
    long :
        (end : ℕ)
        → end ≡ max_model_message_text_bytes - 22
        → (kept : Text) × Keeps content kept
          × (slice_to content (back_to_boundary content end) ≡ ok kept)
    long end e =
        let cut =
          is_char_boundary-Cut content (back_to_boundary content end)
            (back_to_boundary_lem content end).0 in
        (
          cut.before,
          record {
            rest = cut.after;
            parts = cut.parts;
            within = omega (
              arith,
              cut.length,
              byte_len-append summary_prefix cut.before,
              prefix_bytes,
              back_to_boundary-le content end,
              e,
            );
            full =
                Full-back content cut.before cut.after cut.parts
                  (cut.length ∙ ap (back_to_boundary content) e);
          },
          cut.sliced,
        )

-- The message of a summary has the fixed prefix and then the content's first characters, all of them
-- or as many as fit the limit of a message, so that it is never cut inside a character, and the
-- slice never panics; the message is refused only if the text of it is not allowed.
pub summary_message_lem :
    (content : Text)
    → (kept : Text) × Keeps content kept
      × (summary_message content ≡ ok (new_system (summary_prefix ++ kept)))
unfolding summary_message
summary_message_lem content =
    let (kept, keeps, e) = Keeps-end content in
    (kept, keeps, ap (λ r. r >>= λ k. ok (new_system (summary_prefix ++ k))) e)
