-- ===== src/Usage.antt =====
-- src/model/usage.rs and src/usage.rs: token counts of one request, and their sum over a loop.
pub mod Sum
pub mod Examples
use minicore_runtime.Base.{
  ℕ, List, [], ◌∷◌, Option, none, some, Result, ok, err, ◌>>=◌, checked_add, u64_mod,
}

-- Each count is a u64, if the provider reported it.
pub record Usage : Type 0 where
  pub input_tokens : Option ℕ
  pub output_tokens : Option ℕ
  pub reasoning_tokens : Option ℕ
  pub cache_read_tokens : Option ℕ
  pub cache_write_tokens : Option ℕ
  pub provider_total_tokens : Option ℕ

-- Usage::default
abbrev pub default_usage : Usage
default_usage = record {
  input_tokens = none;
  output_tokens = none;
  reasoning_tokens = none;
  cache_read_tokens = none;
  cache_write_tokens = none;
  provider_total_tokens = none;
}

-- `unwrap_or_default` of a response's usage.
abbrev pub usage_or_default : Option Usage → Usage
usage_or_default none = default_usage
usage_or_default (some usage) = usage

abbrev pub checked : ℕ → ℕ → Option ℕ
checked = checked_add u64_mod

abbrev add_checked : Option ℕ → ℕ → Option ℕ
add_checked none n = none
add_checked (some m) n = checked m n

-- Usage::total_tokens
unfoldable pub total_of : Option ℕ → Option ℕ → Option ℕ → Option ℕ
total_of (some input) (some output) (some reasoning) = add_checked (checked input output) reasoning
total_of _ _ _ = none

unfoldable pub total_tokens : Usage → Option ℕ
unfolding total_of
total_tokens u = total_of u.input_tokens u.output_tokens u.reasoning_tokens

abbrev present : Option ℕ → Result (Option ℕ) (Unit {0})
present none = err tt
present (some n) = ok (some n)

unfoldable pub sum_field : Option ℕ → Option ℕ → Result (Option ℕ) (Unit {0})
sum_field (some left) (some right) = present (checked left right)
sum_field none right = ok right
sum_field left none = ok left

unfoldable pub sum_usage : Usage → Usage → Result Usage (Unit {0})
sum_usage left right = do
  input ← sum_field left.input_tokens right.input_tokens
  output ← sum_field left.output_tokens right.output_tokens
  reasoning ← sum_field left.reasoning_tokens right.reasoning_tokens
  cache_read ← sum_field left.cache_read_tokens right.cache_read_tokens
  cache_write ← sum_field left.cache_write_tokens right.cache_write_tokens
  provider_total ← sum_field left.provider_total_tokens right.provider_total_tokens
  ok (record {
    input_tokens = input;
    output_tokens = output;
    reasoning_tokens = reasoning;
    cache_read_tokens = cache_read;
    cache_write_tokens = cache_write;
    provider_total_tokens = provider_total;
  })

-- UsageAccumulator::add, over the responses of a loop; an error ends the loop.
unfoldable pub accumulate : Usage → List Usage → Result Usage (Unit {0})
accumulate value [] = ok value
accumulate value (u ∷ us) = sum_usage value u >>= λ value'. accumulate value' us
