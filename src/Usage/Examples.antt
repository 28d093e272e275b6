-- ===== src/Usage/Examples.antt =====
-- Tests and concrete instances of the theorems on usage.
use minicore_runtime.Base.{◌≡◌, refl, [], ◌∷◌, some, none, ok, err, ◌^◌, ◌-◌}
use minicore_runtime.Usage.{Usage, default_usage, accumulate, sum_usage, sum_field, total_tokens}
use minicore_runtime.Usage.Sum.{accumulate_exact, Fits}

abbrev first : Usage
first = record default_usage { input_tokens = some 2; cache_read_tokens = some 3 }

abbrev second : Usage
second = record default_usage { input_tokens = some 5; output_tokens = some 4 }

default-Fits : Fits default_usage
default-Fits = record {
  input = refl;
  output = refl;
  reasoning = refl;
  cache_read = refl;
  cache_write = refl;
  provider_total = refl;
}

first-Fits : Fits first
first-Fits = record {
  input = refl;
  output = refl;
  reasoning = refl;
  cache_read = refl;
  cache_write = refl;
  provider_total = refl;
}

second-Fits : Fits second
second-Fits = record {
  input = refl;
  output = refl;
  reasoning = refl;
  cache_read = refl;
  cache_write = refl;
  provider_total = refl;
}

accumulate_exact_example :
    accumulate default_usage (first ∷ default_usage ∷ second ∷ [])
    ≡ ok (record default_usage {
      input_tokens = some 7;
      output_tokens = some 4;
      cache_read_tokens = some 3;
    })
accumulate_exact_example =
    accumulate_exact default_usage (first ∷ default_usage ∷ second ∷ []) default-Fits
      (first-Fits, (default-Fits, (second-Fits, tt)))

overflow_is_an_error :
    accumulate default_usage (
      record default_usage { input_tokens = some (2 ^ 64 - 1) }
      ∷ record default_usage { input_tokens = some 1 }
      ∷ [])
    ≡ err tt
unfolding accumulate sum_usage sum_field
overflow_is_an_error = refl

no_total : total_tokens first ≡ none
unfolding total_tokens
no_total = refl
