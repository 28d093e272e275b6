-- ===== src/Usage/Sum.antt =====
-- What `UsageAccumulator` of src/usage.rs computes: for each count the exact sum of what was
-- reported, or an error.
use minicore_runtime.Base.{
  ℕ, ◌+◌, ◌≤◌, ◌≡◌, refl, List, [], ◌∷◌, Option, none, some, arith, Result, ok, err, ◌>>=◌, map,
  ltb, All, if◌then◌else◌, u64_mod, Bool, true, false, ◌∙◌,
}
use minicore_runtime.Usage.{Usage, sum_field, sum_usage, accumulate}

-- The sum of the counts that were reported, if any was, with no bound.
abbrev pub sum_reported : Option ℕ → List (Option ℕ) → Option ℕ
sum_reported total [] = total
sum_reported total (none ∷ counts) = sum_reported total counts
sum_reported none (some n ∷ counts) = sum_reported (some n) counts
sum_reported (some m) (some n ∷ counts) = sum_reported (some (m + n)) counts

abbrev pub fits : Option ℕ → Bool
fits none = true
fits (some n) = ltb n u64_mod

-- That sum, if it is a u64.
abbrev pub exact : Option ℕ → List (Option ℕ) → Result (Option ℕ) (Unit {0})
exact total counts =
    if fits (sum_reported total counts) then ok (sum_reported total counts) else err tt

-- A usage from its six counts; the first error ends it.
abbrev pub all_fields :
    Result (Option ℕ) (Unit {0})
    → Result (Option ℕ) (Unit {0})
    → Result (Option ℕ) (Unit {0})
    → Result (Option ℕ) (Unit {0})
    → Result (Option ℕ) (Unit {0})
    → Result (Option ℕ) (Unit {0})
    → Result Usage (Unit {0})
all_fields r1 r2 r3 r4 r5 r6 = do
  a ← r1
  b ← r2
  c ← r3
  d ← r4
  e ← r5
  f ← r6
  ok (record {
    input_tokens = a;
    output_tokens = b;
    reasoning_tokens = c;
    cache_read_tokens = d;
    cache_write_tokens = e;
    provider_total_tokens = f;
  })

-- Each count summed over the responses of a loop.
abbrev pub exact_usage : Usage → List Usage → Result Usage (Unit {0})
exact_usage t us =
    all_fields (exact t.input_tokens (map (λ u. u.input_tokens) us))
      (exact t.output_tokens (map (λ u. u.output_tokens) us))
      (exact t.reasoning_tokens (map (λ u. u.reasoning_tokens) us))
      (exact t.cache_read_tokens (map (λ u. u.cache_read_tokens) us))
      (exact t.cache_write_tokens (map (λ u. u.cache_write_tokens) us))
      (exact t.provider_total_tokens (map (λ u. u.provider_total_tokens) us))

abbrev Field : Type 0
Field = Result (Option ℕ) (Unit {0})

-- An error in any count ends in the same error, so the counts may be continued one by one.
all_fields-bind :
    (r1 r2 r3 r4 r5 r6 : Field) (k1 k2 k3 k4 k5 k6 : Option ℕ → Field)
    → (all_fields r1 r2 r3 r4 r5 r6 >>= λ u.
        all_fields
          (k1 u.input_tokens)
          (k2 u.output_tokens)
          (k3 u.reasoning_tokens)
          (k4 u.cache_read_tokens)
          (k5 u.cache_write_tokens)
          (k6 u.provider_total_tokens))
      ≡ all_fields (r1 >>= k1) (r2 >>= k2) (r3 >>= k3) (r4 >>= k4) (r5 >>= k5) (r6 >>= k6)
all_fields-bind (err x) r2 r3 r4 r5 r6 k1 k2 k3 k4 k5 k6 = refl
all_fields-bind (ok a) (err x) r3 r4 r5 r6 k1 k2 k3 k4 k5 k6 = ground arith
all_fields-bind (ok a) (ok b) (err x) r4 r5 r6 k1 k2 k3 k4 k5 k6 = ground arith
all_fields-bind (ok a) (ok b) (ok c) (err x) r5 r6 k1 k2 k3 k4 k5 k6 = ground arith
all_fields-bind (ok a) (ok b) (ok c) (ok d) (err x) r6 k1 k2 k3 k4 k5 k6 = ground arith
all_fields-bind (ok a) (ok b) (ok c) (ok d) (ok e) (err x) k1 k2 k3 k4 k5 k6 = ground arith
all_fields-bind (ok a) (ok b) (ok c) (ok d) (ok e) (ok f) k1 k2 k3 k4 k5 k6 = refl

sum_reported_grows :
    (m : ℕ) (counts : List (Option ℕ)) → u64_mod ≤ m → fits (sum_reported (some m) counts) ≡ false
sum_reported_grows m [] h = ground arith
sum_reported_grows m (none ∷ counts) h = sum_reported_grows m counts h
sum_reported_grows m (some n ∷ counts) h = sum_reported_grows (m + n) counts (omega arith)

-- One more response: add its count, then go on.
exact-cons :
    (total count : Option ℕ) (counts : List (Option ℕ))
    → (sum_field total count >>= λ total'. exact total' counts) ≡ exact total (count ∷ counts)
unfolding sum_field
exact-cons none none counts = refl
exact-cons none (some n) counts = refl
exact-cons (some m) none counts = refl
exact-cons (some m) (some n) counts = ground (arith, sum_reported_grows (m + n) counts)

-- Every count that is there is a u64.
pub record Fits (u : Usage) : Type 0 where
  pub input : fits u.input_tokens ≡ true
  pub output : fits u.output_tokens ≡ true
  pub reasoning : fits u.reasoning_tokens ≡ true
  pub cache_read : fits u.cache_read_tokens ≡ true
  pub cache_write : fits u.cache_write_tokens ≡ true
  pub provider_total : fits u.provider_total_tokens ≡ true

exact_usage-cons :
    (t u : Usage) (us : List Usage)
    → (sum_usage t u >>= λ v. exact_usage v us) ≡ exact_usage t (u ∷ us)
unfolding sum_usage
exact_usage-cons t u us =
    all_fields-bind (sum_field t.input_tokens u.input_tokens)
      (sum_field t.output_tokens u.output_tokens) (sum_field t.reasoning_tokens u.reasoning_tokens)
      (sum_field t.cache_read_tokens u.cache_read_tokens)
      (sum_field t.cache_write_tokens u.cache_write_tokens)
      (sum_field t.provider_total_tokens u.provider_total_tokens)
      (λ a. exact a (map (λ u. u.input_tokens) us)) (λ a. exact a (map (λ u. u.output_tokens) us))
      (λ a. exact a (map (λ u. u.reasoning_tokens) us))
      (λ a. exact a (map (λ u. u.cache_read_tokens) us))
      (λ a. exact a (map (λ u. u.cache_write_tokens) us))
      (λ a. exact a (map (λ u. u.provider_total_tokens) us))
    ∙ rw (
      exact-cons t.input_tokens u.input_tokens (map (λ u. u.input_tokens) us),
      exact-cons t.output_tokens u.output_tokens (map (λ u. u.output_tokens) us),
      exact-cons t.reasoning_tokens u.reasoning_tokens (map (λ u. u.reasoning_tokens) us),
      exact-cons t.cache_read_tokens u.cache_read_tokens (map (λ u. u.cache_read_tokens) us),
      exact-cons t.cache_write_tokens u.cache_write_tokens (map (λ u. u.cache_write_tokens) us),
      exact-cons t.provider_total_tokens u.provider_total_tokens
          (map (λ u. u.provider_total_tokens) us),
    )

all_fields-eq-ok :
    (r1 r2 r3 r4 r5 r6 : Field) (v : Usage)
    → all_fields r1 r2 r3 r4 r5 r6 ≡ ok v
    → (r1 ≡ ok v.input_tokens)
      × (r2 ≡ ok v.output_tokens)
      × (r3 ≡ ok v.reasoning_tokens)
      × (r4 ≡ ok v.cache_read_tokens)
      × (r5 ≡ ok v.cache_write_tokens)
      × (r6 ≡ ok v.provider_total_tokens)
all_fields-eq-ok (err x) r2 r3 r4 r5 r6 v h = cc
all_fields-eq-ok (ok a) (err x) r3 r4 r5 r6 v h = cc
all_fields-eq-ok (ok a) (ok b) (err x) r4 r5 r6 v h = cc
all_fields-eq-ok (ok a) (ok b) (ok c) (err x) r5 r6 v h = cc
all_fields-eq-ok (ok a) (ok b) (ok c) (ok d) (err x) r6 v h = cc
all_fields-eq-ok (ok a) (ok b) (ok c) (ok d) (ok e) (err x) v h = cc
all_fields-eq-ok (ok a) (ok b) (ok c) (ok d) (ok e) (ok f) v h =
    (ground arith, ground arith, ground arith, ground arith, ground arith, ground arith)

sum_field-fits :
    (a b c : Option ℕ) → fits a ≡ true → fits b ≡ true → sum_field a b ≡ ok c → fits c ≡ true
unfolding sum_field
sum_field-fits a b c ha hb h = ground arith

sum_usage-Fits : (t u v : Usage) → Fits t → Fits u → sum_usage t u ≡ ok v → Fits v
unfolding sum_usage
sum_usage-Fits t u v ft fu h =
    let (a, b, c, d, e, f) =
      all_fields-eq-ok (sum_field t.input_tokens u.input_tokens)
        (sum_field t.output_tokens u.output_tokens)
        (sum_field t.reasoning_tokens u.reasoning_tokens)
        (sum_field t.cache_read_tokens u.cache_read_tokens)
        (sum_field t.cache_write_tokens u.cache_write_tokens)
        (sum_field t.provider_total_tokens u.provider_total_tokens) v h in
    record {
      input = sum_field-fits _ _ _ ft.input fu.input a;
      output = sum_field-fits _ _ _ ft.output fu.output b;
      reasoning = sum_field-fits _ _ _ ft.reasoning fu.reasoning c;
      cache_read = sum_field-fits _ _ _ ft.cache_read fu.cache_read d;
      cache_write = sum_field-fits _ _ _ ft.cache_write fu.cache_write e;
      provider_total = sum_field-fits _ _ _ ft.provider_total fu.provider_total f;
    }

-- The usage of a loop is, for each count, the exact sum over its responses of what was reported,
-- absent if no response reported it; the accumulator fails exactly if one of these sums is no u64.
pub accumulate_exact :
    (t : Usage) (us : List Usage) → Fits t → All Fits us → accumulate t us ≡ exact_usage t us
unfolding accumulate
accumulate_exact t [] ft fus = ground arith
accumulate_exact t (u ∷ us) ft fus =
    go (sum_usage t u) refl (λ v e. accumulate_exact v us (sum_usage-Fits t u v ft fus.0 e) fus.1)
  where
    go :
        (r : Result Usage (Unit {0}))
        → sum_usage t u ≡ r
        → ((v : Usage) → sum_usage t u ≡ ok v → accumulate v us ≡ exact_usage v us)
        → accumulate t (u ∷ us) ≡ exact_usage t (u ∷ us)
    go (ok v) e ih = rw e (ih v e) ∙ (rw e at (exact_usage-cons t u us))
    go (err x) e ih = rw e refl ∙ (rw e at (exact_usage-cons t u us))
