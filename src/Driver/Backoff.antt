-- ===== src/Driver/Backoff.antt =====
-- The delay of `delay_for_retry` of src/model/driver/failure.rs in closed form.
use native.Mathlib.Nat.{pow-suc}
use native.Mathlib.Decide.{dec_le}
use minicore_runtime.Base.{
  ℕ, zero, suc, ◌*◌, ◌^◌, ◌≤◌, ◌<◌, ◌≡◌, ◌∙◌, ap, min, max, Option, none, some, arith,
}
use minicore_runtime.ModelError.{Duration}
use minicore_runtime.Driver.{
  RetryPolicySnapshot, max_model_retry_delay, double, backoff, delay_for_retry,
}

pow_pos : (n : ℕ) → 1 ≤ 2 ^ n
pow_pos zero = omega arith
pow_pos (suc n) = omega (arith, pow_pos n, pow-suc 2 n)

double-min : (e : ℕ) → e ≤ max_model_retry_delay → double e ≡ min (e * 2) max_model_retry_delay
double-min e h = ground arith

le_scaled : (a p : ℕ) → 1 ≤ p → a ≤ a * p
le_scaled a p h = grind arith

mono_scaled : (a b p : ℕ) → a ≤ b → a * p ≤ b * p
mono_scaled a b p h = grind arith

min_scaled : (x p m : ℕ) → 1 ≤ p → min (min x m * p) m ≡ min (x * p) m
min_scaled x p m h = elim (dec_le x m) [
  | yes l ↦ let e : min x m ≡ x = omega arith in ap (λ t. min (t * p) m) e
  | no g ↦
      let e : min x m ≡ m = omega arith in
      let q : min (m * p) m ≡ min (x * p) m =
        omega (arith, le_scaled m p h, mono_scaled m x p (omega arith)) in
      ap (λ t. min (t * p) m) e ∙ q
]

-- Doubling that stops at the cap is the cap of the power.
backoff_closed :
    (n e : ℕ) → e ≤ max_model_retry_delay → backoff n e ≡ min (e * 2 ^ n) max_model_retry_delay
unfolding backoff
backoff_closed zero e h = omega arith
backoff_closed (suc n) e h =
    backoff_closed n (double e) (omega (arith, double-min e h))
    ∙ ap (λ d. min (d * 2 ^ n) max_model_retry_delay) (double-min e h)
    ∙ min_scaled (e * 2) (2 ^ n) max_model_retry_delay (pow_pos n)
    ∙ regroup
  where
    regroup : min (e * 2 * 2 ^ n) max_model_retry_delay ≡ min (e * 2 ^ suc n) max_model_retry_delay
    regroup = omega (arith, ap (λ t. e * t) (pow-suc 2 n))

-- What a provider's hint makes of the delay `d` that the policy asks for.
abbrev pub WithHint : Option Duration → Duration → Option Duration → Type 0
WithHint none d delay = delay ≡ some d
WithHint (some hint) d delay =
    (max_model_retry_delay < hint → delay ≡ none)
    × (hint ≤ max_model_retry_delay → delay ≡ some (max hint d))

-- The delay before retry `k` is the base delay times 2 ^ k, at most 30 seconds; a provider's hint
-- raises it to the hint, and a hint above 30 seconds means that there is no retry. The base delay
-- is at most 30 seconds.
pub delay_for_retry_closed :
    (p : RetryPolicySnapshot) (k : ℕ) (hint : Option Duration)
    → p.base_delay ≤ max_model_retry_delay
    → WithHint hint (min (p.base_delay * 2 ^ k) max_model_retry_delay) (delay_for_retry p k hint)
unfolding delay_for_retry
delay_for_retry_closed p k none h = ap some (backoff_closed k p.base_delay h)
delay_for_retry_closed p k (some hint) h =
    (λ g. ground arith, λ l. ground (arith, backoff_closed k p.base_delay h))
