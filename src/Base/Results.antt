-- ===== src/Base/Results.antt =====
-- Rust's `Result` with `?` as a `do` block, and the saturating and checked additions.
use Prim.Native.Nat.{ℕ, ◌+◌, ◌^◌, ◌-◌}
use mathlib.Core.Path.{◌≡◌, refl}
use mathlib.Core.Logic.{◌⊎◌, inl, inr}
use mathlib.Core.Bool.{Bool, true, false}
use mathlib.Core.Option.{Option, none, some}
use minicore_runtime.Base.Tests.{ltb, if◌then◌else◌}

pub data Result {ℓ κ} (A : Type ℓ) (E : Type κ) : Type (ℓ ⊔ κ) where
  ok : A → Result A E
  err : E → Result A E

infixl 5 ◌>>=◌ ◌>>◌
abbrev pub ◌>>=◌ {ℓ κ μ} :
    {A : Type ℓ} {B : Type κ} {E : Type μ} → Result A E → (A → Result B E) → Result B E
ok a >>= f = f a
err e >>= f = err e

abbrev pub ◌>>◌ {ℓ μ} : {B : Type ℓ} {E : Type μ} → Result (Unit {0}) E → Result B E → Result B E
m >> k = m >>= λ _. k

-- `if !b { return Err(e) }`.
abbrev pub guard {μ} : {E : Type μ} → Bool → E → Result (Unit {0}) E
guard true e = ok tt
guard false e = err e

abbrev pub is_ok {ℓ μ} : {A : Type ℓ} {E : Type μ} → Result A E → Bool
is_ok (ok a) = true
is_ok (err e) = false

-- `map_err`.
abbrev pub map_err {ℓ μ ν} :
    {A : Type ℓ} {E : Type μ} {F : Type ν} → (E → F) → Result A E → Result A F
map_err f (ok a) = ok a
map_err f (err e) = err (f e)

abbrev pub u64_mod : ℕ
u64_mod = 2 ^ 64

abbrev pub u32_mod : ℕ
u32_mod = 2 ^ 32

-- `saturating_add` on integers below `modulus`.
abbrev pub saturating_add : ℕ → ℕ → ℕ → ℕ
saturating_add modulus a b = if ltb (a + b) modulus then a + b else modulus - 1

-- `checked_add` on integers below `modulus`.
abbrev pub checked_add : ℕ → ℕ → ℕ → Option ℕ
checked_add modulus a b = if ltb (a + b) modulus then some (a + b) else none

-- To split on a computed result and keep the equation.
pub Result-cases {ℓ μ} :
    {A : Type ℓ} {E : Type μ} (r : Result A E) → ((a : A) × (r ≡ ok a)) ⊎ ((e : E) × (r ≡ err e))
Result-cases (ok a) = inl (a, refl)
Result-cases (err e) = inr (e, refl)

-- What holds of a success.
abbrev pub Ok {ℓ κ μ} : {A : Type ℓ} {E : Type μ} → (A → Type κ) → Result A E → Type κ
Ok P (ok a) = P a
Ok P (err e) = Unit

pub Ok-bind {ℓ κ κ₂ μ ν} :
    {A : Type ℓ} {B : Type κ} {E : Type μ} (P : A → Type κ₂) (Q : B → Type ν) (r : Result A E)
    (f : A → Result B E)
    → Ok P r
    → ((a : A) → P a → Ok Q (f a))
    → Ok Q (r >>= f)
Ok-bind P Q (ok a) f w next = next a w
Ok-bind P Q (err e) f w next = tt

pub Ok-intro {ℓ κ μ} :
    {A : Type ℓ} {E : Type μ} (P : A → Type κ) (r : Result A E) → ((a : A) → P a) → Ok P r
Ok-intro P (ok a) p = p a
Ok-intro P (err e) p = tt

pub Ok-map {ℓ κ κ₂ μ} :
    {A : Type ℓ} {E : Type μ} (P : A → Type κ) (Q : A → Type κ₂) (r : Result A E)
    → ((a : A) → P a → Q a)
    → Ok P r
    → Ok Q r
Ok-map P Q (ok a) f w = f a w
Ok-map P Q (err e) f w = tt
