-- ===== src/ToolSet/Entries.antt =====
-- The entries of a map: their order, and what a lookup finds after an insertion.
use minicore_runtime.Base.{
  ◌⊎◌, ◌≡◌, refl, sym, ap, subst, ◌∙◌, Bool, true, false, [], ◌∷◌, ◌++◌, All, Option, some, is_some,
  if◌then◌else◌, if_cases, arith, Bool-cases, inl, inr,
}
use mathlib.Core.List.{Perm}
use mathlib.Core.List.Perm
use minicore_runtime.Ids.{Bytes, bytes_eq}
use minicore_runtime.Ids.Hex.{bytes_eq_iff}
use minicore_runtime.Request.{bytes_lt}
use minicore_runtime.ToolSet.{BTreeMap, find, insert}

pub bytes_lt_irrefl : (a : Bytes) → bytes_lt a a ≡ false
unfolding bytes_lt
bytes_lt_irrefl [] = refl
bytes_lt_irrefl (x ∷ a) = ground (arith, bytes_lt_irrefl a)

pub bytes_lt_trans :
    (a b c : Bytes) → bytes_lt a b ≡ true → bytes_lt b c ≡ true → bytes_lt a c ≡ true
unfolding bytes_lt
bytes_lt_trans [] [] c h k = cc
bytes_lt_trans [] (y ∷ b) [] h k = cc
bytes_lt_trans [] (y ∷ b) (z ∷ c) h k = refl
bytes_lt_trans (x ∷ a) [] c h k = cc
bytes_lt_trans (x ∷ a) (y ∷ b) [] h k = cc
bytes_lt_trans (x ∷ a) (y ∷ b) (z ∷ c) h k = ground (arith, bytes_lt_trans a b c)

-- Of two names that differ, one is before the other.
pub bytes_lt_total :
    (a b : Bytes) → bytes_lt a b ≡ false → bytes_eq a b ≡ false → bytes_lt b a ≡ true
unfolding bytes_lt bytes_eq
bytes_lt_total [] [] h k = cc
bytes_lt_total [] (y ∷ b) h k = cc
bytes_lt_total (x ∷ a) [] h k = refl
bytes_lt_total (x ∷ a) (y ∷ b) h k = ground (arith, bytes_lt_total a b)

abbrev pub Sorted {ℓ} : {V : Type ℓ} → BTreeMap V → Type 0
Sorted [] = Unit
Sorted ((key, value) ∷ entries) = All (λ e. bytes_lt key e.0 ≡ true) entries × Sorted entries

module _ {ℓ} {V : Type ℓ} where
  pub find-insert :
      (name key : Bytes) (value : V) (entries : BTreeMap V)
      → find name (insert key value entries)
        ≡ (if bytes_eq name key then some value else find name entries)
  unfolding find insert
  find-insert name key value [] = refl
  find-insert name key value ((k, old) ∷ entries) =
      if_cases
        (λ e.
          find name e ≡ (if bytes_eq name key then some value else find name ((k, old) ∷ entries)))
        (bytes_lt key k) (λ t. refl)
        (λ f.
          if_cases
            (λ e.
              find name e
              ≡ (if bytes_eq name key then some value else find name ((k, old) ∷ entries)))
            (bytes_eq key k) (λ t. rw ((bytes_eq_iff key k).0 t) (same (bytes_eq name k)))
            (λ g. other (Bool-cases (bytes_eq name k)) (find-insert name key value entries) g))
    where
      same :
          (b : Bool)
          → ◌≡◌ {A = Option V}
              (if b then some value else find name entries)
              (if b then some value else (if b then some old else find name entries))
      same true = refl
      same false = refl

      other :
          (bytes_eq name k ≡ true) ⊎ (bytes_eq name k ≡ false)
          → find name (insert key value entries)
            ≡ (if bytes_eq name key then some value else find name entries)
          → bytes_eq key k ≡ false
          → ◌≡◌ {A = Option V}
              (if bytes_eq name k then some old else find name (insert key value entries))
              (if bytes_eq name key
                then some value
                else (if bytes_eq name k then some old else find name entries))
      other (inl t) h g = elim (Bool-cases (bytes_eq name key)) [
        | inl u ↦ absurd (
            cc (
              (bytes_eq_iff key k).1
                  (sym ((bytes_eq_iff name key).0 u) ∙ (bytes_eq_iff name k).0 t),
              g,
            ))
        | inr u ↦ rw (t, u) refl
      ]
      other (inr f) h g = rw f h

  pub insert-All {κ} :
      (P : Bytes × V → Type κ) (key : Bytes) (value : V) (entries : BTreeMap V)
      → P (key, value)
      → All P entries
      → All P (insert key value entries)
  unfolding insert
  insert-All P key value [] p h = (p, tt)
  insert-All P key value ((k, old) ∷ entries) p h =
      if_cases (All P) (bytes_lt key k) (λ t. (p, h))
        (λ f.
          if_cases (All P) (bytes_eq key k) (λ t. (p, h.1))
            (λ g. (h.0, insert-All P key value entries p h.1)))

  All-below :
      (a b : Bytes) (entries : BTreeMap V)
      → bytes_lt a b ≡ true
      → All (λ e. bytes_lt b e.0 ≡ true) entries
      → All (λ e. bytes_lt a e.0 ≡ true) entries
  All-below a b [] h w = tt
  All-below a b ((k, v) ∷ entries) h (x, w) = (bytes_lt_trans a b k h x, All-below a b entries h w)

  pub insert-Sorted :
      (key : Bytes) (value : V) (entries : BTreeMap V)
      → Sorted entries
      → Sorted (insert key value entries)
  unfolding insert
  insert-Sorted key value [] s = (tt, tt)
  insert-Sorted key value ((k, old) ∷ entries) s =
      if_cases Sorted (bytes_lt key k) (λ t. ((t, All-below key k entries t s.0), s))
        (λ f.
          if_cases Sorted (bytes_eq key k)
            (λ t. (
              subst (λ n. All (λ e. bytes_lt n e.0 ≡ true) entries) (sym ((bytes_eq_iff key k).0 t))
                  s.0,
              s.1,
            ))
            (λ g. (
              insert-All (λ e. bytes_lt k e.0 ≡ true) key value entries (bytes_lt_total key k f g)
                  s.0,
              insert-Sorted key value entries s.1,
            )))

  pub insert-Perm :
      (key : Bytes) (value : V) (entries : BTreeMap V)
      → is_some (find key entries) ≡ false
      → Perm (insert key value entries) ((key, value) ∷ entries)
  unfolding insert find
  insert-Perm key value [] h = Perm.rfl
  insert-Perm key value ((k, old) ∷ entries) h =
      if_cases (λ x. Perm x ((key, value) ∷ (k, old) ∷ entries)) (bytes_lt key k) (λ t. Perm.rfl)
        (λ f.
          if_cases (λ x. Perm x ((key, value) ∷ (k, old) ∷ entries)) (bytes_eq key k)
            (λ t. absurd (ground (arith, h, t)))
            (λ g.
              Perm.trans (Perm.cons (k, old) (insert-Perm key value entries (rw g at h)))
                (Perm.swap (key, value) (k, old) entries)))

  -- An entry behind all others is appended.
  pub insert-last :
      (key : Bytes) (value : V) (entries : BTreeMap V)
      → All (λ e. bytes_lt e.0 key ≡ true) entries
      → insert key value entries ≡ entries ++ ((key, value) ∷ [])
  unfolding insert
  insert-last key value [] h = refl
  insert-last key value ((k, old) ∷ entries) (b, h) =
      if_cases (λ x. x ≡ (k, old) ∷ (entries ++ ((key, value) ∷ []))) (bytes_lt key k)
        (λ t. absurd (cc (bytes_lt_trans k key k b t, bytes_lt_irrefl k)))
        (λ f.
          if_cases (λ x. x ≡ (k, old) ∷ (entries ++ ((key, value) ∷ []))) (bytes_eq key k)
            (λ t. absurd (cc ((bytes_eq_iff key k).0 t, b, bytes_lt_irrefl k)))
            (λ g. ap (λ x. (k, old) ∷ x) (insert-last key value entries h)))
