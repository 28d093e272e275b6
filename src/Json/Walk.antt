-- ===== src/Json/Walk.antt =====
-- src/value.rs and src/model/replay.rs: the walk over a value accepts what is within its bounds.
use minicore_runtime.Base.{ℕ, suc, ◌≡◌, refl, ◌≤◌, ◌+◌, max, Result, ok, err, ap, ◌>>=◌, arith, ◌↔◌}
use minicore_runtime.Json.{
  JsonValue, Items, Members, json_null, json_bool, json_number, json_string, json_array,
  json_object, no_items, item, no_members, member, validate_shape, validate_items, validate_members,
  enter,
}

-- The number of nodes of a value, and how far they lie below its root.
unfoldable mutual
  pub nodes : JsonValue → ℕ
  nodes (json_array vs) = suc (nodes_items vs)
  nodes (json_object vs) = suc (nodes_members vs)
  nodes _ = 1

  pub nodes_items : Items → ℕ
  nodes_items no_items = 0
  nodes_items (item v vs) = nodes v + nodes_items vs

  pub nodes_members : Members → ℕ
  nodes_members no_members = 0
  nodes_members (member k v vs) = nodes v + nodes_members vs

unfoldable mutual
  pub height : JsonValue → ℕ
  height (json_array vs) = height_items vs
  height (json_object vs) = height_members vs
  height _ = 0

  pub height_items : Items → ℕ
  height_items no_items = 0
  height_items (item v vs) = max (suc (height v)) (height_items vs)

  pub height_members : Members → ℕ
  height_members no_members = 0
  height_members (member k v vs) = max (suc (height v)) (height_members vs)

bind_fits {ℓ κ} :
    {A : Type ℓ} {B : Type κ} {E : Type 0} (r : Result A E) (f : A → Result B E) (a : A) (b : B)
    → r ≡ ok a
    → f a ≡ ok b
    → r >>= f ≡ ok b
bind_fits r f a b e h = rw e h

bind_ok {ℓ κ} :
    {A : Type ℓ} {B : Type κ} {E : Type 0} (r : Result A E) (f : A → Result B E) (b : B)
    → r >>= f ≡ ok b
    → (a : A) × (r ≡ ok a) × (f a ≡ ok b)
bind_ok (ok a) f b h = (a, refl, h)
bind_ok (err e) f b h = ground arith

module _ {E : Type 0} (max_depth max_nodes : ℕ) (too_deep too_many_nodes : E) where
  enter_ok :
      (d n m : ℕ)
      → enter max_depth max_nodes too_deep too_many_nodes d n ≡ ok m
      → (m ≡ suc n) × (d ≤ max_depth) × (m ≤ max_nodes)
  enter_ok d n m h = ground arith

  enter_fits :
      (d n m : ℕ)
      → d ≤ max_depth
      → m ≤ max_nodes
      → m ≡ suc n
      → enter max_depth max_nodes too_deep too_many_nodes d n ≡ ok m
  enter_fits d n m a b e = ground arith

  -- An accepted value is within the bounds that are left, and its nodes are counted.
  abbrev Accepted : (depth bound n m more height' : ℕ) → Type 0
  Accepted depth bound n m more height' =
      (m ≡ n + more) × (depth + height' ≤ bound) × (m ≤ max_nodes)

  mutual
    unfolding validate_shape validate_items validate_members nodes nodes_items nodes_members height
        height_items height_members

    shape_ok :
        (v : JsonValue) (d n m : ℕ)
        → validate_shape max_depth max_nodes too_deep too_many_nodes v d n ≡ ok m
        → Accepted d max_depth n m (nodes v) (height v)
    shape_ok json_null d n m h = ground (arith, enter_ok d n m h)
    shape_ok (json_bool b) d n m h = ground (arith, enter_ok d n m h)
    shape_ok (json_number t) d n m h = ground (arith, enter_ok d n m h)
    shape_ok (json_string t) d n m h = ground (arith, enter_ok d n m h)
    shape_ok (json_array vs) d n m h =
        let (n', e, r) =
          bind_ok (enter max_depth max_nodes too_deep too_many_nodes d n)
            (validate_items max_depth max_nodes too_deep too_many_nodes vs (suc d)) m h in
        let (q, dd, nn) = enter_ok d n n' e in
        omega (arith, items_ok vs (suc d) n' m (omega (arith, dd)) nn r)
    shape_ok (json_object vs) d n m h =
        let (n', e, r) =
          bind_ok (enter max_depth max_nodes too_deep too_many_nodes d n)
            (validate_members max_depth max_nodes too_deep too_many_nodes vs (suc d)) m h in
        let (q, dd, nn) = enter_ok d n n' e in
        omega (arith, members_ok vs (suc d) n' m (omega (arith, dd)) nn r)

    items_ok :
        (vs : Items) (d n m : ℕ)
        → d ≤ suc max_depth
        → n ≤ max_nodes
        → validate_items max_depth max_nodes too_deep too_many_nodes vs d n ≡ ok m
        → Accepted d (suc max_depth) n m (nodes_items vs) (height_items vs)
    items_ok no_items d n m dd nn h = ground arith
    items_ok (item v vs) d n m dd nn h =
        let (n', e, r) =
          bind_ok (validate_shape max_depth max_nodes too_deep too_many_nodes v d n)
            (validate_items max_depth max_nodes too_deep too_many_nodes vs d) m h in
        let (q, a, b) = shape_ok v d n n' e in omega (arith, items_ok vs d n' m dd b r)

    members_ok :
        (vs : Members) (d n m : ℕ)
        → d ≤ suc max_depth
        → n ≤ max_nodes
        → validate_members max_depth max_nodes too_deep too_many_nodes vs d n ≡ ok m
        → Accepted d (suc max_depth) n m (nodes_members vs) (height_members vs)
    members_ok no_members d n m dd nn h = ground arith
    members_ok (member k v vs) d n m dd nn h =
        let (n', e, r) =
          bind_ok (validate_shape max_depth max_nodes too_deep too_many_nodes v d n)
            (validate_members max_depth max_nodes too_deep too_many_nodes vs d) m h in
        let (q, a, b) = shape_ok v d n n' e in omega (arith, members_ok vs d n' m dd b r)

  mutual
    unfolding validate_shape validate_items validate_members nodes nodes_items nodes_members height
        height_items height_members

    shape_fits :
        (v : JsonValue) (d n m : ℕ)
        → d + height v ≤ max_depth
        → m ≤ max_nodes
        → m ≡ n + nodes v
        → validate_shape max_depth max_nodes too_deep too_many_nodes v d n ≡ ok m
    shape_fits json_null d n m a b e = enter_fits d n m (omega arith) (omega arith) (omega arith)
    shape_fits (json_bool x) d n m a b e =
        enter_fits d n m (omega arith) (omega arith) (omega arith)
    shape_fits (json_number t) d n m a b e =
        enter_fits d n m (omega arith) (omega arith) (omega arith)
    shape_fits (json_string t) d n m a b e =
        enter_fits d n m (omega arith) (omega arith) (omega arith)
    shape_fits (json_array vs) d n m a b e =
        bind_fits (enter max_depth max_nodes too_deep too_many_nodes d n)
          (validate_items max_depth max_nodes too_deep too_many_nodes vs (suc d)) (suc n) m
          (enter_fits d n (suc n) (omega arith) (omega arith) refl)
          (items_fit vs (suc d) (suc n) m (omega arith) b (omega arith))
    shape_fits (json_object vs) d n m a b e =
        bind_fits (enter max_depth max_nodes too_deep too_many_nodes d n)
          (validate_members max_depth max_nodes too_deep too_many_nodes vs (suc d)) (suc n) m
          (enter_fits d n (suc n) (omega arith) (omega arith) refl)
          (members_fit vs (suc d) (suc n) m (omega arith) b (omega arith))

    items_fit :
        (vs : Items) (d n m : ℕ)
        → d + height_items vs ≤ suc max_depth
        → m ≤ max_nodes
        → m ≡ n + nodes_items vs
        → validate_items max_depth max_nodes too_deep too_many_nodes vs d n ≡ ok m
    items_fit no_items d n m a b e = ap ok (omega arith)
    items_fit (item v vs) d n m a b e =
        bind_fits (validate_shape max_depth max_nodes too_deep too_many_nodes v d n)
          (validate_items max_depth max_nodes too_deep too_many_nodes vs d) (n + nodes v) m
          (shape_fits v d n (n + nodes v) (omega arith) (omega arith) refl)
          (items_fit vs d (n + nodes v) m (omega arith) b (omega arith))

    members_fit :
        (vs : Members) (d n m : ℕ)
        → d + height_members vs ≤ suc max_depth
        → m ≤ max_nodes
        → m ≡ n + nodes_members vs
        → validate_members max_depth max_nodes too_deep too_many_nodes vs d n ≡ ok m
    members_fit no_members d n m a b e = ap ok (omega arith)
    members_fit (member k v vs) d n m a b e =
        bind_fits (validate_shape max_depth max_nodes too_deep too_many_nodes v d n)
          (validate_members max_depth max_nodes too_deep too_many_nodes vs d) (n + nodes v) m
          (shape_fits v d n (n + nodes v) (omega arith) (omega arith) refl)
          (members_fit vs d (n + nodes v) m (omega arith) b (omega arith))

  -- A value passes exactly if it is within the bounds, and the walk counts its nodes.
  pub validate_shape_iff :
      (v : JsonValue) (m : ℕ)
      → (validate_shape max_depth max_nodes too_deep too_many_nodes v 0 0 ≡ ok m)
        ↔ ((height v ≤ max_depth) × (nodes v ≤ max_nodes) × (m ≡ nodes v))
  validate_shape_iff v m = (
    λ h. let (q, a, b) = shape_ok v 0 0 m h in (omega arith, omega arith, omega arith),
    λ f. let (a, b, e) = f in shape_fits v 0 0 m (omega arith) (omega arith) (omega arith),
  )
