-- ===== src/ToolSet/Built.antt =====
-- src/tools/set.rs, register_arc and build: the set that a builder makes of the tools it is given.
use minicore_runtime.Base.{
  ◌≡◌, refl, sym, ap, subst, ◌∙◌, Bool, true, false, List, [], ◌∷◌, ◌++◌, append_assoc, append-nil,
  map, map-append, All, Option, none, some, is_some, Result, ok, err, if◌then◌else◌, if_cases,
  arith, Bool-cases, inl, inr,
}
use mathlib.Core.List.{Nodup, Nodup-cons, Perm, perm_append_singleton}
use mathlib.Core.List.Perm
use mathlib.Core.List.Pairwise
use minicore_runtime.Ids.{Bytes, bytes_eq}
use minicore_runtime.Ids.Hex.{bytes_eq_iff}
use minicore_runtime.Request.{ascending}
use minicore_runtime.Message.{contains_id}
use minicore_runtime.Exchange.Complete.{not-mem_of_absent}
use minicore_runtime.ToolSet.{
  ToolSetError, duplicate_tool, panicked, BTreeMap, find, insert, RegisteredTool, ToolSetBuilder,
  ToolSet, Offer, builder, register_arc, register_all, built, build, get,
}
use minicore_runtime.ToolSet.Frozen.{
  tool_of, Keyed, freeze_all_lem, find-enabled, Sorted-ascending, nothing-Behind,
}
use minicore_runtime.ToolSet.Entries.{Sorted, find-insert, insert-All, insert-Sorted, insert-Perm}

module _ {ℓ} {Tool : Type ℓ} where
  abbrev pub offered : RegisteredTool Tool → Offer Tool
  offered r = (r.tool, some r.spec)

  abbrev pub name_of : RegisteredTool Tool → Bytes
  name_of r = r.spec.name

  -- The tool that was registered with the name.
  abbrev pub registered_as : Bytes → List (RegisteredTool Tool) → Option Tool
  registered_as name [] = none
  registered_as name (r ∷ rs) =
      if bytes_eq name r.spec.name then some r.tool else registered_as name rs

  -- What is wrong with an offer after the tools that were taken.
  abbrev pub Faulty : List (RegisteredTool Tool) → Offer Tool → ToolSetError → Type 0
  Faulty before (tool, none) e = e ≡ panicked
  Faulty before (tool, some spec) e =
      (e ≡ duplicate_tool) × (contains_id spec.name (map name_of before) ≡ true)

  -- A set is made of offers that all have a specification, with distinct names: it holds these, in the
  -- order of the names, and has the tool for each name. An error is that of the first offer that is
  -- wrong.
  abbrev pub Describes : List (Offer Tool) → Bytes → Result (ToolSet Tool) ToolSetError → Type ℓ
  Describes offers name (ok set) =
      (taken : List (RegisteredTool Tool)) × (offers ≡ map offered taken)
      × Nodup (map name_of taken)
      × Perm set.specs (map (λ r. r.spec) taken)
      × (ascending set.specs ≡ true)
      × (get set name ≡ registered_as name taken)
  Describes offers name (err e) =
      (before : List (RegisteredTool Tool)) × (bad : Offer Tool) × (after : List (Offer Tool))
      × (offers ≡ map offered before ++ (bad ∷ after))
      × Nodup (map name_of before)
      × Faulty before bad e

  abbrev entry : RegisteredTool Tool → Bytes × RegisteredTool Tool
  entry r = (r.spec.name, r)

  -- The map holds what was taken.
  record Holds (taken : List (RegisteredTool Tool)) (tools : BTreeMap (RegisteredTool Tool))
      : Type ℓ where
    distinct : Nodup (map name_of taken)
    same : Perm tools (map entry taken)
    sorted : Sorted tools
    keyed : All Keyed tools
    finds : (name : Bytes) → tool_of (find name tools) ≡ registered_as name taken

  registered_as-snoc :
      (name : Bytes) (taken : List (RegisteredTool Tool)) (r : RegisteredTool Tool)
      → is_some (registered_as r.spec.name taken) ≡ false
      → registered_as name (taken ++ (r ∷ []))
        ≡ (if bytes_eq name r.spec.name then some r.tool else registered_as name taken)
  registered_as-snoc name [] r h = refl
  registered_as-snoc name (s ∷ taken) r h = elim (Bool-cases (bytes_eq r.spec.name s.spec.name)) [
    | inl t ↦ absurd (ground (arith, h, t))
    | inr n ↦ elim (Bool-cases (bytes_eq name s.spec.name)) [
      | inr f ↦ rw f (registered_as-snoc name taken r (rw n at h))
      | inl t ↦ elim (Bool-cases (bytes_eq name r.spec.name)) [
        | inl u ↦ absurd (
            cc (
              (bytes_eq_iff r.spec.name s.spec.name).1
                  (sym ((bytes_eq_iff name r.spec.name).0 u) ∙ (bytes_eq_iff name s.spec.name).0 t),
              n,
            ))
        | inr u ↦ rw (t, u) refl
      ]
    ]
  ]

  registered_as-contains :
      (name : Bytes) (taken : List (RegisteredTool Tool))
      → is_some (registered_as name taken) ≡ contains_id name (map name_of taken)
  registered_as-contains name [] = refl
  registered_as-contains name (r ∷ taken) = ground (arith, registered_as-contains name taken)

  tool_of-some : (o : Option (RegisteredTool Tool)) → is_some (tool_of o) ≡ is_some o
  tool_of-some none = refl
  tool_of-some (some r) = refl

  tool_of-if :
      (b : Bool) (r : RegisteredTool Tool) (o : Option (RegisteredTool Tool))
      → tool_of (if b then some r else o) ≡ (if b then some r.tool else tool_of o)
  tool_of-if true r o = refl
  tool_of-if false r o = refl

  insert-Holds :
      (taken : List (RegisteredTool Tool)) (tools : BTreeMap (RegisteredTool Tool))
      (r : RegisteredTool Tool)
      → Holds taken tools
      → is_some (find r.spec.name tools) ≡ false
      → Holds (taken ++ (r ∷ [])) (insert r.spec.name r tools)
  insert-Holds taken tools r h n =
      let new : is_some (registered_as r.spec.name taken) ≡ false =
        ap is_some (sym (h.finds r.spec.name)) ∙ tool_of-some (find r.spec.name tools) ∙ n in
      record {
        distinct = subst Nodup (sym (map-append name_of taken (r ∷ []))) (
            Perm.nodup (Perm.symm (perm_append_singleton r.spec.name (map name_of taken))) (
              Nodup-cons.1 (
                not-mem_of_absent r.spec.name (map name_of taken)
                    (sym (registered_as-contains r.spec.name taken) ∙ new),
                h.distinct,
              )));
        same = Perm.trans (insert-Perm r.spec.name r tools n) (
            Perm.trans (Perm.cons (entry r) h.same) (
              subst (Perm (entry r ∷ map entry taken)) (sym (map-append entry taken (r ∷ [])))
                (Perm.symm (perm_append_singleton (entry r) (map entry taken)))));
        sorted = insert-Sorted r.spec.name r tools h.sorted;
        keyed = insert-All Keyed r.spec.name r tools refl h.keyed;
        finds = λ name.
            ap tool_of (find-insert name r.spec.name r tools)
            ∙ tool_of-if (bytes_eq name r.spec.name) r (find name tools)
            ∙ ap (λ o. if bytes_eq name r.spec.name then some r.tool else o) (h.finds name)
            ∙ sym (registered_as-snoc name taken r new);
      }

  specs-entries :
      (taken : List (RegisteredTool Tool))
      → map (λ (e : Bytes × RegisteredTool Tool). e.1.spec) (map entry taken)
        ≡ map (λ r. r.spec) taken
  specs-entries [] = refl
  specs-entries (r ∷ taken) = ap (λ s. r.spec ∷ s) (specs-entries taken)

  built-Describes :
      (taken : List (RegisteredTool Tool)) (tools : BTreeMap (RegisteredTool Tool)) (name : Bytes)
      → Holds taken tools
      → Describes (map offered taken) name (built none tools)
  unfolding get
  built-Describes taken tools name h =
      rw
        (freeze_all_lem (record { specs = []; enabled = [] }) tools (nothing-Behind tools) h.sorted)
        (
          taken,
          refl,
          h.distinct,
          subst (Perm (map (λ e. e.1.spec) tools)) (specs-entries taken)
              (Perm.map (λ e. e.1.spec) h.same),
          Sorted-ascending tools h.sorted h.keyed,
          find-enabled name tools ∙ h.finds name,
        )

  -- A builder with an error keeps it.
  register_all-kept :
      (b : ToolSetBuilder Tool) (offers : List (Offer Tool))
      → is_some b.error ≡ true
      → register_all b offers ≡ b
  unfolding register_all register_arc
  register_all-kept b [] h = refl
  register_all-kept b (offer ∷ offers) h = rw h (register_all-kept b offers h)

  register_all-Describes :
      (whole : List (Offer Tool)) (name : Bytes) (taken : List (RegisteredTool Tool))
      (tools : BTreeMap (RegisteredTool Tool)) (offers : List (Offer Tool))
      → Holds taken tools
      → whole ≡ map offered taken ++ offers
      → Describes whole name (build (register_all (record { tools = tools; error = none }) offers))
  unfolding register_all register_arc build
  register_all-Describes whole name taken tools [] h e =
      subst (λ w. Describes w name (built none tools)) (sym (e ∙ append-nil (map offered taken)))
        (built-Describes taken tools name h)
  register_all-Describes whole name taken tools ((tool, none) ∷ offers) h e =
      rw (register_all-kept (record { tools = tools; error = some panicked }) offers refl)
        (taken, (tool, none), offers, e, h.distinct, refl)
  register_all-Describes whole name taken tools ((tool, some spec) ∷ offers) h e =
      let r : RegisteredTool Tool = record { tool = tool; spec = spec } in
      if_cases (λ b. Describes whole name (build (register_all b offers)))
        (is_some (find spec.name tools)) {x = record { tools = tools; error = some duplicate_tool }}
        {y = record { tools = insert spec.name r tools; error = none }}
        (λ t.
          rw (register_all-kept (record { tools = tools; error = some duplicate_tool }) offers refl)
            (
              taken,
              (tool, some spec),
              offers,
              e,
              h.distinct,
              (
                refl,
                sym (registered_as-contains spec.name taken)
                    ∙ ap is_some (sym (h.finds spec.name))
                    ∙ tool_of-some (find spec.name tools)
                    ∙ t,
              ),
            ))
        (λ f.
          register_all-Describes whole name (taken ++ (r ∷ [])) (insert spec.name r tools) offers
            (insert-Holds taken tools r h f)
            (e
              ∙ sym (append_assoc (map offered taken) ((tool, some spec) ∷ []) offers)
              ∙ ap (λ l. l ++ offers) (sym (map-append offered taken (r ∷ [])))))

  -- The set that a builder makes of any offers of tools: if all give a specification, with distinct
  -- names, it has exactly their specifications, in the ascending order of the names, and for each name
  -- the tool that was registered with it. Otherwise the error is that of the first offer that is wrong:
  -- it panics, or its name was already registered.
  pub build-Describes :
      (offers : List (Offer Tool)) (name : Bytes)
      → Describes offers name (build (register_all builder offers))
  unfolding find
  build-Describes offers name =
      register_all-Describes offers name [] [] offers
        (record {
          distinct = Pairwise.nil;
          same = Perm.rfl;
          sorted = tt;
          keyed = tt;
          finds = λ n. refl;
        })
        refl
