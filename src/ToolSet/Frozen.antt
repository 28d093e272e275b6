-- ===== src/ToolSet/Frozen.antt =====
-- src/tools/set.rs, build: the loop over the registered tools, which stand in the order of their names.
use minicore_runtime.Base.{
  ◌≡◌, refl, sym, ap, ◌∙◌, true, [], ◌∷◌, ◌++◌, append_assoc, append-nil, map, All, Option, none,
  some, All-append, Bool-cases, inl, inr,
}
use minicore_runtime.Ids.{Bytes, bytes_eq}
use minicore_runtime.Request.{bytes_lt, ascending}
use minicore_runtime.ToolSet.{
  BTreeMap, find, RegisteredTool, EnabledTool, ToolSet, freeze, freeze_all, implementation_of,
}
use minicore_runtime.ToolSet.Entries.{Sorted, insert-last}

abbrev pub enabled_entry {ℓ} :
    {Tool : Type ℓ} → Bytes × RegisteredTool Tool → Bytes × EnabledTool Tool
enabled_entry (name, registered) =
    (name, record { implementation = registered.tool; spec = registered.spec })

module _ {ℓ} {Tool : Type ℓ} where
  abbrev pub tool_of : Option (RegisteredTool Tool) → Option Tool
  tool_of none = none
  tool_of (some r) = some r.tool

  abbrev pub Keyed : Bytes × RegisteredTool Tool → Type 0
  Keyed e = e.0 ≡ e.1.spec.name

  -- Every name of the entries is behind the names that the set already has.
  abbrev pub Behind : BTreeMap (EnabledTool Tool) → BTreeMap (RegisteredTool Tool) → Type 0
  Behind enabled = All (λ f. All (λ e. bytes_lt e.0 f.0 ≡ true) enabled)

  Behind-snoc :
      (enabled : BTreeMap (EnabledTool Tool)) (entries : BTreeMap (RegisteredTool Tool))
      (e : Bytes × EnabledTool Tool)
      → Behind enabled entries
      → All (λ f. bytes_lt e.0 f.0 ≡ true) entries
      → Behind (enabled ++ (e ∷ [])) entries
  Behind-snoc enabled [] e b h = tt
  Behind-snoc enabled (f ∷ entries) e b h = (
    All-append (λ e. bytes_lt e.0 f.0 ≡ true) enabled (e ∷ []) b.0 (h.0, tt),
    Behind-snoc enabled entries e b.1 h.1,
  )

  pub freeze_all_lem :
      (set : ToolSet Tool) (entries : BTreeMap (RegisteredTool Tool))
      → Behind set.enabled entries
      → Sorted entries
      → freeze_all set entries ≡ record {
        specs = set.specs ++ map (λ e. e.1.spec) entries;
        enabled = set.enabled ++ map enabled_entry entries;
      }
  unfolding freeze_all
  freeze_all_lem set [] b s =
      λ i. record { specs = sym (append-nil set.specs) i; enabled = sym (append-nil set.enabled) i }
  freeze_all_lem set ((name, r) ∷ entries) b s =
      let last = enabled_entry (name, r) in
      let frozen : freeze set (name, r)
          ≡ record { specs = set.specs ++ (r.spec ∷ []); enabled = set.enabled ++ (last ∷ []) } =
        λ i. record {
          specs = set.specs ++ (r.spec ∷ []);
          enabled = insert-last name last.1 set.enabled b.0 i;
        } in
      ap (λ t. freeze_all t entries) frozen
      ∙ freeze_all_lem
          (record { specs = set.specs ++ (r.spec ∷ []); enabled = set.enabled ++ (last ∷ []) })
          entries (Behind-snoc set.enabled entries last b.1 s.0) s.1
      ∙ (λ i. record {
        specs = append_assoc set.specs (r.spec ∷ []) (map (λ e. e.1.spec) entries) i;
        enabled = append_assoc set.enabled (last ∷ []) (map enabled_entry entries) i;
      })

  pub find-enabled :
      (name : Bytes) (entries : BTreeMap (RegisteredTool Tool))
      → implementation_of (find name (map enabled_entry entries)) ≡ tool_of (find name entries)
  unfolding find
  find-enabled name [] = refl
  find-enabled name ((key, r) ∷ entries) = elim (Bool-cases (bytes_eq name key)) [
    | inl t ↦ rw t refl
    | inr f ↦ rw f (find-enabled name entries)
  ]

  pub Sorted-ascending :
      (entries : BTreeMap (RegisteredTool Tool))
      → Sorted entries
      → All Keyed entries
      → ascending (map (λ e. e.1.spec) entries) ≡ true
  unfolding ascending
  Sorted-ascending [] s k = refl
  Sorted-ascending (e ∷ []) s k = refl
  Sorted-ascending (e ∷ f ∷ entries) s k =
      rw (sym k.0, sym k.1.0, s.0.0) (Sorted-ascending (f ∷ entries) s.1 k.1)

  pub nothing-Behind : (entries : BTreeMap (RegisteredTool Tool)) → Behind [] entries
  nothing-Behind [] = tt
  nothing-Behind (e ∷ entries) = (tt, nothing-Behind entries)
