-- ===== src/ToolSet.antt =====
-- src/tools/set.rs: the set of tools that a builder makes. A `BTreeMap` is the list of its entries in
-- the order of their keys, and a tool is a parameter.
pub mod Entries
pub mod Frozen
pub mod Built
mod Examples
use minicore_runtime.Base.{
  Bool, List, [], ◌∷◌, ◌++◌, Option, none, some, is_some, Result, ok, err, if◌then◌else◌,
}
use minicore_runtime.Ids.{Bytes, bytes_eq}
use minicore_runtime.Execution.{ToolSpec}
use minicore_runtime.Request.{bytes_lt}

pub data ToolSetError : Type 0 where
  duplicate_tool panicked : ToolSetError

abbrev pub BTreeMap {ℓ} : Type ℓ → Type ℓ
BTreeMap V = List (Bytes × V)

-- BTreeMap::get
unfoldable pub find {ℓ} : {V : Type ℓ} → Bytes → BTreeMap V → Option V
find name [] = none
find name ((key, value) ∷ entries) =
    let rest = find name entries in if bytes_eq name key then some value else rest

abbrev pub contains_key {ℓ} : {V : Type ℓ} → Bytes → BTreeMap V → Bool
contains_key name entries = is_some (find name entries)

-- BTreeMap::insert
unfoldable pub insert {ℓ} : {V : Type ℓ} → Bytes → V → BTreeMap V → BTreeMap V
insert name value [] = (name, value) ∷ []
insert name value ((key, old) ∷ entries) =
    let rest = insert name value entries in
    if bytes_lt name key
    then (name, value) ∷ (key, old) ∷ entries
    else if bytes_eq name key
    then (name, value) ∷ entries
    else (key, old) ∷ rest

module _ {ℓ} (Tool : Type ℓ) where
  pub record RegisteredTool : Type ℓ where
    pub tool : Tool
    pub spec : ToolSpec

  pub record EnabledTool : Type ℓ where
    pub implementation : Tool
    pub spec : ToolSpec

  pub record ToolSetBuilder : Type ℓ where
    pub tools : BTreeMap RegisteredTool
    pub error : Option ToolSetError

  pub record ToolSet : Type ℓ where
    pub specs : List ToolSpec
    pub enabled : BTreeMap EnabledTool

  -- A tool, and the specification that it gives; none if it panics.
  abbrev pub Offer : Type ℓ
  Offer = Tool × Option ToolSpec

module _ {ℓ} {Tool : Type ℓ} where
  -- ToolSet::builder
  abbrev pub builder : ToolSetBuilder Tool
  builder = record { tools = []; error = none }

  abbrev pub register_spec : ToolSetBuilder Tool → Offer Tool → ToolSetBuilder Tool
  register_spec b (tool, none) = record b { error = some panicked }
  register_spec b (tool, some spec) =
      if contains_key spec.name b.tools
      then record b { error = some duplicate_tool }
      else record b { tools = insert spec.name (record { tool = tool; spec = spec }) b.tools }

  unfoldable pub register_arc : ToolSetBuilder Tool → Offer Tool → ToolSetBuilder Tool
  unfolding find insert
  register_arc b offer = if is_some b.error then b else register_spec b offer

  -- Calls of `register`, one after the other.
  unfoldable pub register_all : ToolSetBuilder Tool → List (Offer Tool) → ToolSetBuilder Tool
  unfolding register_arc
  register_all b [] = b
  register_all b (offer ∷ offers) = register_all (register_arc b offer) offers

  -- One turn of the loop of `build`.
  abbrev pub freeze : ToolSet Tool → Bytes × RegisteredTool Tool → ToolSet Tool
  freeze set (name, registered) = record {
    specs = set.specs ++ (registered.spec ∷ []);
    enabled =
        insert name (record { implementation = registered.tool; spec = registered.spec })
          set.enabled;
  }

  unfoldable pub freeze_all : ToolSet Tool → BTreeMap (RegisteredTool Tool) → ToolSet Tool
  unfolding insert
  freeze_all set [] = set
  freeze_all set (entry ∷ entries) = freeze_all (freeze set entry) entries

  abbrev pub built :
      Option ToolSetError → BTreeMap (RegisteredTool Tool) → Result (ToolSet Tool) ToolSetError
  built (some error) tools = err error
  built none tools = ok (freeze_all (record { specs = []; enabled = [] }) tools)

  unfoldable pub build : ToolSetBuilder Tool → Result (ToolSet Tool) ToolSetError
  unfolding freeze_all
  build b = built b.error b.tools

  abbrev pub implementation_of : Option (EnabledTool Tool) → Option Tool
  implementation_of none = none
  implementation_of (some entry) = some entry.implementation

  -- ToolSet::get
  unfoldable pub get : ToolSet Tool → Bytes → Option Tool
  unfolding find
  get set name = implementation_of (find name set.enabled)

  -- ToolSet::contains
  unfoldable pub contains : ToolSet Tool → Bytes → Bool
  unfolding find
  contains set name = contains_key name set.enabled
