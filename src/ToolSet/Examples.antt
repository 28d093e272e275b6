-- ===== src/ToolSet/Examples.antt =====
-- A concrete instance of the theorem on the set of a builder.
use minicore_runtime.Base.{ℕ, ◌≡◌, refl, false, List, [], ◌∷◌, some, ok, err}
use minicore_runtime.Ids.{Bytes, bytes_eq}
use minicore_runtime.Json.{json_object, no_members}
use minicore_runtime.Execution.{ToolSpec}
use minicore_runtime.Request.{bytes_lt}
use minicore_runtime.ToolSet.{
  Offer, ToolSet, duplicate_tool, register_all, register_arc, builder, build, get, find, insert,
  freeze_all, contains,
}
use minicore_runtime.ToolSet.Built.{Describes, build-Describes}

abbrev named : Bytes → ToolSpec
named name = record { name = name; description = name; input_schema = json_object no_members }

abbrev offers : List (Offer ℕ)
offers = (1, some (named (b'b' ∷ []))) ∷ (2, some (named (b'a' ∷ []))) ∷ []

abbrev set : ToolSet ℕ
set = record {
  specs = named (b'a' ∷ []) ∷ named (b'b' ∷ []) ∷ [];
  enabled =
      (b'a' ∷ [], record { implementation = 2; spec = named (b'a' ∷ []) })
      ∷ (b'b' ∷ [], record { implementation = 1; spec = named (b'b' ∷ []) })
      ∷ [];
}

both_taken : build (register_all builder offers) ≡ ok set
unfolding build register_all register_arc insert find bytes_eq bytes_lt freeze_all
both_taken = refl

build-Describes_example : Describes offers (b'b' ∷ []) (build (register_all builder offers))
build-Describes_example = build-Describes offers (b'b' ∷ [])

set_gets : get set (b'b' ∷ []) ≡ some 1
unfolding get find bytes_eq
set_gets = refl

set_lacks : contains set (b'c' ∷ []) ≡ false
unfolding contains find bytes_eq
set_lacks = refl

twice_refused :
    build (register_all builder ((3, some (named (b'a' ∷ []))) ∷ offers)) ≡ err duplicate_tool
unfolding build register_all register_arc insert find bytes_eq bytes_lt freeze_all
twice_refused = refl
