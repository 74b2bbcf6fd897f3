-- ===== src/Tests/Schemas.antt =====
-- A schema with the keyword `unique`.
use governor_api.Prelude.{◌≡◌, ◌↔◌, refl, [], ◌∷◌}
use governor_api.Hierarchy.{contains}
use governor_api.Unique.{
  Json, text, array, object, no_elements, element, Fields, no_fields, field, get, strings,
  unique_types, compile_unique_constraint, compile,
}
use governor_api.Unique.Compiled.{IsConstraint, compile_iff}

abbrev names : Json
names = array (element (text "name") no_elements)

abbrev schema : Fields
schema = field "unique" names (
    field "required" names (
      field "properties"
        (object (field "name" (object (field "type" (text "string") no_fields)) no_fields))
        no_fields))

compile_iff_example :
    ((compile schema ≡ unique_types (("name", "string") ∷ []))
      ↔ IsConstraint schema (("name", "string") ∷ []))
compile_iff_example = compile_iff schema (("name", "string") ∷ [])

compiled : compile schema ≡ unique_types (("name", "string") ∷ [])
unfolding compile compile_unique_constraint strings get contains
compiled = refl
