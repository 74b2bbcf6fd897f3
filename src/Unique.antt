-- ===== src/Unique.antt =====
-- pkg/jsonschema/unique_constraint.go: the compiler of the keyword `unique` of a JSON schema, which
-- lists the fields whose values together are unique among the resources of a definition.
pub mod Compiled
use governor_api.Prelude.{
  ℕ, String, Bool, true, false, not, ◌||◌, Option, none, some, List, [], ◌∷◌, ◌==◌, if◌then◌else◌,
}
use governor_api.Hierarchy.{contains}

-- The values that encoding/json decodes to.
mutual
  pub data Json : Type 0 where
    null : Json
    boolean : Bool → Json
    number : ℕ → Json
    text : String → Json
    array : Elements → Json
    object : Fields → Json

  pub data Elements : Type 0 where
    no_elements : Elements
    element : Json → Elements → Elements

  pub data Fields : Type 0 where
    no_fields : Fields
    field : String → Json → Fields → Fields

unfoldable pub get : String → Fields → Option Json
get key no_fields = none
get key (field k v rest) = if k == key then some v else get key rest

-- Nothing to check, the types of the unique fields, an error, or a panic of a type assertion.
pub data Constraint : Type 0 where
  skipped : Constraint
  unique_types : List (String × String) → Constraint
  invalid panics : Constraint

unfoldable pub strings : Elements → Option (List String)
strings no_elements = some []
strings (element (text s) rest) = elim (strings rest) [ none ↦ none | some ss ↦ some (s ∷ ss) ]
strings (element null rest) = none
strings (element (boolean b) rest) = none
strings (element (number n) rest) = none
strings (element (array es) rest) = none
strings (element (object fs) rest) = none

abbrev pub assert_string_slice : Json → Option (List String)
assert_string_slice (array es) = strings es
assert_string_slice null = none
assert_string_slice (boolean b) = none
assert_string_slice (number n) = none
assert_string_slice (text s) = none
assert_string_slice (object fs) = none

abbrev pub is_valid_type : String → Bool
is_valid_type t = t == "string" || t == "number" || t == "integer" || t == "boolean"

-- The type of a property, with the assertion that it is an object.
pub data PropertyType : Type 0 where
  typed : String → PropertyType
  untyped no_object : PropertyType

abbrev pub property_type : Json → PropertyType
property_type (object fs) = elim (get "type" fs) [
  | some (text t) ↦ if is_valid_type t then typed t else untyped
  | _ ↦ untyped
]
property_type null = no_object
property_type (boolean b) = no_object
property_type (number n) = no_object
property_type (text s) = no_object
property_type (array es) = no_object

abbrev pub add_type : String → String → Constraint → Constraint
add_type name t (unique_types rest) = unique_types ((name, t) ∷ rest)
add_type name t skipped = skipped
add_type name t invalid = invalid
add_type name t panics = panics

unfoldable pub compile_unique_constraint : List String → List String → Fields → Constraint
compile_unique_constraint [] required properties = unique_types []
compile_unique_constraint (name ∷ names) required properties =
    let rest = compile_unique_constraint names required properties in
    if not (contains required name) then invalid else (elim (get name properties) [
      | none ↦ invalid
      | some property ↦ elim (property_type property) [
        | typed t ↦ add_type name t rest
        | untyped ↦ invalid
        | no_object ↦ panics
      ]
    ])

-- The last part of Compile, after the fields of `unique` and of `required`.
abbrev pub with_properties : List String → List String → Option Json → Constraint
with_properties names fields none = invalid
with_properties names fields (some null) = invalid
with_properties names fields (some (boolean b)) = invalid
with_properties names fields (some (number n)) = invalid
with_properties names fields (some (text t)) = invalid
with_properties names fields (some (array es)) = invalid
with_properties names fields (some (object properties)) =
    compile_unique_constraint names fields properties

abbrev pub with_required : Fields → List String → Option (List String) → Constraint
with_required schema names none = invalid
with_required schema names (some fields) = with_properties names fields (get "properties" schema)

abbrev pub with_unique : Fields → Option (List String) → Constraint
with_unique schema none = invalid
with_unique schema (some []) = skipped
with_unique schema (some (name ∷ names)) = elim (get "required" schema) [
  | none ↦ invalid
  | some required ↦ with_required schema (name ∷ names) (assert_string_slice required)
]

unfoldable pub compile : Fields → Constraint
compile schema = elim (get "unique" schema) [
  | none ↦ skipped
  | some unique ↦ with_unique schema (assert_string_slice unique)
]
