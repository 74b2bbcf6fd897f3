-- ===== src/Unique/Compiled.antt =====
-- What the compiler of the keyword `unique` accepts.
use governor_api.Prelude.{
  String, ◌≡◌, refl, sym, ap, subst, ◌↔◌, ◌∙◌, true, Option, none, some, List, [], ◌∷◌,
  if◌then◌else◌, Bool-cases, inl, inr,
}
use governor_api.Hierarchy.{contains}
use governor_api.Unique.{
  Json, null, boolean, number, text, array, object, Fields, get, Constraint, skipped, unique_types,
  invalid, panics, assert_string_slice, is_valid_type, PropertyType, typed, untyped, no_object,
  property_type, add_type, compile_unique_constraint, with_properties, with_required, with_unique,
  compile,
}

-- A field that may be unique: it is required, and a property of one of the four types.
pub record Fits (required : List String) (properties : Fields) (name t : String) : Type 0 where
  pub is_required : contains required name ≡ true
  pub property : Fields
  pub defined : get name properties ≡ some (object property)
  pub has_type : get "type" property ≡ some (text t)
  pub is_valid : is_valid_type t ≡ true

-- The types of the fields, one by one.
abbrev pub AllFit : List String → Fields → List String → List (String × String) → Type 0
AllFit required properties [] [] = Unit {0}
AllFit required properties [] (_ ∷ _) = ⊥
AllFit required properties (_ ∷ _) [] = ⊥
AllFit required properties (name ∷ names) ((m, t) ∷ types) =
    (m ≡ name) × Fits required properties name t × AllFit required properties names types

-- A schema with a constraint, and the types of its fields.
pub record IsConstraint (schema : Fields) (types : List (String × String)) : Type 0 where
  pub unique : Json
  pub required : Json
  pub name : String
  pub names : List String
  pub fields : List String
  pub properties : Fields
  pub has_unique : get "unique" schema ≡ some unique
  pub unique_slice : assert_string_slice unique ≡ some (name ∷ names)
  pub has_required : get "required" schema ≡ some required
  pub required_slice : assert_string_slice required ≡ some fields
  pub has_properties : get "properties" schema ≡ some (object properties)
  pub fit : AllFit fields properties (name ∷ names) types

property_type-typed :
    (j : Json) (t : String)
    → property_type j ≡ typed t
    → (fs : Fields) × (j ≡ object fs) × (get "type" fs ≡ some (text t)) × (is_valid_type t ≡ true)
property_type-typed (object fs) t e = go (get "type" fs) refl e
  where
    go :
        (o : Option Json)
        → get "type" fs ≡ o
        → (let p : PropertyType = elim o [
          | some (text t) ↦ if is_valid_type t then typed t else untyped
          | _ ↦ untyped
        ] in
            p ≡ typed t)
        → (gs : Fields) × (object fs ≡ object gs)
          × (get "type" gs ≡ some (text t))
          × (is_valid_type t ≡ true)
    go none is e = cc
    go (some null) is e = cc
    go (some (boolean b)) is e = cc
    go (some (number n)) is e = cc
    go (some (array es)) is e = cc
    go (some (object gs)) is e = cc
    go (some (text u)) is e = elim (Bool-cases (is_valid_type u)) [
      | inl valid ↦
          let same : typed u ≡ typed t = rw valid at e in
          (fs, refl, cc (is, same), cc (valid, same))
      | inr other ↦ let no : untyped ≡ typed t = rw other at e in cc no
    ]
property_type-typed null t e = cc
property_type-typed (boolean b) t e = cc
property_type-typed (number n) t e = cc
property_type-typed (text s) t e = cc
property_type-typed (array es) t e = cc

add_type-unique_types :
    (name t : String) (c : Constraint) (types : List (String × String))
    → add_type name t c ≡ unique_types types
    → (rest : List (String × String)) × (c ≡ unique_types rest) × ((name, t) ∷ rest ≡ types)
add_type-unique_types name t (unique_types rest) types e = (rest, refl, cc e)
add_type-unique_types name t skipped types e = cc
add_type-unique_types name t invalid types e = cc
add_type-unique_types name t panics types e = cc

constraint_sound :
    (names required : List String) (properties : Fields) (types : List (String × String))
    → compile_unique_constraint names required properties ≡ unique_types types
    → AllFit required properties names types
unfolding compile_unique_constraint
constraint_sound [] required properties [] e = tt
constraint_sound [] required properties (t ∷ ts) e = cc
constraint_sound (name ∷ names) required properties types e =
    elim (Bool-cases (contains required name)) [
      | inr missing ↦ let no : invalid ≡ unique_types types = rw missing at e in cc no
      | inl listed ↦
          with_property (constraint_sound names required properties) listed (get name properties)
            refl (rw listed at e)
    ]
  where
    rest : Constraint
    rest = compile_unique_constraint names required properties

    with_type :
        ((ts : List (String × String))
          → rest ≡ unique_types ts
          → AllFit required properties names ts)
        → contains required name ≡ true
        → (property : Json) → get name properties ≡ some property
        → (p : PropertyType) → property_type property ≡ p
        → (let c : Constraint = elim p [
          | typed t ↦ add_type name t rest
          | untyped ↦ invalid
          | no_object ↦ panics
        ] in
            c ≡ unique_types types)
        → AllFit required properties (name ∷ names) types
    with_type fit_rest listed property is untyped of_type e = cc
    with_type fit_rest listed property is no_object of_type e = cc
    with_type fit_rest listed property is (typed t) of_type e =
        let (ts, rest_is, same) = add_type-unique_types name t rest types e in
        let (fs, is_object, has_type, valid) = property_type-typed property t of_type in
        subst (AllFit required properties (name ∷ names)) same (
          refl,
          record {
            is_required = listed;
            property = fs;
            defined = is ∙ ap some is_object;
            has_type = has_type;
            is_valid = valid;
          },
          fit_rest ts rest_is,
        )

    with_property :
        ((ts : List (String × String))
          → rest ≡ unique_types ts
          → AllFit required properties names ts)
        → contains required name ≡ true
        → (o : Option Json) → get name properties ≡ o
        → (let c : Constraint = elim o [
          | none ↦ invalid
          | some property ↦ elim (property_type property) [
            | typed t ↦ add_type name t rest
            | untyped ↦ invalid
            | no_object ↦ panics
          ]
        ] in
            c ≡ unique_types types)
        → AllFit required properties (name ∷ names) types
    with_property fit_rest listed none is e = cc
    with_property fit_rest listed (some property) is e =
        with_type fit_rest listed property is (property_type property) refl e

-- And every constraint that fits is accepted.
constraint_complete :
    (names required : List String) (properties : Fields) (types : List (String × String))
    → AllFit required properties names types
    → compile_unique_constraint names required properties ≡ unique_types types
unfolding compile_unique_constraint
constraint_complete [] required properties [] fit = refl
constraint_complete [] required properties (t ∷ ts) fit = absurd fit
constraint_complete (name ∷ names) required properties [] fit = absurd fit
constraint_complete (name ∷ names) required properties ((m, t) ∷ types) (same, fit, fits) =
    rw
      (
        fit.is_required,
        fit.defined,
        fit.has_type,
        fit.is_valid,
        constraint_complete names required properties types fits,
      )
      (ap (λ n. unique_types ((n, t) ∷ types)) (sym same))

-- Compile accepts a schema with a constraint on some fields exactly if `unique` and `required` list
-- texts, every field of `unique`, of which there is one, is required and a property of the type
-- string, number, integer or boolean, and the constraint has just these fields and types.
pub compile_iff :
    (schema : Fields) (types : List (String × String))
    → ((compile schema ≡ unique_types types) ↔ IsConstraint schema types)
unfolding compile
compile_iff schema types = (λ e. on_unique (get "unique" schema) refl e, back)
  where
    on_properties :
        (unique required : Json) (name : String) (names fields : List String)
        → get "unique" schema ≡ some unique
        → assert_string_slice unique ≡ some (name ∷ names)
        → get "required" schema ≡ some required
        → assert_string_slice required ≡ some fields
        → (o : Option Json) → get "properties" schema ≡ o
        → with_properties (name ∷ names) fields o ≡ unique_types types
        → IsConstraint schema types
    on_properties unique required name names fields u us r rs none is e = cc
    on_properties unique required name names fields u us r rs (some null) is e = cc
    on_properties unique required name names fields u us r rs (some (boolean b)) is e = cc
    on_properties unique required name names fields u us r rs (some (number n)) is e = cc
    on_properties unique required name names fields u us r rs (some (text t)) is e = cc
    on_properties unique required name names fields u us r rs (some (array es)) is e = cc
    on_properties unique required name names fields u us r rs (some (object properties)) is e =
        record {
          unique = unique;
          required = required;
          name = name;
          names = names;
          fields = fields;
          properties = properties;
          has_unique = u;
          unique_slice = us;
          has_required = r;
          required_slice = rs;
          has_properties = is;
          fit = constraint_sound (name ∷ names) fields properties types e;
        }

    on_required :
        (unique : Json) (name : String) (names : List String)
        → get "unique" schema ≡ some unique
        → assert_string_slice unique ≡ some (name ∷ names)
        → (o : Option Json) → get "required" schema ≡ o
        → (let c : Constraint = elim o [
          | none ↦ invalid
          | some required ↦ with_required schema (name ∷ names) (assert_string_slice required)
        ] in
            c ≡ unique_types types)
        → IsConstraint schema types
    on_required unique name names u us none is e = cc
    on_required unique name names u us (some required) is e =
        on_fields (assert_string_slice required) refl e
      where
        on_fields :
            (o : Option (List String))
            → assert_string_slice required ≡ o
            → with_required schema (name ∷ names) o ≡ unique_types types
            → IsConstraint schema types
        on_fields none are e = cc
        on_fields (some fields) are e =
            on_properties unique required name names fields u us is are (get "properties" schema)
              refl e

    on_slice :
        (unique : Json)
        → get "unique" schema ≡ some unique
        → (o : Option (List String)) → assert_string_slice unique ≡ o
        → with_unique schema o ≡ unique_types types
        → IsConstraint schema types
    on_slice unique u none are e = cc
    on_slice unique u (some []) are e = cc
    on_slice unique u (some (name ∷ names)) are e =
        on_required unique name names u are (get "required" schema) refl e

    on_unique :
        (o : Option Json)
        → get "unique" schema ≡ o
        → (let c : Constraint = elim o [
          | none ↦ skipped
          | some unique ↦ with_unique schema (assert_string_slice unique)
        ] in
            c ≡ unique_types types)
        → IsConstraint schema types
    on_unique none is e = cc
    on_unique (some unique) is e = on_slice unique is (assert_string_slice unique) refl e

    back : IsConstraint schema types → compile schema ≡ unique_types types
    back c =
        rw
          (
            compile, c.has_unique, c.unique_slice, with_unique, c.has_required, c.required_slice,
            with_required, c.has_properties,
          )
          (constraint_complete (c.name ∷ c.names) c.fields c.properties types c.fit)
