-- ===== src/Schema.antt =====
-- `validate_input_against_schema` of src/graph.rs. `JsonView` is what it uses of `serde_json::Value`.
pub mod Accepts
use takeln.Base.{
  Bool, ◌||◌, String, ◌==◌, Option, none, some, List, [], ◌∷◌, concat, any, and_then, if◌then◌else◌,
}
use takeln.Error.{schema_validation_failed, Result, ok, err}

pub data Kind : Type 0 where
  null boolean string array object : Kind
  number : (is_integer : Bool) → Kind

pub record JsonView (V : Type 0) : Type 0 where
  pub kind : V → Kind
  pub get : String → V → Option V
  pub as_str : V → Option String
  pub as_array : V → Option (List V)
  pub eq : V → V → Bool
  pub debug : V → String
  pub debug_array : List V → String

-- The name of a value's type; an integer has one of its own.
unfoldable pub type_name : Kind → String
type_name null = "null"
type_name boolean = "boolean"
type_name (number is_integer) = if is_integer then "integer" else "number"
type_name string = "string"
type_name array = "array"
type_name object = "object"

-- "number" takes integers too.
unfoldable pub type_ok : (expected actual : String) → Bool
type_ok expected actual =
    if expected == "number" then actual == "number" || actual == "integer" else actual == expected

module _ {V C : Type 0} (json : JsonView V) where
  unfoldable pub check_type : (interrupt_id : String) → (input schema : V) → Result C (Unit {0})
  unfolding type_ok type_name
  check_type interrupt_id input schema = elim (and_then (json.get "type" schema) json.as_str) [
    | none ↦ ok tt
    | some expected ↦
        let actual = type_name (json.kind input) in
        if type_ok expected actual
        then ok tt
        else err (
            schema_validation_failed interrupt_id
              (concat ("Expected type '" ∷ expected ∷ "', got '" ∷ actual ∷ "'" ∷ [])))
  ]

  unfoldable pub check_enum : (interrupt_id : String) → (input schema : V) → Result C (Unit {0})
  check_enum interrupt_id input schema = elim (and_then (json.get "enum" schema) json.as_array) [
    | none ↦ ok tt
    | some values ↦
        if any (λ v. json.eq v input) values
        then ok tt
        else err (
            schema_validation_failed interrupt_id (
              concat (
                "Value "
                ∷ json.debug input
                ∷ " not in allowed enum values "
                ∷ json.debug_array values
                ∷ [])))
  ]

  unfoldable pub validate_input_against_schema :
      (interrupt_id : String) → (input schema : V) → Result C (Unit {0})
  unfolding check_type check_enum
  validate_input_against_schema interrupt_id input schema =
      elim (check_type interrupt_id input schema) [
        | err e ↦ err e
        | ok _ ↦ check_enum interrupt_id input schema
      ]
