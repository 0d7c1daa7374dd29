-- ===== src/Schema/Accepts.antt =====
-- What the check of a resume's input in src/graph.rs accepts.
use takeln.Base.{
  some_inj, ◌≡◌, ◌↔◌, refl, sym, ◌∙◌, subst, eq_iff, true, ◌||◌, String, ◌==◌, some, List, Bool,
  false, [], ◌∷◌, any, and_then, arith, Bool-cases, Option-cases, inl, inr, ◌⊎◌,
}
use takeln.Error.{TakelnError, Result, ok, err}
use takeln.Schema.{
  JsonView, Kind, null, boolean, string, array, object, number, type_name, type_ok, check_type,
  check_enum, validate_input_against_schema,
}

-- A value of the kind is of the JSON type with the name; an integer is a number too.
abbrev pub is_of_type : Kind → String → Bool
is_of_type null name = "null" == name
is_of_type boolean name = "boolean" == name
is_of_type string name = "string" == name
is_of_type array name = "array" == name
is_of_type object name = "object" == name
is_of_type (number true) name = "integer" == name || "number" == name
is_of_type (number false) name = "number" == name

-- A value of the list is equal to the input.
abbrev pub Includes : {V : Type 0} → (V → V → Bool) → List V → V → Type 0
Includes eq [] input = ⊥
Includes eq (v ∷ vs) input = (eq v input ≡ true) ⊎ Includes eq vs input

module _ {V : Type 0} (json : JsonView V) where
  -- The input is of the type that the schema names, where it names one as a text.
  abbrev pub HasType : (input schema : V) → Type 0
  HasType input schema =
      (expected : String)
      → and_then (json.get "type" schema) json.as_str ≡ some expected
      → is_of_type (json.kind input) expected ≡ true

  -- The input is one of the values that the schema lists, where it lists some.
  abbrev pub IsListed : (input schema : V) → Type 0
  IsListed input schema =
      (values : List V)
      → and_then (json.get "enum" schema) json.as_array ≡ some values
      → Includes json.eq values input

at_number : (kind : Kind) → type_ok "number" (type_name kind) ≡ is_of_type kind "number"
unfolding type_ok type_name
at_number null = refl
at_number boolean = refl
at_number string = refl
at_number array = refl
at_number object = refl
at_number (number true) = refl
at_number (number false) = refl

elsewhere :
    (kind : Kind) (expected : String)
    → (expected == "number") ≡ false
    → (type_name kind == expected) ≡ is_of_type kind expected
unfolding type_name
elsewhere null expected other = refl
elsewhere boolean expected other = refl
elsewhere string expected other = refl
elsewhere array expected other = refl
elsewhere object expected other = refl
elsewhere (number true) expected other =
    ground (arith, other, eq_iff expected "number", eq_iff "number" expected)
elsewhere (number false) expected other = refl

type_ok_lem :
    (kind : Kind) (expected : String) → type_ok expected (type_name kind) ≡ is_of_type kind expected
unfolding type_ok
type_ok_lem kind expected = elim (Bool-cases (expected == "number")) [
  | inl same ↦ rw ((eq_iff expected "number").0 same) (at_number kind)
  | inr other ↦ rw other (elsewhere kind expected other)
]

any-Includes :
    {V : Type 0} (eq : V → V → Bool) (vs : List V) (input : V)
    → (any (λ v. eq v input) vs ≡ true) ↔ Includes eq vs input
any-Includes eq [] input = (λ e. absurd (ground (arith, e)), λ e. absurd e)
any-Includes eq (v ∷ vs) input = elim (Bool-cases (eq v input)) [
  | inl same ↦ (λ _. inl same, λ _. rw same refl)
  | inr other ↦ (
    λ e. inr ((any-Includes eq vs input).0 (rw other at e)),
    λ e. elim e [
      | inl same ↦ rw same refl
      | inr rest ↦ rw other ((any-Includes eq vs input).1 rest)
    ],
  )
]

ok_or_err :
    {C : Type 0} (r : Result C (Unit {0})) → (r ≡ ok tt) ⊎ ((e : TakelnError C) × (r ≡ err e))
ok_or_err (ok a) = inl refl
ok_or_err (err e) = inr (e, refl)

module _ {V C : Type 0} (json : JsonView V) where
  type_accepts :
      (interrupt_id : String) (input schema : V)
      → (check_type {C = C} json interrupt_id input schema ≡ ok tt) ↔ HasType json input schema
  unfolding check_type
  type_accepts interrupt_id input schema =
      elim (Option-cases (and_then (json.get "type" schema) json.as_str)) [
        | inl missing ↦ (
          λ _ expected e. absurd (ground (arith, missing, e)),
          λ _. rw (check_type, missing) refl,
        )
        | inr (expected, found) ↦
            let actual = type_name (json.kind input) in
            let same = type_ok_lem (json.kind input) expected in
            elim (Bool-cases (type_ok expected actual)) [
              | inl fits ↦ (
                λ _ other e.
                    subst (λ o. is_of_type (json.kind input) o ≡ true) (some_inj (sym found ∙ e))
                      (sym same ∙ fits),
                λ _. rw (check_type, found, fits) refl,
              )
              | inr differs ↦ (
                λ h. absurd (ground (arith, rw (check_type, found, differs) at h)),
                λ h. absurd (ground (arith, same, differs, h expected found)),
              )
            ]
      ]

  enum_accepts :
      (interrupt_id : String) (input schema : V)
      → (check_enum {C = C} json interrupt_id input schema ≡ ok tt) ↔ IsListed json input schema
  unfolding check_enum
  enum_accepts interrupt_id input schema =
      elim (Option-cases (and_then (json.get "enum" schema) json.as_array)) [
        | inl missing ↦
            (λ _ values e. absurd (ground (arith, missing, e)), λ _. rw (check_enum, missing) refl)
        | inr (values, found) ↦ elim (Bool-cases (any (λ v. json.eq v input) values)) [
          | inl listed ↦ (
            λ _ other e.
                subst (λ o. Includes json.eq o input) (some_inj (sym found ∙ e))
                  ((any-Includes json.eq values input).0 listed),
            λ _. rw (check_enum, found, listed) refl,
          )
          | inr differs ↦ (
            λ h. absurd (ground (arith, rw (check_enum, found, differs) at h)),
            λ h.
                absurd
                  (ground (arith, differs, (any-Includes json.eq values input).1 (h values found))),
          )
        ]
      ]

  -- The check accepts an input exactly where it is of the JSON type that the schema names, if any, and equal
  -- to one of the values that the schema lists, if any; an integer is of the types integer and number.
  pub validate_accepts :
      (interrupt_id : String) (input schema : V)
      → (validate_input_against_schema {C = C} json interrupt_id input schema ≡ ok tt)
        ↔ (HasType json input schema × IsListed json input schema)
  unfolding validate_input_against_schema
  validate_accepts interrupt_id input schema =
      let (typed, typed') = type_accepts interrupt_id input schema in
      let (listed, listed') = enum_accepts interrupt_id input schema in
      elim (ok_or_err (check_type {C = C} json interrupt_id input schema)) [
        | inl fits ↦ (
          λ h. (typed fits, listed (rw (validate_input_against_schema, fits) at h)),
          λ h. rw (validate_input_against_schema, fits) (listed' h.1),
        )
        | inr (e, differs) ↦ (
          λ h. absurd (ground (arith, rw (validate_input_against_schema, differs) at h)),
          λ h. absurd (ground (arith, differs, typed' h.0)),
        )
      ]
