-- ===== src/Tool/Schema.antt =====
-- tool.rs: the arguments of a call are coerced toward the schema of the tool, and validated. What
-- `jsonschema` makes of a schema, and the parse of a float, are arguments.
pub mod Strings
use Prim.Native.Char.{Char, code}
use Prim.Native.String.{◌++◌ as append, ◌∷◌ as char_in_front, [] as no_text}
use modular_agent_core.Prelude.{
  ℕ, zero, suc, ◌+◌, ◌-◌, ◌*◌, ◌^◌, String, Bool, true, false, not, ◌&&◌, ◌||◌, Option, none, some,
  List, [], ◌∷◌, any, ◌==◌, leb, ltb, nat_eq, if◌then◌else◌,
}
use modular_agent_core.Prelude.Int.{ℤ, pos, negsuc}
use modular_agent_core.Text.Integers.{parse_i64}
use modular_agent_core.Json
use modular_agent_core.Json.{
  Json, Items, Fields, Number, pos_int, neg_int, float, get_field, as_str,
}
use modular_agent_core.Value.Serial.{is_finite}

-- A validator, as the errors that it finds in a value: where, and what.
abbrev pub Validator : Type 0
Validator = Json → List (String × String)

pub record SchemaLibrary : Type 0 where
  -- none if the schema does not compile
  pub validator_for : Json → Option Validator
  pub parse_f64 : String → Option ℕ

abbrev is_nil {ℓ} : {A : Type ℓ} → List A → Bool
is_nil [] = true
is_nil (x ∷ xs) = false

abbrev pub Coercion : Type 0
Coercion = Json → Json

-- The value of a field of a schema, with the coercions by it and by its parts.
pub record Part : Type 0 where
  pub coerce : Coercion
  pub elements : Option (List (Json × Coercion))
  pub members : Option (List (String × Coercion))

find_part : String → List (String × Part) → Option Part
find_part k [] = none
find_part k ((j, p) ∷ parts) = if j == k then some p else find_part k parts

elements_at : String → List (String × Part) → Option (List (Json × Coercion))
unfolding find_part
elements_at k parts = elim (find_part k parts) [ none ↦ none | some p ↦ p.elements ]

members_at : String → List (String × Part) → Option (List (String × Coercion))
unfolding find_part
members_at k parts = elim (find_part k parts) [ none ↦ none | some p ↦ p.members ]

coerce_integer : Json → Option ℤ → Json
coerce_integer v none = v
coerce_integer v (some (pos n)) = Json.number (pos_int n)
coerce_integer v (some (negsuc n)) = Json.number (neg_int n)

coerce_float : Json → Option ℕ → Json
coerce_float v none = v
coerce_float v (some bits) = if is_finite bits then Json.number (float bits) else v

map_items : Coercion → Items → Items
map_items f Items.nil = Items.nil
map_items f (Items.cons x xs) = Items.cons (f x) (map_items f xs)

map_field : String → Coercion → Fields → Fields
map_field k f Fields.end = Fields.end
map_field k f (Fields.field j x fs) =
    let later = map_field k f fs in
    if j == k then Fields.field j (f x) fs else Fields.field j x later

map_members : List (String × Coercion) → Fields → Fields
unfolding map_field
map_members [] fs = fs
map_members ((name, f) ∷ rest) fs = map_members rest (map_field name f fs)

coerce_members : Option (List (String × Coercion)) → Json → Json
unfolding map_members
coerce_members (some members) (Json.object fs) = Json.object (map_members members fs)
coerce_members _ v = v

coerce_items : Option Part → Json → Json
unfolding map_items
coerce_items (some p) (Json.array xs) = Json.array (map_items p.coerce xs)
coerce_items _ v = v

module _ (library : SchemaLibrary) where
  unfoldable pub schema_accepts : Json → Json → Bool
  schema_accepts schema value = elim (library.validator_for schema) [
    | none ↦ false
    | some validator ↦ is_nil (validator value)
  ]

  -- The first variant that accepts what it makes of the value.
  first_accepted : List (Json × Coercion) → Json → Json
  unfolding schema_accepts
  first_accepted [] value = value
  first_accepted ((schema, coerce) ∷ variants) value =
      let later = first_accepted variants value in
      if schema_accepts schema (coerce value) then coerce value else later

  coerce_variants : Option (List (Json × Coercion)) → Json → Json
  unfolding first_accepted
  coerce_variants none value = value
  coerce_variants (some variants) value =
      if any (λ (v : Json × Coercion). schema_accepts v.0 value) variants
      then value
      else first_accepted variants value

  -- `anyOf` if it is an array, else `oneOf`
  or_one_of :
      Option (List (Json × Coercion))
      → Option (List (Json × Coercion))
      → Option (List (Json × Coercion))
  or_one_of (some variants) one_of = some variants
  or_one_of none one_of = one_of

  coerce_text : String → String → Json → Json
  unfolding coerce_integer coerce_float
  coerce_text type_ s value =
      if type_ == "integer"
      then coerce_integer value (parse_i64 s)
      else if type_ == "number"
      then coerce_float value (library.parse_f64 s)
      else if type_ == "boolean" && s == "true"
      then Json.boolean true
      else if type_ == "boolean" && s == "false"
      then Json.boolean false
      else value

  coerce_type : Option Json → Json → Json
  unfolding coerce_text
  coerce_type (some (Json.string type_)) (Json.string s) = coerce_text type_ s (Json.string s)
  coerce_type _ value = value

  coerce_object : Fields → List (String × Part) → Json → Json
  unfolding elements_at members_at find_part coerce_members coerce_items coerce_variants or_one_of
      coerce_type
  coerce_object fs parts value =
      let repaired =
        coerce_variants (or_one_of (elements_at "anyOf" parts) (elements_at "oneOf" parts)) value in
      let typed = coerce_type (get_field fs "type") repaired in
      let with_members = coerce_members (members_at "properties" parts) typed in
      coerce_items (find_part "items" parts) with_members

  unfoldable mutual
    unfolding coerce_object

    -- The schema comes first; the recursion is on it.
    pub coerce_by_schema : Json → Coercion
    coerce_by_schema (Json.object fs) value = coerce_object fs (parts_of fs) value
    coerce_by_schema _ value = value

    pub parts_of : Fields → List (String × Part)
    parts_of Fields.end = []
    parts_of (Fields.field k x fs) =
        (
          k,
          record { coerce = coerce_by_schema x; elements = elements_of x; members = members_of x },
        )
        ∷ parts_of fs

    pub elements_of : Json → Option (List (Json × Coercion))
    elements_of (Json.array xs) = some (coerce_each xs)
    elements_of _ = none

    pub members_of : Json → Option (List (String × Coercion))
    members_of (Json.object fs) = some (coerce_named fs)
    members_of _ = none

    pub coerce_each : Items → List (Json × Coercion)
    coerce_each Items.nil = []
    coerce_each (Items.cons x xs) = (x, coerce_by_schema x) ∷ coerce_each xs

    pub coerce_named : Fields → List (String × Coercion)
    coerce_named Fields.end = []
    coerce_named (Fields.field k x fs) = (k, coerce_by_schema x) ∷ coerce_named fs

  describe : String × String → String
  describe (path, message) = append "at '" (append path (append "': " message))

  join_errors : String × String → List (String × String) → String
  unfolding describe
  join_errors e [] = describe e
  join_errors e (e' ∷ errors) = append (describe e) (append "; " (join_errors e' errors))

  report : List (String × String) → Option String
  unfolding join_errors
  report [] = none
  report (e ∷ errors) = some (join_errors e errors)

  validate : Option Validator → Json → Json → Option String × Json
  unfolding report
  validate none schema args = (none, args)
  validate (some validator) schema args =
      let coerced = coerce_by_schema schema args in (report (validator coerced), coerced)

  -- The errors, if there are any, with the arguments as they are left.
  unfoldable pub validate_tool_args : Json → Json → Option String × Json
  unfolding validate
  validate_tool_args schema args = validate (library.validator_for schema) schema args
