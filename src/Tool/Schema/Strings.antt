-- ===== src/Tool/Schema/Strings.antt =====
-- The coercion of tool.rs changes texts only.
use modular_agent_core.Prelude.{
  String, ◌≡◌, refl, ap, Bool-cases, Option, none, some, inl, inr, List, [], ◌∷◌, any, arith, ◌==◌,
}
use modular_agent_core.Json.{Json, Items, Fields, get_field}
use modular_agent_core.Tool.Schema.{
  SchemaLibrary, Coercion, Part, find_part, elements_at, members_at, map_items, map_field,
  map_members, coerce_members, coerce_items, schema_accepts, first_accepted, coerce_variants,
  or_one_of, coerce_type, coerce_object, coerce_by_schema, parts_of, elements_of, members_of,
  coerce_each, coerce_named,
}

-- No text occurs in the value, but for the keys of objects.
unfoldable mutual
  pub NoText : Json → Type 0
  NoText Json.null = Unit
  NoText (Json.boolean b) = Unit
  NoText (Json.number n) = Unit
  NoText (Json.string s) = ⊥
  NoText (Json.array xs) = NoTextItems xs
  NoText (Json.object fs) = NoTextFields fs

  pub NoTextItems : Items → Type 0
  NoTextItems Items.nil = Unit
  NoTextItems (Items.cons x xs) = NoText x × NoTextItems xs

  pub NoTextFields : Fields → Type 0
  NoTextFields Fields.end = Unit
  NoTextFields (Fields.field k x fs) = NoText x × NoTextFields fs

abbrev Idle : Coercion → Type 0
Idle f = (value : Json) → NoText value → f value ≡ value

abbrev AllIdle : List (Json × Coercion) → Type 0
AllIdle [] = Unit
AllIdle ((schema, f) ∷ rest) = Idle f × AllIdle rest

abbrev AllIdleNamed : List (String × Coercion) → Type 0
AllIdleNamed [] = Unit
AllIdleNamed ((name, f) ∷ rest) = Idle f × AllIdleNamed rest

abbrev Elements : Option (List (Json × Coercion)) → Type 0
Elements none = Unit
Elements (some l) = AllIdle l

abbrev Members : Option (List (String × Coercion)) → Type 0
Members none = Unit
Members (some l) = AllIdleNamed l

abbrev Parts : List (String × Part) → Type 0
Parts [] = Unit
Parts ((k, p) ∷ parts) = (Idle p.coerce × Elements p.elements × Members p.members) × Parts parts

abbrev Found : Option Part → Type 0
Found none = Unit
Found (some p) = Idle p.coerce × Elements p.elements × Members p.members

find_part-Found :
    (k : String) (parts : List (String × Part)) → Parts parts → Found (find_part k parts)
unfolding find_part
find_part-Found k [] h = tt
find_part-Found k ((j, p) ∷ parts) h = elim (Bool-cases (j == k)) [
  | inl e ↦ rw e h.0
  | inr e ↦ rw e (find_part-Found k parts h.1)
]

elements-Found :
    (o : Option Part) → Found o → Elements (elim o [ none ↦ none | some p ↦ p.elements ])
elements-Found none h = tt
elements-Found (some p) h = h.1

members-Found : (o : Option Part) → Found o → Members (elim o [ none ↦ none | some p ↦ p.members ])
members-Found none h = tt
members-Found (some p) h = h.2

map_items-Idle : (f : Coercion) (xs : Items) → Idle f → NoTextItems xs → map_items f xs ≡ xs
unfolding map_items NoTextItems
map_items-Idle f Items.nil h n = refl
map_items-Idle f (Items.cons x xs) h n = rw (h x n.0, map_items-Idle f xs h n.1) refl

map_field-Idle :
    (k : String) (f : Coercion) (fs : Fields) → Idle f → NoTextFields fs → map_field k f fs ≡ fs
unfolding map_field NoTextFields
map_field-Idle k f Fields.end h n = refl
map_field-Idle k f (Fields.field j x fs) h n = elim (Bool-cases (j == k)) [
  | inl e ↦ rw (e, h x n.0) refl
  | inr e ↦ rw (e, map_field-Idle k f fs h n.1) refl
]

map_members-Idle :
    (members : List (String × Coercion)) (fs : Fields)
    → AllIdleNamed members
    → NoTextFields fs
    → map_members members fs ≡ fs
unfolding map_members
map_members-Idle [] fs h n = refl
map_members-Idle ((name, f) ∷ rest) fs h n =
    rw (map_field-Idle name f fs h.0 n) (map_members-Idle rest fs h.1 n)

coerce_members-Idle :
    (o : Option (List (String × Coercion))) (value : Json)
    → Members o
    → NoText value
    → coerce_members o value ≡ value
unfolding coerce_members NoText
coerce_members-Idle none Json.null h n = refl
coerce_members-Idle none (Json.boolean b) h n = refl
coerce_members-Idle none (Json.number b) h n = refl
coerce_members-Idle none (Json.string b) h n = refl
coerce_members-Idle none (Json.array b) h n = refl
coerce_members-Idle none (Json.object b) h n = refl
coerce_members-Idle (some l) (Json.object fs) h n = ap Json.object (map_members-Idle l fs h n)
coerce_members-Idle (some l) Json.null h n = refl
coerce_members-Idle (some l) (Json.boolean b) h n = refl
coerce_members-Idle (some l) (Json.number b) h n = refl
coerce_members-Idle (some l) (Json.string b) h n = refl
coerce_members-Idle (some l) (Json.array b) h n = refl

coerce_items-Idle :
    (o : Option Part) (value : Json) → Found o → NoText value → coerce_items o value ≡ value
unfolding coerce_items NoText
coerce_items-Idle none Json.null h n = refl
coerce_items-Idle none (Json.boolean b) h n = refl
coerce_items-Idle none (Json.number b) h n = refl
coerce_items-Idle none (Json.string b) h n = refl
coerce_items-Idle none (Json.array b) h n = refl
coerce_items-Idle none (Json.object b) h n = refl
coerce_items-Idle (some p) (Json.array xs) h n = ap Json.array (map_items-Idle p.coerce xs h.0 n)
coerce_items-Idle (some p) Json.null h n = refl
coerce_items-Idle (some p) (Json.boolean b) h n = refl
coerce_items-Idle (some p) (Json.number b) h n = refl
coerce_items-Idle (some p) (Json.string b) h n = refl
coerce_items-Idle (some p) (Json.object b) h n = refl

coerce_type-Idle :
    (library : SchemaLibrary) (t : Option Json) (value : Json)
    → NoText value
    → coerce_type library t value ≡ value
unfolding coerce_type NoText
coerce_type-Idle library (some (Json.string t)) (Json.string s) n = absurd n
coerce_type-Idle library t value n = ground arith

module _ (library : SchemaLibrary) where
  first_accepted-Idle :
      (variants : List (Json × Coercion)) (value : Json)
      → AllIdle variants
      → NoText value
      → first_accepted library variants value ≡ value
  unfolding first_accepted
  first_accepted-Idle [] value h n = refl
  first_accepted-Idle ((schema, f) ∷ rest) value h n =
      rw (h.0 value n, first_accepted-Idle rest value h.1 n)
        (elim (Bool-cases (schema_accepts library schema value)) [
          | inl e ↦ rw e refl
          | inr e ↦ rw e refl
        ])

  coerce_variants-Idle :
      (o : Option (List (Json × Coercion))) (value : Json)
      → Elements o
      → NoText value
      → coerce_variants library o value ≡ value
  unfolding coerce_variants
  coerce_variants-Idle none value h n = refl
  coerce_variants-Idle (some l) value h n =
      elim (Bool-cases (any (λ (v : Json × Coercion). schema_accepts library v.0 value) l)) [
        | inl e ↦ rw e refl
        | inr e ↦ rw e (first_accepted-Idle l value h n)
      ]

  or_one_of-Idle :
      (o p : Option (List (Json × Coercion)))
      → Elements o
      → Elements p
      → Elements (or_one_of library o p)
  unfolding or_one_of
  or_one_of-Idle none p h k = k
  or_one_of-Idle (some l) p h k = h

  coerce_object-Idle :
      (fs : Fields) (parts : List (String × Part)) (value : Json)
      → Parts parts
      → NoText value
      → coerce_object library fs parts value ≡ value
  unfolding coerce_object elements_at members_at
  coerce_object-Idle fs parts value h n =
      let variants =
        or_one_of-Idle (elements_at "anyOf" parts) (elements_at "oneOf" parts)
          (elements-Found (find_part "anyOf" parts) (find_part-Found "anyOf" parts h))
          (elements-Found (find_part "oneOf" parts) (find_part-Found "oneOf" parts h)) in
      let members =
        members-Found (find_part "properties" parts) (find_part-Found "properties" parts h) in
      rw
        (
          coerce_variants-Idle
              (or_one_of library (elements_at "anyOf" parts) (elements_at "oneOf" parts)) value
              variants n,
          coerce_type-Idle library (get_field fs "type") value n,
          coerce_members-Idle (members_at "properties" parts) value members n,
        )
        (coerce_items-Idle (find_part "items" parts) value (find_part-Found "items" parts h) n)

  mutual
    unfolding coerce_by_schema parts_of elements_of members_of coerce_each coerce_named

    coerce-Idle : (schema : Json) → Idle (coerce_by_schema library schema)
    coerce-Idle Json.null value n = refl
    coerce-Idle (Json.boolean b) value n = refl
    coerce-Idle (Json.number b) value n = refl
    coerce-Idle (Json.string b) value n = refl
    coerce-Idle (Json.array b) value n = refl
    coerce-Idle (Json.object fs) value n =
        coerce_object-Idle fs (parts_of library fs) value (parts_of-Idle fs) n

    parts_of-Idle : (fs : Fields) → Parts (parts_of library fs)
    parts_of-Idle Fields.end = tt
    parts_of-Idle (Fields.field k x fs) =
        ((coerce-Idle x, elements_of-Idle x, members_of-Idle x), parts_of-Idle fs)

    elements_of-Idle : (x : Json) → Elements (elements_of library x)
    elements_of-Idle Json.null = tt
    elements_of-Idle (Json.boolean b) = tt
    elements_of-Idle (Json.number b) = tt
    elements_of-Idle (Json.string b) = tt
    elements_of-Idle (Json.array xs) = each-Idle xs
    elements_of-Idle (Json.object b) = tt

    members_of-Idle : (x : Json) → Members (members_of library x)
    members_of-Idle Json.null = tt
    members_of-Idle (Json.boolean b) = tt
    members_of-Idle (Json.number b) = tt
    members_of-Idle (Json.string b) = tt
    members_of-Idle (Json.array b) = tt
    members_of-Idle (Json.object fs) = named-Idle fs

    each-Idle : (xs : Items) → AllIdle (coerce_each library xs)
    each-Idle Items.nil = tt
    each-Idle (Items.cons x xs) = (coerce-Idle x, each-Idle xs)

    named-Idle : (fs : Fields) → AllIdleNamed (coerce_named library fs)
    named-Idle Fields.end = tt
    named-Idle (Fields.field k x fs) = (coerce-Idle x, named-Idle fs)

  -- Arguments without a text in them are left as they are, whatever the schema says.
  pub coerce_by_schema-NoText :
      (schema value : Json) → NoText value → coerce_by_schema library schema value ≡ value
  coerce_by_schema-NoText schema value n = coerce-Idle schema value n
