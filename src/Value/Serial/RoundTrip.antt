-- ===== src/Value/Serial/RoundTrip.antt =====
-- A JSON value that is read as an `AgentValue` is written as it was.
use Prim.Native.String.{compare}
use text.Mathlib.Text.{starts_with, is_lt}
use modular_agent_core.Prelude.{◌^◌, ◌<◌, String, ◌≡◌, refl, ap, true, false, arith, ◌==◌}
use modular_agent_core.Json.{Json, Items, Fields, Number, pos_int, neg_int, float, insert_field}
use modular_agent_core.Error.{ok}
use modular_agent_core.Llm.{PhotonImage}
use modular_agent_core.Value.{AgentValue, Values, ValueMap}
use modular_agent_core.Value.Serial.{
  image_base64_prefix, is_finite, number_value, string_value, from_json, from_items, from_fields,
  integer_json, number_json, to_json, to_items, to_fields,
}

-- An integer in the range of `i64`, or a finite float.
abbrev pub IsRepresentable : Number → Type 0
IsRepresentable (pos_int n) = n < 2 ^ 63
IsRepresentable (neg_int n) = n < 2 ^ 63
IsRepresentable (float bits) = is_finite bits ≡ true

-- The key comes before every key of the fields, which are in order.
abbrev pub ComesFirst : String → Fields → Type 0
ComesFirst k Fields.end = Unit
ComesFirst k (Fields.field j x fs) = ((j == k) ≡ false) × (is_lt (compare k j) ≡ true)

-- No image, no number out of range, and the keys of each object in order.
unfoldable mutual
  pub IsCanonical : Json → Type 0
  IsCanonical Json.null = Unit
  IsCanonical (Json.boolean b) = Unit
  IsCanonical (Json.number n) = IsRepresentable n
  IsCanonical (Json.string s) = starts_with s image_base64_prefix ≡ false
  IsCanonical (Json.array xs) = IsCanonicalItems xs
  IsCanonical (Json.object fs) = IsCanonicalFields fs

  pub IsCanonicalItems : Items → Type 0
  IsCanonicalItems Items.nil = Unit
  IsCanonicalItems (Items.cons x xs) = IsCanonical x × IsCanonicalItems xs

  pub IsCanonicalFields : Fields → Type 0
  IsCanonicalFields Fields.end = Unit
  IsCanonicalFields (Fields.field k x fs) = ComesFirst k fs × IsCanonical x × IsCanonicalFields fs

insert_field-first :
    (k : String) (x : Json) (fs : Fields)
    → ComesFirst k fs
    → insert_field fs k x ≡ Fields.field k x fs
unfolding insert_field
insert_field-first k x Fields.end h = refl
insert_field-first k x (Fields.field j y fs) h = rw (h.0, h.1) refl

module _ (decode : String → PhotonImage) (encode : PhotonImage → String) where
  number-round_trip :
      (n : Number) → IsRepresentable n → to_json encode (number_value n) ≡ Json.number n
  unfolding to_json number_value integer_json number_json
  number-round_trip (pos_int n) h = ground arith
  number-round_trip (neg_int n) h = refl
  number-round_trip (float bits) h = rw h refl

  mutual
    unfolding from_json from_items from_fields to_json to_items to_fields IsCanonical
        IsCanonicalItems IsCanonicalFields

    json-round_trip :
        (j : Json)
        → IsCanonical j
        → (v : AgentValue) × (from_json decode j ≡ ok v) × (to_json encode v ≡ j)
    json-round_trip Json.null h = (AgentValue.unit, refl, refl)
    json-round_trip (Json.boolean b) h = (AgentValue.boolean b, refl, refl)
    json-round_trip (Json.number n) h = (number_value n, refl, number-round_trip n h)
    json-round_trip (Json.string s) h = (AgentValue.string s, rw (h, string_value) refl, refl)
    json-round_trip (Json.array xs) h =
        let (vs, read, written) = items-round_trip xs h in
        (AgentValue.array vs, rw read refl, ap Json.array written)
    json-round_trip (Json.object fs) h =
        let (m, read, written) = fields-round_trip fs h in
        (AgentValue.object m, rw read refl, ap Json.object written)

    items-round_trip :
        (xs : Items)
        → IsCanonicalItems xs
        → (vs : Values) × (from_items decode xs ≡ ok vs) × (to_items encode vs ≡ xs)
    items-round_trip Items.nil h = (Values.nil, refl, refl)
    items-round_trip (Items.cons x xs) h =
        let (v, read, written) = json-round_trip x h.0 in
        let (vs, reads, writes) = items-round_trip xs h.1 in
        (Values.cons v vs, rw (read, reads) refl, rw (written, writes) refl)

    fields-round_trip :
        (fs : Fields)
        → IsCanonicalFields fs
        → (m : ValueMap) × (from_fields decode fs ≡ ok m) × (to_fields encode m ≡ fs)
    fields-round_trip Fields.end h = (ValueMap.end, refl, refl)
    fields-round_trip (Fields.field k x fs) h =
        let (v, read, written) = json-round_trip x h.1 in
        let (m, reads, writes) = fields-round_trip fs h.2 in
        (
          ValueMap.entry k v m,
          rw (read, reads) refl,
          rw (written, writes) (insert_field-first k x fs h.0),
        )

  -- A JSON value without images, with its numbers in range and the keys of its objects in order, is
  -- read as a value, and that value is written as the same JSON.
  pub to_json-from_json :
      (j : Json)
      → IsCanonical j
      → (v : AgentValue) × (from_json decode j ≡ ok v) × (to_json encode v ≡ j)
  to_json-from_json j h = json-round_trip j h
