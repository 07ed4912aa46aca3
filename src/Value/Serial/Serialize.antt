-- ===== src/Value/Serial/Serialize.antt =====
-- value.rs: `Serialize` of a value with the serializer of `serde_json::to_value`, and where it agrees with
-- `to_json`. That serializer widens an `f32` to an `f64`; the text serializer prints it as an `f32`.
use modular_agent_core.Prelude.{ℕ, String, ◌≡◌, refl, ap, true, List, [], ◌∷◌}
use modular_agent_core.Json.{Json, Items, Fields, insert_field}
use modular_agent_core.Llm.{PhotonImage}
use modular_agent_core.Llm.Serial.{message_json}
use modular_agent_core.Value.{AgentValue, Values, ValueMap}
use modular_agent_core.Value.Serial.{
  is_finite, f32_as_f64, integer_json, number_json, tensor_items, to_json, to_items, to_fields,
}

-- An `f32` that is not finite becomes null.
float_items : List ℕ → Items
unfolding number_json
float_items [] = Items.nil
float_items (x ∷ xs) = Items.cons (number_json (f32_as_f64 x)) (float_items xs)

unfoldable mutual
  unfolding integer_json number_json float_items

  pub serialize : (PhotonImage → String) → AgentValue → Json
  serialize encode AgentValue.unit = Json.null
  serialize encode (AgentValue.boolean b) = Json.boolean b
  serialize encode (AgentValue.integer i) = integer_json i
  serialize encode (AgentValue.number n) = number_json n
  serialize encode (AgentValue.string s) = Json.string s
  serialize encode (AgentValue.image i) = Json.string (encode i)
  serialize encode (AgentValue.array xs) = Json.array (serialize_items encode xs)
  serialize encode (AgentValue.object m) = Json.object (serialize_fields encode m)
  serialize encode (AgentValue.tensor t) = Json.array (float_items t)
  serialize encode (AgentValue.message m) = message_json encode m
  serialize encode (AgentValue.error e) = Json.null

  pub serialize_items : (PhotonImage → String) → Values → Items
  serialize_items encode Values.nil = Items.nil
  serialize_items encode (Values.cons v vs) =
      Items.cons (serialize encode v) (serialize_items encode vs)

  -- The entries are put in the order of their keys.
  pub serialize_fields : (PhotonImage → String) → ValueMap → Fields
  serialize_fields encode ValueMap.end = Fields.end
  serialize_fields encode (ValueMap.entry k v m) =
      insert_field (serialize_fields encode m) k (serialize encode v)

abbrev pub AllFinite : List ℕ → Type 0
AllFinite [] = Unit
AllFinite (x ∷ xs) = (is_finite (f32_as_f64 x) ≡ true) × AllFinite xs

-- The tensors in a value hold finite numbers only.
unfoldable mutual
  pub IsFiniteValue : AgentValue → Type 0
  IsFiniteValue (AgentValue.array xs) = AreFinite xs
  IsFiniteValue (AgentValue.object m) = IsFiniteMap m
  IsFiniteValue (AgentValue.tensor t) = AllFinite t
  IsFiniteValue v = Unit

  pub AreFinite : Values → Type 0
  AreFinite Values.nil = Unit
  AreFinite (Values.cons v vs) = IsFiniteValue v × AreFinite vs

  pub IsFiniteMap : ValueMap → Type 0
  IsFiniteMap ValueMap.end = Unit
  IsFiniteMap (ValueMap.entry k v m) = IsFiniteValue v × IsFiniteMap m

float_items-tensor_items : (t : List ℕ) → AllFinite t → float_items t ≡ tensor_items t
unfolding float_items tensor_items number_json
float_items-tensor_items [] h = refl
float_items-tensor_items (x ∷ xs) h = rw (h.0, float_items-tensor_items xs h.1) refl

module _ (encode : PhotonImage → String) where
  mutual
    unfolding serialize serialize_items serialize_fields to_json to_items to_fields IsFiniteValue
        AreFinite IsFiniteMap

    value-alike : (v : AgentValue) → IsFiniteValue v → serialize encode v ≡ to_json encode v
    value-alike AgentValue.unit h = refl
    value-alike (AgentValue.boolean b) h = refl
    value-alike (AgentValue.integer b) h = refl
    value-alike (AgentValue.number b) h = refl
    value-alike (AgentValue.string b) h = refl
    value-alike (AgentValue.image b) h = refl
    value-alike (AgentValue.array xs) h = ap Json.array (items-alike xs h)
    value-alike (AgentValue.object m) h = ap Json.object (fields-alike m h)
    value-alike (AgentValue.tensor t) h = ap Json.array (float_items-tensor_items t h)
    value-alike (AgentValue.message m) h = refl
    value-alike (AgentValue.error e) h = refl

    items-alike : (xs : Values) → AreFinite xs → serialize_items encode xs ≡ to_items encode xs
    items-alike Values.nil h = refl
    items-alike (Values.cons v vs) h = rw (value-alike v h.0, items-alike vs h.1) refl

    fields-alike : (m : ValueMap) → IsFiniteMap m → serialize_fields encode m ≡ to_fields encode m
    fields-alike ValueMap.end h = refl
    fields-alike (ValueMap.entry k v m) h = rw (value-alike v h.0, fields-alike m h.1) refl

  -- A value that is serialised into a `serde_json::Value` is what `to_json` makes of it, if the tensors in
  -- it hold finite numbers only.
  pub serialize-to_json : (v : AgentValue) → IsFiniteValue v → serialize encode v ≡ to_json encode v
  serialize-to_json v h = value-alike v h
