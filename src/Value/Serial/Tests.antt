-- ===== src/Value/Serial/Tests.antt =====
-- Floats with their known bit patterns, and a JSON object.
use modular_agent_core.Prelude.{◌^◌, ◌≡◌, refl, arith, [], ◌∷◌}
use modular_agent_core.Json.{Json, Items, Fields, neg_int, float}
use modular_agent_core.Error.{ok}
use modular_agent_core.Llm.{PhotonImage}
use modular_agent_core.Value.{AgentValue, Values}
use modular_agent_core.Value.Serial.{f32_as_f64, u64_as_f64, strip_image_prefix, from_json, to_json}
use modular_agent_core.Value.Serial.Serialize.{IsFiniteValue, serialize, serialize-to_json}
use modular_agent_core.Value.Serial.RoundTrip.{IsCanonical, to_json-from_json}

-- 1.5, the least positive f32, and minus zero
f32_as_f64_values :
    (f32_as_f64 0x3fc00000 ≡ 0x3ff8000000000000)
    × (f32_as_f64 1 ≡ 0x36a0000000000000)
    × (f32_as_f64 0x80000000 ≡ 0x8000000000000000)
unfolding f32_as_f64
f32_as_f64_values = (refl, refl, refl)

-- 2^63, and the greatest u64, which rounds up to 2^64
u64_as_f64_values :
    (u64_as_f64 (2 ^ 63) ≡ 0x43e0000000000000)
    × (u64_as_f64 0xffffffffffffffff ≡ 0x43f0000000000000)
unfolding u64_as_f64
u64_as_f64_values = (refl, refl)

stripped : strip_image_prefix "data:image/png;base64,data:image/png;base64,AB" ≡ "AB"
unfolding strip_image_prefix
stripped = refl

abbrev no_image : PhotonImage
no_image = record { width = 0; height = 0; raw_pixels = [] }

abbrev json : Json
json = Json.object (
    Fields.field "a"
      (Json.array (Items.cons (Json.number (neg_int 4)) (Items.cons (Json.string "x") Items.nil)))
      (Fields.field "b" (Json.number (float 0x3ff8000000000000)) Fields.end))

json-IsCanonical : IsCanonical json
unfolding IsCanonical
json-IsCanonical = ((refl, refl), (omega arith, (refl, tt)), (tt, refl, tt))

to_json-from_json_example :
    (v : AgentValue) × (from_json (λ s. no_image) json ≡ ok v) × (to_json (λ i. "") v ≡ json)
to_json-from_json_example = to_json-from_json (λ s. no_image) (λ i. "") json json-IsCanonical

-- [1.5] as a tensor, in an array
abbrev tensors : AgentValue
tensors = AgentValue.array (Values.cons (AgentValue.tensor (0x3fc00000 ∷ [])) Values.nil)

tensors-IsFiniteValue : IsFiniteValue tensors
unfolding IsFiniteValue f32_as_f64
tensors-IsFiniteValue = ((refl, tt), tt)

serialize-to_json_example : serialize (λ image. "") tensors ≡ to_json (λ image. "") tensors
serialize-to_json_example = serialize-to_json (λ image. "") tensors tensors-IsFiniteValue
