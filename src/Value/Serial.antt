-- ===== src/Value/Serial.antt =====
-- `from_json` and `to_json` of value.rs. The image library's `new_from_base64` and `get_base64` are
-- arguments.
pub mod RoundTrip
pub mod Serialize
mod Tests
use Prim.Native.String.{◌∷◌ as char_in_front, [] as no_text}
use text.Mathlib.Text.{starts_with}
use modular_agent_core.Prelude.{
  ℕ, zero, suc, ◌+◌, ◌-◌, ◌*◌, ◌/◌, ◌%◌, ◌^◌, String, Bool, true, false, not, ◌&&◌, Option, none,
  some, List, [], ◌∷◌, leb, ltb, nat_eq, if◌then◌else◌,
}
use modular_agent_core.Prelude.Int.{ℤ, pos, negsuc}
use modular_agent_core.Json
use modular_agent_core.Json.{Json, Items, Fields, Number, pos_int, neg_int, float, insert_field}
use modular_agent_core.Error.{Result, ok, err, ◌>>=◌}
use modular_agent_core.Llm.{PhotonImage}
use modular_agent_core.Llm.Serial.{message_json}
use modular_agent_core.Value
use modular_agent_core.Value.{AgentValue, Values, ValueMap}

abbrev pub image_base64_prefix : String
image_base64_prefix = "data:image/png;base64,"

-- `s.trim_start_matches(prefix)`, for a prefix of as many characters as given.
skip_prefixes : (prefix : String) → (length : ℕ) → String → (left : ℕ) → String
skip_prefixes prefix length no_text left = no_text
skip_prefixes prefix length (char_in_front c s) zero =
    let skipped = skip_prefixes prefix length s (length - 1) in
    if starts_with (char_in_front c s) prefix then skipped else char_in_front c s
skip_prefixes prefix length (char_in_front c s) (suc left) = skip_prefixes prefix length s left

unfoldable pub strip_image_prefix : String → String
unfolding skip_prefixes
strip_image_prefix s = skip_prefixes image_base64_prefix 22 s 0

abbrev pub is_finite : ℕ → Bool
is_finite bits = not (nat_eq (bits / 2 ^ 52 % 2 ^ 11) 2047)

-- `n as f64` of a `u64` from 2^63 on: the 11 low bits are rounded off, a tie to the even neighbour.
unfoldable pub u64_as_f64 : ℕ → ℕ
u64_as_f64 n =
    let kept = n / 2 ^ 11 in
    let rest = n % 2 ^ 11 in
    let up = (if ltb 1024 rest then 1 else if nat_eq rest 1024 then kept % 2 else 0) in
    1086 * 2 ^ 52 + (kept - 2 ^ 52) + up

-- The place of the highest bit that is set, below `k`.
top_bit : ℕ → ℕ → ℕ
top_bit zero n = 0
top_bit (suc k) n = let lower = top_bit k n in if leb (2 ^ k) n then k else lower

-- `v as f64` of an `f32`
unfoldable pub f32_as_f64 : ℕ → ℕ
unfolding top_bit
f32_as_f64 bits =
    let sign = bits / 2 ^ 31 * 2 ^ 63 in
    let exponent = bits / 2 ^ 23 % 2 ^ 8 in
    let fraction = bits % 2 ^ 23 in
    if nat_eq exponent 255
    then sign + 2047 * 2 ^ 52 + fraction * 2 ^ 29
    else if nat_eq exponent 0 && nat_eq fraction 0
    then sign
    else if nat_eq exponent 0
    then sign
      + (top_bit 23 fraction + 874) * 2 ^ 52
      + (fraction - 2 ^ top_bit 23 fraction) * 2 ^ (52 - top_bit 23 fraction)
    else sign + (exponent + 896) * 2 ^ 52 + fraction * 2 ^ 29

number_value : Number → AgentValue
unfolding u64_as_f64
number_value (pos_int n) =
    if ltb n (2 ^ 63) then AgentValue.integer (pos n) else AgentValue.number (u64_as_f64 n)
number_value (neg_int n) = AgentValue.integer (negsuc n)
number_value (float bits) = AgentValue.number bits

string_value : (String → PhotonImage) → String → AgentValue
unfolding strip_image_prefix
string_value decode s =
    if starts_with s image_base64_prefix
    then AgentValue.image (decode (strip_image_prefix s))
    else AgentValue.string s

unfoldable mutual
  unfolding number_value string_value

  pub from_json : (String → PhotonImage) → Json → Result AgentValue
  from_json decode Json.null = ok AgentValue.unit
  from_json decode (Json.boolean b) = ok (AgentValue.boolean b)
  from_json decode (Json.number n) = ok (number_value n)
  from_json decode (Json.string s) = ok (string_value decode s)
  from_json decode (Json.array xs) = from_items decode xs >>= λ vs. ok (AgentValue.array vs)
  from_json decode (Json.object fs) = from_fields decode fs >>= λ m. ok (AgentValue.object m)

  pub from_items : (String → PhotonImage) → Items → Result Values
  from_items decode Items.nil = ok Values.nil
  from_items decode (Items.cons x xs) =
      from_json decode x >>= λ v. from_items decode xs >>= λ vs. ok (Values.cons v vs)

  -- A JSON object has no key twice.
  pub from_fields : (String → PhotonImage) → Fields → Result ValueMap
  from_fields decode Fields.end = ok ValueMap.end
  from_fields decode (Fields.field k x fs) =
      from_json decode x >>= λ v. from_fields decode fs >>= λ m. ok (ValueMap.entry k v m)

integer_json : ℤ → Json
integer_json (pos n) = Json.number (pos_int n)
integer_json (negsuc n) = Json.number (neg_int n)

-- `f64` into a JSON value: what is not finite becomes null.
number_json : ℕ → Json
number_json bits = if is_finite bits then Json.number (float bits) else Json.null

tensor_items : List ℕ → Items
unfolding f32_as_f64
tensor_items [] = Items.nil
tensor_items (x ∷ xs) =
    let wide = f32_as_f64 x in
    Items.cons (Json.number (if is_finite wide then float wide else pos_int 0)) (tensor_items xs)

unfoldable mutual
  unfolding integer_json number_json tensor_items

  pub to_json : (PhotonImage → String) → AgentValue → Json
  to_json encode AgentValue.unit = Json.null
  to_json encode (AgentValue.boolean b) = Json.boolean b
  to_json encode (AgentValue.integer i) = integer_json i
  to_json encode (AgentValue.number n) = number_json n
  to_json encode (AgentValue.string s) = Json.string s
  to_json encode (AgentValue.image i) = Json.string (encode i)
  to_json encode (AgentValue.array xs) = Json.array (to_items encode xs)
  to_json encode (AgentValue.object m) = Json.object (to_fields encode m)
  to_json encode (AgentValue.tensor t) = Json.array (tensor_items t)
  to_json encode (AgentValue.message m) = message_json encode m
  to_json encode (AgentValue.error e) = Json.null

  pub to_items : (PhotonImage → String) → Values → Items
  to_items encode Values.nil = Items.nil
  to_items encode (Values.cons v vs) = Items.cons (to_json encode v) (to_items encode vs)

  -- The entries are put in the order of their keys.
  pub to_fields : (PhotonImage → String) → ValueMap → Fields
  to_fields encode ValueMap.end = Fields.end
  to_fields encode (ValueMap.entry k v m) = insert_field (to_fields encode m) k (to_json encode v)
