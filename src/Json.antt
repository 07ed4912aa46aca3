-- ===== src/Json.antt =====
-- The data of a `serde_json::Value`: what spec.rs, value.rs and tool.rs match on. An object holds its
-- fields in the order of their keys. A float is its 64-bit pattern.
use Prim.Native.String.{compare}
use text.Mathlib.Text.{is_lt}
use modular_agent_core.Prelude.{
  ℕ, String, Bool, true, false, Option, none, some, ◌==◌, if◌then◌else◌,
}

-- A non-negative integer, -(n + 1), or the bits of an `f64`.
pub data Number : Type 0 where
  pos_int : ℕ → Number
  neg_int : ℕ → Number
  float : ℕ → Number

mutual
  pub data Json : Type 0 where
    null : Json
    boolean : Bool → Json
    number : Number → Json
    string : String → Json
    array : Items → Json
    object : Fields → Json

  pub data Items : Type 0 where
    nil : Items
    cons : Json → Items → Items

  pub data Fields : Type 0 where
    end : Fields
    field : String → Json → Fields → Fields

abbrev pub as_bool : Json → Option Bool
as_bool (boolean b) = some b
as_bool _ = none

abbrev pub as_str : Json → Option String
as_str (string s) = some s
as_str _ = none

abbrev pub as_array : Json → Option Items
as_array (array xs) = some xs
as_array _ = none

abbrev pub as_object : Json → Option Fields
as_object (object fs) = some fs
as_object _ = none

abbrev pub is_null : Json → Bool
is_null null = true
is_null _ = false

unfoldable pub get_field : Fields → String → Option Json
get_field end k = none
get_field (field j v fs) k = if j == k then some v else get_field fs k

-- `Map::insert`: the keys stay in order, and a key that is there keeps one value, the new one.
unfoldable pub insert_field : Fields → String → Json → Fields
insert_field end k v = field k v end
insert_field (field j w fs) k v =
    let later = insert_field fs k v in
    if j == k
    then field j v fs
    else if is_lt (compare k j)
    then field k v (field j w fs)
    else field j w later

abbrev pub insert_if {ℓ} : {A : Type ℓ} → Option A → String → (A → Json) → Fields → Fields
insert_if none k f fs = fs
insert_if (some a) k f fs = insert_field fs k (f a)
