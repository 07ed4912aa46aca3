-- ===== src/Value.antt =====
-- value.rs: the values that agents pass. A float is its bit pattern, a tensor the patterns of its
-- `f32`s.
pub mod Serial
pub mod Convert
use modular_agent_core.Prelude.{
  ℕ, zero, suc, ◌+◌, ◌-◌, ◌*◌, ◌/◌, ◌%◌, ◌^◌, String, ◌≡◌, refl, Bool, ◌&&◌, Option, none, some,
  List, arith, ◌==◌, eq_iff, ltb, leb, nat_eq, if◌then◌else◌,
}
use modular_agent_core.Prelude.Int.{ℤ, pos, negsuc}
use modular_agent_core.Error.{AgentError, invalid_value, Result, ok, err}
use modular_agent_core.Llm.{Message, PhotonImage}

mutual
  pub data AgentValue : Type 0 where
    unit : AgentValue
    boolean : Bool → AgentValue
    integer : ℤ → AgentValue
    number : ℕ → AgentValue
    string : String → AgentValue
    image : PhotonImage → AgentValue
    array : Values → AgentValue
    object : ValueMap → AgentValue
    tensor : List ℕ → AgentValue
    message : Message → AgentValue
    error : AgentError → AgentValue

  pub data Values : Type 0 where
    nil : Values
    cons : AgentValue → Values → Values

  -- `im::HashMap<String, AgentValue>`: its order is not read.
  pub data ValueMap : Type 0 where
    end : ValueMap
    entry : String → AgentValue → ValueMap → ValueMap

unfoldable pub lookup : ValueMap → String → Option AgentValue
lookup end k = none
lookup (entry j v m) k = if j == k then some v else lookup m k

unfoldable pub insert : ValueMap → String → AgentValue → ValueMap
insert end k v = entry k v end
insert (entry j w m) k v = if j == k then entry j v m else entry j w (insert m k v)

abbrev pub as_object : AgentValue → Option ValueMap
as_object (object m) = some m
as_object _ = none

-- AgentValue::get
unfoldable pub get : AgentValue → String → Option AgentValue
get (object m) k = lookup m k
get _ k = none

-- AgentValue::set: the value that is written to, if it is an object.
unfoldable pub set : AgentValue → String → AgentValue → Result AgentValue
set (object m) k v = ok (object (insert m k v))
set _ k v = err (invalid_value "set can only be called on Object AgentValue")

pub lookup-insert :
    (m : ValueMap) (k j : String) (v : AgentValue)
    → lookup (insert m k v) j ≡ (if k == j then some v else lookup m j)
unfolding lookup insert
lookup-insert end k j v = ground arith
lookup-insert (entry i w m) k j v =
    ground (arith, eq_iff k j, eq_iff i k, eq_iff i j, lookup-insert m k j v)

negate : ℕ → ℤ
negate zero = pos 0
negate (suc n) = negsuc n

-- The number whose magnitude is given, `i64::MIN` or `i64::MAX` beyond the range.
signed : Bool → ℕ → ℤ
signed negative magnitude =
    if negative
    then (if ltb (2 ^ 63) magnitude then negsuc (2 ^ 63 - 1) else negate magnitude)
    else if ltb magnitude (2 ^ 63)
    then pos magnitude
    else pos (2 ^ 63 - 1)

-- `n as i64` of an `f64`: towards zero, to the nearest bound outside the range, 0 for NaN.
unfoldable pub f64_as_i64 : ℕ → ℤ
unfolding signed negate
f64_as_i64 bits =
    let negative = leb (2 ^ 63) bits in
    let exponent = bits / 2 ^ 52 % 2 ^ 11 in
    let fraction = bits % 2 ^ 52 in
    if nat_eq exponent 2047 && ltb 0 fraction
    then pos 0
    else if ltb exponent 1023
    then pos 0
    else if ltb 1086 exponent
    then signed negative (2 ^ 64)
    else signed negative ((2 ^ 52 + fraction) * 2 ^ (exponent - 1023) / 2 ^ 52)

-- AgentValue::as_i64
unfoldable pub as_i64 : AgentValue → Option ℤ
unfolding f64_as_i64
as_i64 (integer i) = some i
as_i64 (number n) = some (f64_as_i64 n)
as_i64 _ = none

-- 1.5, -2.0, 2^63 and NaN
as_i64_floats :
    (as_i64 (number 0x3ff8000000000000) ≡ some (pos 1))
    × (as_i64 (number 0xc000000000000000) ≡ some (negsuc 1))
    × (as_i64 (number 0x43e0000000000000) ≡ some (pos 9223372036854775807))
    × (as_i64 (number 0xc3e0000000000000) ≡ some (negsuc 9223372036854775807))
    × (as_i64 (number 0x7ff8000000000000) ≡ some (pos 0))
unfolding as_i64
as_i64_floats = (refl, refl, refl, refl, refl)
