-- ===== src/Value/Convert.antt =====
-- value.rs: the conversions between the types of values. The parse and the print of floats are those of
-- Rust's standard library, as arguments.
pub mod Reference
pub mod Settle
mod Tests
use modular_agent_core.Prelude.{
  ℕ, zero, suc, ◌+◌, ◌-◌, ◌*◌, ◌/◌, ◌%◌, ◌^◌, String, Bool, true, false, not, ◌&&◌, Option, none,
  some, leb, ltb, nat_eq, ◌==◌, ◌≡◌, refl, if◌then◌else◌,
}
use modular_agent_core.Prelude.Int.{ℤ, pos, negsuc}
use modular_agent_core.Text.Integers.{parse_i64, show_integer}
use modular_agent_core.Llm.{content_text}
use modular_agent_core.Value.{AgentValue, Values, f64_as_i64}

pub record Floats : Type 0 where
  pub parse : String → Option ℕ
  pub print : ℕ → String

-- `s.parse::<bool>()`
parse_bool : String → Option Bool
parse_bool s = if s == "true" then some true else if s == "false" then some false else none

show_bool : Bool → String
show_bool true = "true"
show_bool false = "false"

-- The highest bit that is set, below `k`.
highest_bit : ℕ → ℕ → ℕ
highest_bit zero n = 0
highest_bit (suc k) n = let lower = highest_bit k n in if leb (2 ^ k) n then k else lower

-- The magnitude as an `f64`: what is below 53 bits is rounded off, a tie to the even neighbour.
magnitude_f64 : ℕ → ℕ
unfolding highest_bit
magnitude_f64 n =
    let e = highest_bit 64 n in
    let unit = 2 ^ (e - 52) in
    let kept = n / unit in
    let rest = n % unit in
    let up = (if ltb unit (2 * rest) then 1 else if nat_eq unit (2 * rest) then kept % 2 else 0) in
    if nat_eq n 0
    then 0
    else if leb e 52
    then (1023 + e) * 2 ^ 52 + (n - 2 ^ e) * 2 ^ (52 - e)
    else (1023 + e) * 2 ^ 52 + (kept - 2 ^ 52) + up

-- `i as f64` of an `i64`
unfoldable pub i64_as_f64 : ℤ → ℕ
unfolding magnitude_f64
i64_as_f64 (pos n) = magnitude_f64 n
i64_as_f64 (negsuc n) = 2 ^ 63 + magnitude_f64 (suc n)

-- 1, 3, 2^53 + 1 (a tie to the even side), 2^53 + 3 and -1
i64_as_f64_values :
    (i64_as_f64 (pos 1) ≡ 0x3ff0000000000000)
    × (i64_as_f64 (pos 3) ≡ 0x4008000000000000)
    × (i64_as_f64 (pos 9007199254740993) ≡ 0x4340000000000000)
    × (i64_as_f64 (pos 9007199254740995) ≡ 0x4340000000000002)
    × (i64_as_f64 (negsuc 0) ≡ 0xbff0000000000000)
unfolding i64_as_f64
i64_as_f64_values = (refl, refl, refl, refl, refl)

abbrev pub is_boolean : AgentValue → Bool
is_boolean (AgentValue.boolean b) = true
is_boolean _ = false

abbrev pub is_integer : AgentValue → Bool
is_integer (AgentValue.integer i) = true
is_integer _ = false

abbrev pub is_number : AgentValue → Bool
is_number (AgentValue.number n) = true
is_number _ = false

abbrev pub is_string : AgentValue → Bool
is_string (AgentValue.string s) = true
is_string _ = false

-- Neither zero is true, and NaN is.
unfoldable pub to_boolean : AgentValue → Option Bool
unfolding parse_bool
to_boolean (AgentValue.boolean b) = some b
to_boolean (AgentValue.integer (pos n)) = some (not (nat_eq n 0))
to_boolean (AgentValue.integer (negsuc n)) = some true
to_boolean (AgentValue.number n) = some (not (nat_eq (n % 2 ^ 63) 0))
to_boolean (AgentValue.string s) = parse_bool s
to_boolean _ = none

unfoldable pub to_integer : AgentValue → Option ℤ
to_integer (AgentValue.integer i) = some i
to_integer (AgentValue.boolean b) = some (if b then pos 1 else pos 0)
to_integer (AgentValue.number n) = some (f64_as_i64 n)
to_integer (AgentValue.string s) = parse_i64 s
to_integer _ = none

unfoldable pub to_number : Floats → AgentValue → Option ℕ
to_number floats (AgentValue.number n) = some n
to_number floats (AgentValue.boolean b) = some (if b then 0x3ff0000000000000 else 0)
to_number floats (AgentValue.integer i) = some (i64_as_f64 i)
to_number floats (AgentValue.string s) = floats.parse s
to_number floats _ = none

unfoldable pub to_string : Floats → AgentValue → Option String
unfolding show_bool
to_string floats (AgentValue.string s) = some s
to_string floats (AgentValue.boolean b) = some (show_bool b)
to_string floats (AgentValue.integer i) = some (show_integer i)
to_string floats (AgentValue.number n) = some (floats.print n)
to_string floats (AgentValue.message m) = some (content_text m.content)
to_string floats _ = none

all_are : (AgentValue → Bool) → Values → Bool
all_are is Values.nil = true
all_are is (Values.cons v vs) = is v && all_are is vs

wrap : Option Values → Option AgentValue
wrap none = none
wrap (some vs) = some (AgentValue.array vs)

joined : Option AgentValue → Option Values → Option Values
joined none ws = none
joined (some w) none = none
joined (some w) (some ws) = some (Values.cons w ws)

-- The shape that the four conversions share: a value of the type stays, an array is converted at its
-- elements, and any other value by itself.
module _ (is : AgentValue → Bool) (convert : AgentValue → Option AgentValue) where
  convert_unless : AgentValue → Option AgentValue
  convert_unless v = if is v then some v else convert v

  mutual
    unfolding all_are wrap joined convert_unless

    to_kind : AgentValue → Option AgentValue
    to_kind (AgentValue.array vs) =
        let items = to_kinds vs in if all_are is vs then some (AgentValue.array vs) else wrap items
    to_kind v = convert_unless v

    to_kinds : Values → Option Values
    to_kinds Values.nil = some Values.nil
    to_kinds (Values.cons v vs) =
        let first = to_kind v in let rest = to_kinds vs in joined first rest

of_boolean : Option Bool → Option AgentValue
of_boolean none = none
of_boolean (some b) = some (AgentValue.boolean b)

of_integer : Option ℤ → Option AgentValue
of_integer none = none
of_integer (some i) = some (AgentValue.integer i)

of_number : Option ℕ → Option AgentValue
of_number none = none
of_number (some n) = some (AgentValue.number n)

of_string : Option String → Option AgentValue
of_string none = none
of_string (some s) = some (AgentValue.string s)

unfoldable pub to_boolean_value : AgentValue → Option AgentValue
unfolding to_kind of_boolean
to_boolean_value v = to_kind is_boolean (λ u. of_boolean (to_boolean u)) v

unfoldable pub to_integer_value : AgentValue → Option AgentValue
unfolding to_kind of_integer
to_integer_value v = to_kind is_integer (λ u. of_integer (to_integer u)) v

unfoldable pub to_number_value : Floats → AgentValue → Option AgentValue
unfolding to_kind of_number
to_number_value floats v = to_kind is_number (λ u. of_number (to_number floats u)) v

unfoldable pub to_string_value : Floats → AgentValue → Option AgentValue
unfolding to_kind of_string
to_string_value floats v = to_kind is_string (λ u. of_string (to_string floats u)) v
