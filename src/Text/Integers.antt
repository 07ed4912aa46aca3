-- ===== src/Text/Integers.antt =====
-- `parse` and `to_string` of `i64` in Rust's standard library.
use Prim.Native.Char.{Char, code}
use Prim.Native.String.{◌++◌ as append, ◌∷◌ as char_in_front, [] as no_text}
use modular_agent_core.Prelude.{
  ℕ, zero, suc, ◌+◌, ◌-◌, ◌*◌, ◌^◌, String, Bool, ◌&&◌, Option, none, some, leb, ltb, nat_eq,
  if◌then◌else◌,
}
use modular_agent_core.Prelude.Int.{ℤ, pos, negsuc}
use modular_agent_core.Decimal.{to_string}

is_digit : Char → Bool
is_digit c = leb b'0' (code c) && leb (code c) b'9'

-- The number of a text of digits, behind those that were read.
digits : ℕ → String → Option ℕ
digits n no_text = some n
digits n (char_in_front c s) =
    let later = digits (n * 10 + (code c - b'0')) s in if is_digit c then later else none

some_digits : String → Option ℕ
some_digits no_text = none
some_digits (char_in_front c s) = digits 0 (char_in_front c s)

in_range : Option ℕ → Option ℤ
in_range none = none
in_range (some n) = if ltb n (2 ^ 63) then some (pos n) else none

negated : Option ℕ → Option ℤ
negated none = none
negated (some zero) = some (pos 0)
negated (some (suc n)) = if ltb n (2 ^ 63) then some (negsuc n) else none

-- `s.parse::<i64>()`
unfoldable pub parse_i64 : String → Option ℤ
unfolding digits some_digits in_range negated is_digit
parse_i64 no_text = none
parse_i64 (char_in_front c s) =
    if nat_eq (code c) b'-'
    then negated (some_digits s)
    else if nat_eq (code c) b'+'
    then in_range (some_digits s)
    else in_range (some_digits (char_in_front c s))

unfoldable pub show_integer : ℤ → String
show_integer (pos n) = to_string n
show_integer (negsuc n) = append "-" (to_string (suc n))
