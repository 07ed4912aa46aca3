-- ===== src/Value/Convert/Reference.antt =====
-- What `AgentValue::to_integer_value` promises, apart from the way it gets there.
use modular_agent_core.Prelude.{
  ◌≡◌, refl, ap, ◌∙◌, true, false, Bool-cases, inl, inr, Option, none, some, arith,
}
use modular_agent_core.Prelude.Int.{ℤ, pos}
use modular_agent_core.Text.Integers.{parse_i64}
use modular_agent_core.Value.{AgentValue, Values}
use modular_agent_core.Value.Convert.{
  f64_as_i64, is_integer, to_integer, all_are, wrap, joined, convert_unless, to_kind, to_kinds,
  of_integer, to_integer_value,
}

abbrev as_integer : Option ℤ → Option AgentValue
as_integer none = none
as_integer (some i) = some (AgentValue.integer i)

abbrev as_array : Option Values → Option AgentValue
as_array none = none
as_array (some vs) = some (AgentValue.array vs)

abbrev in_front : Option AgentValue → Option Values → Option Values
in_front none vs = none
in_front (some v) none = none
in_front (some v) (some vs) = some (Values.cons v vs)

-- An integer is itself, a boolean 1 or 0, a number its integral part and a text the integer that it
-- spells. An array is converted at every element, to any depth, and fails if one of them does. All else
-- fails.
unfoldable mutual
  pub integer_of : AgentValue → Option AgentValue
  integer_of (AgentValue.integer i) = some (AgentValue.integer i)
  integer_of (AgentValue.boolean true) = some (AgentValue.integer (pos 1))
  integer_of (AgentValue.boolean false) = some (AgentValue.integer (pos 0))
  integer_of (AgentValue.number n) = some (AgentValue.integer (f64_as_i64 n))
  integer_of (AgentValue.string s) = as_integer (parse_i64 s)
  integer_of (AgentValue.array vs) = as_array (integers_of vs)
  integer_of _ = none

  integers_of : Values → Option Values
  integers_of Values.nil = some Values.nil
  integers_of (Values.cons v vs) = in_front (integer_of v) (integers_of vs)

of_integer-as_integer : (o : Option ℤ) → of_integer o ≡ as_integer o
unfolding of_integer
of_integer-as_integer none = refl
of_integer-as_integer (some i) = refl

wrap-as_array : (o : Option Values) → wrap o ≡ as_array o
unfolding wrap
wrap-as_array none = refl
wrap-as_array (some vs) = refl

joined-in_front : (o : Option AgentValue) (p : Option Values) → joined o p ≡ in_front o p
unfolding joined
joined-in_front none p = refl
joined-in_front (some v) none = refl
joined-in_front (some v) (some vs) = refl

integer_of-same : (v : AgentValue) → is_integer v ≡ true → integer_of v ≡ some v
unfolding integer_of
integer_of-same (AgentValue.integer i) e = refl
integer_of-same AgentValue.unit e = absurd (cc)
integer_of-same (AgentValue.boolean b) e = absurd (cc)
integer_of-same (AgentValue.number b) e = absurd (cc)
integer_of-same (AgentValue.string b) e = absurd (cc)
integer_of-same (AgentValue.image b) e = absurd (cc)
integer_of-same (AgentValue.array vs) e = absurd (cc)
integer_of-same (AgentValue.object b) e = absurd (cc)
integer_of-same (AgentValue.tensor b) e = absurd (cc)
integer_of-same (AgentValue.message b) e = absurd (cc)
integer_of-same (AgentValue.error b) e = absurd (cc)

-- An array of integers only need not be converted.
integers_of-same : (vs : Values) → all_are is_integer vs ≡ true → integers_of vs ≡ some vs
unfolding integers_of all_are
integers_of-same Values.nil e = refl
integers_of-same (Values.cons v vs) e =
    rw (integer_of-same v (ground arith), integers_of-same vs (ground arith)) refl

abbrev convert : AgentValue → Option AgentValue
convert v = of_integer (to_integer v)

mutual
  unfolding to_kind to_kinds convert_unless to_integer integer_of integers_of

  same : (v : AgentValue) → to_kind is_integer (λ u. of_integer (to_integer u)) v ≡ integer_of v
  same AgentValue.unit = of_integer-as_integer none
  same (AgentValue.boolean true) = of_integer-as_integer (some (pos 1))
  same (AgentValue.boolean false) = of_integer-as_integer (some (pos 0))
  same (AgentValue.integer i) = refl
  same (AgentValue.number n) = of_integer-as_integer (some (f64_as_i64 n))
  same (AgentValue.string s) = of_integer-as_integer (parse_i64 s)
  same (AgentValue.image b) = of_integer-as_integer none
  same (AgentValue.array vs) = elim (Bool-cases (all_are is_integer vs)) [
    | inl all ↦ rw (all, integers_of-same vs all) refl
    | inr some_not ↦ rw some_not (wrap-as_array _ ∙ ap as_array (all_same vs))
  ]
  same (AgentValue.object b) = of_integer-as_integer none
  same (AgentValue.tensor b) = of_integer-as_integer none
  same (AgentValue.message b) = of_integer-as_integer none
  same (AgentValue.error b) = of_integer-as_integer none

  all_same :
      (vs : Values) → to_kinds is_integer (λ u. of_integer (to_integer u)) vs ≡ integers_of vs
  all_same Values.nil = refl
  all_same (Values.cons v vs) = joined-in_front _ _ ∙ (rw (same v, all_same vs) refl)

-- `to_integer_value` leaves an integer as it is, makes 1 and 0 of the booleans, converts a number as
-- `as i64` does, and parses a text. An array it converts at every element, to any depth, and it fails if
-- one of the elements fails. For any other value it fails.
pub to_integer_value-reference : (v : AgentValue) → to_integer_value v ≡ integer_of v
unfolding to_integer_value
to_integer_value-reference v = same v
