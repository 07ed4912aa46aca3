-- ===== src/Value/Convert/Tests.antt =====
-- An array of an integer and of a text that is one.
use modular_agent_core.Prelude.{◌≡◌, refl, some}
use modular_agent_core.Prelude.Int.{pos, negsuc}
use modular_agent_core.Text.Integers.{parse_i64}
use modular_agent_core.Value.{AgentValue, Values}
use modular_agent_core.Value.Convert.{to_integer_value}
use modular_agent_core.Value.Convert.Reference.{integer_of, to_integer_value-reference}

abbrev mixed : AgentValue
mixed =
    AgentValue.array
      (Values.cons (AgentValue.integer (pos 1)) (Values.cons (AgentValue.string "-2") Values.nil))

abbrev integers : AgentValue
integers = AgentValue.array (
    Values.cons (AgentValue.integer (pos 1))
      (Values.cons (AgentValue.integer (negsuc 1)) Values.nil))

converted : integer_of mixed ≡ some integers
unfolding integer_of parse_i64
converted = refl

to_integer_value-reference_example : to_integer_value mixed ≡ integer_of mixed
to_integer_value-reference_example = to_integer_value-reference mixed
