-- ===== src/Tool/Agents/CallTool.antt =====
-- `CallToolAgent` of tool.rs: one call by name.
use modular_agent_core.Prelude.{ℕ, String, Bool, Option, none, some, List, [], ◌∷◌}
use modular_agent_core.Error.{invalid_value, Result, ok, err, ok_or, ◌>>=◌}
use modular_agent_core.Value.{AgentValue, lookup, as_object}
use modular_agent_core.Context.{AgentContext}
use modular_agent_core.Agent.{Output}
use modular_agent_core.Tool.{ToolRegistry, call_tool}
use modular_agent_core.Tool.Agents.{put_out}

as_text : Option AgentValue → Result String
as_text (some (AgentValue.string s)) = ok s
as_text _ = err (invalid_value "tool_call.name must be a string")

or_unit : Option AgentValue → AgentValue
or_unit none = AgentValue.unit
or_unit (some v) = v

called : (ℕ → Bool) → ToolRegistry → AgentContext → AgentValue → Result AgentValue
unfolding as_text or_unit
called fired registry ctx value = do
  fields ← ok_or (as_object value) (invalid_value "tool_call input must be an object")
  name ← as_text (lookup fields "name")
  call_tool fired registry ctx name (or_unit (lookup fields "parameters"))

put_result : AgentContext → Result AgentValue → Result (Unit {0}) × List Output
put_result ctx (err e) = (err e, [])
put_result ctx (ok v) = (ok tt, put_out ctx "value" v ∷ [])

unfoldable pub process :
    (ℕ → Bool) → ToolRegistry → AgentContext → AgentValue → Result (Unit {0}) × List Output
unfolding called put_result
process fired registry ctx value = put_result ctx (called fired registry ctx value)
