-- ===== src/Tool/Agents.antt =====
-- The agents of tool.rs. A hook gives its result, the agent's new state and what it puts out. That
-- `output` fails is left out.
pub mod CallTool
pub mod CallToolMessage
pub mod LoopControl
pub mod ListTools
pub mod PresetTool
use Prim.Native.String.{◌++◌ as append}
use modular_agent_core.Prelude.{
  ℕ, zero, suc, ◌+◌, ◌-◌, ◌^◌, String, Bool, true, false, not, ◌&&◌, Option, none, some, List, [],
  ◌∷◌, ◌++◌, map, any, retain, ltb, ◌==◌, if◌then◌else◌,
}
use modular_agent_core.Prelude.Int.{ℤ, pos, negsuc}
use modular_agent_core.Text.{is_empty}
use modular_agent_core.Decimal.{to_string}
use modular_agent_core.Error.{AgentError, no_config, invalid_value, Result, ok, err, ok_or, ◌>>=◌}
use modular_agent_core.Llm.{ToolCall, Message, assistant}
use modular_agent_core.Value.{AgentValue, ValueMap, lookup, as_object}
use modular_agent_core.Context.{AgentContext, ctx_key}
use modular_agent_core.Spec.{AgentConfigs, get_string_or_default, get_integer_or}
use modular_agent_core.Agent.{Output}
use modular_agent_core.Tool.{
  ToolInfo, ToolRegistry, Regexes, Listed, bad_patterns, listed, list_tool_infos,
  list_tool_infos_patterns, call_tool,
}
use modular_agent_core.Tool.Call.{Libraries, error_tool_result}
use modular_agent_core.Tool.Batch.{Turn, call_tools}
use modular_agent_core.Tool.Tracker.{
  Tracked, nothing_tracked, entry_of, track, put_entry, keep_entry,
}

abbrev pub Hooked : Type 0 → Type 0
Hooked S = Result (Unit {0}) × S × List Output

abbrev put_out : AgentContext → String → AgentValue → Output
put_out ctx port value = record { ctx = ctx; port = port; value = value }

unfoldable pub required : Option AgentConfigs → Result AgentConfigs
required configs = ok_or configs no_config
