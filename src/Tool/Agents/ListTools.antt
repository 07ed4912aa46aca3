-- ===== src/Tool/Agents/ListTools.antt =====
-- `ListToolsAgent` of tool.rs, and the conversion of the information of a tool into a value.
use Prim.Native.String.{◌++◌ as append}
use modular_agent_core.Prelude.{String, List, [], ◌∷◌, if◌then◌else◌}
use modular_agent_core.Text.{is_empty}
use modular_agent_core.Error.{invalid_value, Result, ok, err}
use modular_agent_core.Llm.{PhotonImage}
use modular_agent_core.Value.{AgentValue, Values, ValueMap}
use modular_agent_core.Value.Serial.{from_json}
use modular_agent_core.Context.{AgentContext}
use modular_agent_core.Agent.{Output}
use modular_agent_core.Tool.{
  ToolInfo, ToolRegistry, Regexes, Listed, bad_patterns, listed, list_tool_infos,
  list_tool_infos_patterns,
}
use modular_agent_core.Tool.Agents.{put_out}

with_parameters : Result AgentValue → ValueMap → ValueMap
with_parameters (err e) fields = fields
with_parameters (ok v) fields = ValueMap.entry "parameters" v fields

unfoldable pub info_value : (String → PhotonImage) → ToolInfo → AgentValue
unfolding with_parameters
info_value decode info = AgentValue.object (
    with_parameters (from_json decode info.parameters) (
      ValueMap.entry "name" (AgentValue.string info.name)
        (ValueMap.entry "description" (AgentValue.string info.description) ValueMap.end)))

info_values : (String → PhotonImage) → List ToolInfo → Values
info_values decode [] = Values.nil
info_values decode (info ∷ infos) = Values.cons (info_value decode info) (info_values decode infos)

put_tools : (String → PhotonImage) → AgentContext → Listed → Result (Unit {0}) × List Output
unfolding info_values
put_tools decode ctx (bad_patterns e) =
    (err (invalid_value (append "Invalid regex patterns: " e)), [])
put_tools decode ctx (listed infos) =
    (ok tt, put_out ctx "tools" (AgentValue.array (info_values decode infos)) ∷ [])

unfoldable pub process :
    (String → PhotonImage)
    → (List String → Regexes)
    → ToolRegistry
    → AgentContext
    → AgentValue
    → Result (Unit {0}) × List Output
unfolding put_tools
process decode compile registry ctx (AgentValue.string patterns) = put_tools decode ctx (
    if is_empty patterns
    then listed (list_tool_infos registry)
    else list_tool_infos_patterns compile patterns registry)
process decode compile registry ctx _ = (err (invalid_value "patterns input must be a string"), [])
