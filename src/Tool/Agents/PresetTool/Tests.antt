-- ===== src/Tool/Agents/PresetTool/Tests.antt =====
-- A running agent with the name `old` that is configured to `new`, and a call that waits at it.
use modular_agent_core.Prelude.{◌≡◌, refl, true, none, some, List, [], ◌∷◌, ◌==◌, if◌then◌else◌}
use modular_agent_core.IndexMap
use modular_agent_core.Error.{ok}
use modular_agent_core.Prelude.Int.{pos}
use modular_agent_core.Value.{AgentValue}
use modular_agent_core.Context.{AgentContext}
use modular_agent_core.Spec.{AgentConfigs}
use modular_agent_core.Tool.{ToolRegistry, get_tool}
use modular_agent_core.Tool.Agents.PresetTool.{
  PresetToolAgent, preset_tool, configs_changed, process, elapsed,
}
use modular_agent_core.Tool.Agents.PresetTool.Names.{configs_changed-get_tool}
use modular_agent_core.Tool.Agents.PresetTool.Waiting.{
  Happening, begins, ends, comes, after_all, running, process-running,
}

abbrev configs : AgentConfigs
configs = IndexMap.insert IndexMap.empty "name" (AgentValue.string "new")

abbrev agent : PresetToolAgent
agent = record {
  id = "1";
  configs = some configs;
  is_started = true;
  name = "old";
  description = "";
  parameters = none;
  pending = [];
}

abbrev registry : ToolRegistry
registry = IndexMap.empty

configs_changed-get_tool_example :
    get_tool "old" (configs_changed (λ image. "") (λ ctx args. ok args) true agent registry).2 ≡ (
      if (configs_changed (λ image. "") (λ ctx args. ok args) true agent registry).1.name == "old"
      then some (
          preset_tool
            (λ image. "")
            (λ ctx args. ok args)
            true
            (configs_changed (λ image. "") (λ ctx args. ok args) true agent registry).1)
      else if "old" == "old"
      then none
      else get_tool "old" registry)
configs_changed-get_tool_example =
    configs_changed-get_tool (λ image. "") (λ ctx args. ok args) agent configs registry "old" refl
      refl

abbrev ctx : AgentContext
ctx = record { id = 7; vars = none; frames = none; cancel = none }

-- A call times out, and the next one of the context begins before its value comes. A value of another
-- context comes in between.
abbrev happenings : List Happening
happenings =
    begins ctx 3 (ok tt)
    ∷ ends ctx (pos 60) elapsed
    ∷ begins ctx 4 (ok tt)
    ∷ comes (record ctx { id = 8 })
    ∷ []

-- The value that comes late for the call 3 goes to the call 4.
late : running none 7 happenings ≡ some 4
late = refl

process-running_example : (process ctx (after_all happenings agent)).0 ≡ running none 7 happenings
process-running_example = process-running agent happenings ctx refl
