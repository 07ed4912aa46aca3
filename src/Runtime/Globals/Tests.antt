-- ===== src/Runtime/Globals/Tests.antt =====
-- Two settings of the global configs of one definition.
use modular_agent_core.Prelude.{◌≡◌, ◌==◌, if◌then◌else◌}
use modular_agent_core.IndexMap
use modular_agent_core.Value.{AgentValue}
use modular_agent_core.Spec.{AgentConfigs}
use modular_agent_core.Definition.Reconcile.{or, config_of}
use modular_agent_core.Runtime.{ModularAgent, new}
use modular_agent_core.Runtime.Globals.{get_global_configs, set_global_configs}
use modular_agent_core.Runtime.Globals.Merge.{get_global_configs-set_global_configs}

abbrev first_configs : AgentConfigs
first_configs =
    IndexMap.insert (IndexMap.insert IndexMap.empty "key" (AgentValue.string "old")) "kept"
      (AgentValue.string "yes")

abbrev later_configs : AgentConfigs
later_configs = IndexMap.insert IndexMap.empty "key" (AgentValue.string "new")

abbrev runtime : ModularAgent
runtime = set_global_configs "chat" first_configs new

get_global_configs-set_global_configs_example :
    config_of (get_global_configs "chat" (set_global_configs "chat" later_configs runtime)) "kept"
    ≡ (if "chat" == "chat"
        then or
            (IndexMap.get later_configs "kept")
            (config_of (get_global_configs "chat" runtime) "kept")
        else config_of (get_global_configs "chat" runtime) "kept")
get_global_configs-set_global_configs_example =
    get_global_configs-set_global_configs "chat" "chat" "kept" later_configs runtime
