-- ===== src/Runtime/Globals.antt =====
-- The global configs of modular_agent.rs: one set of values for each agent definition.
pub mod Merge
mod Tests
use modular_agent_core.Prelude.{String, Option, none, some, List, [], ◌∷◌}
use modular_agent_core.IndexMap
use modular_agent_core.IndexMap.{IndexMap}
use modular_agent_core.Value.{AgentValue}
use modular_agent_core.Spec.{AgentConfigs}
use modular_agent_core.Runtime.{ModularAgent}

unfoldable pub get_global_configs : String → ModularAgent → Option AgentConfigs
get_global_configs def_name ma = IndexMap.get ma.global_configs_map def_name

-- `for (key, value) in configs { existing.set(key, value) }`
unfoldable pub set_each : List (String × AgentValue) → AgentConfigs → AgentConfigs
set_each [] existing = existing
set_each ((key, value) ∷ rest) existing = set_each rest (IndexMap.insert existing key value)

merged : Option AgentConfigs → AgentConfigs → AgentConfigs
merged none new_configs = new_configs
merged (some existing) new_configs = set_each new_configs.entries existing

unfoldable pub set_global_configs : String → AgentConfigs → ModularAgent → ModularAgent
unfolding merged
set_global_configs def_name new_configs ma = record ma {
  global_configs_map =
      IndexMap.insert ma.global_configs_map def_name
        (merged (IndexMap.get ma.global_configs_map def_name) new_configs);
}

set_maps : List (String × AgentConfigs) → ModularAgent → ModularAgent
unfolding set_global_configs
set_maps [] ma = ma
set_maps ((agent_name, new_configs) ∷ rest) ma =
    set_maps rest (set_global_configs agent_name new_configs ma)

unfoldable pub set_global_configs_map : IndexMap AgentConfigs → ModularAgent → ModularAgent
unfolding set_maps
set_global_configs_map new_configs_map ma = set_maps new_configs_map.entries ma
