-- ===== src/Runtime/Registry.antt =====
-- The registration of agent definitions in modular_agent.rs.
pub mod Defaults
pub mod Frame
mod Tests
use modular_agent_core.Prelude.{String, Option, none, some}
use modular_agent_core.IndexMap
use modular_agent_core.Spec.{AgentConfigSpecs}
use modular_agent_core.Agent.{AgentDefinition}
use modular_agent_core.Definition.{collect_defaults}
use modular_agent_core.Runtime.{ModularAgent}
use modular_agent_core.Runtime.Globals.{set_global_configs}

set_defaults : String → Option AgentConfigSpecs → ModularAgent → ModularAgent
set_defaults def_name none ma = ma
set_defaults def_name (some specs) ma =
    set_global_configs def_name (collect_defaults specs.entries IndexMap.empty) ma

unfoldable pub register_agent_definiton : AgentDefinition → ModularAgent → ModularAgent
unfolding set_defaults
register_agent_definiton def ma =
    set_defaults def.name def.global_configs
      (record ma { defs = IndexMap.insert ma.defs def.name def })

unfoldable pub get_agent_definition : String → ModularAgent → Option AgentDefinition
get_agent_definition def_name ma = IndexMap.get ma.defs def_name
