-- ===== src/Runtime/Registry/Frame.antt =====
-- Registration leaves the tables of presets and connections alone.
use modular_agent_core.Prelude.{String, ◌≡◌, refl, Option, none, some}
use modular_agent_core.IndexMap
use modular_agent_core.Spec.{AgentConfigSpecs}
use modular_agent_core.Agent.{AgentDefinition}
use modular_agent_core.Runtime.{ModularAgent}
use modular_agent_core.Runtime.Globals.{set_global_configs}
use modular_agent_core.Runtime.Lifecycle.Frame.{tables}
use modular_agent_core.Runtime.Registry.{set_defaults, register_agent_definiton}

tables-set_defaults :
    (def_name : String) (specs : Option AgentConfigSpecs) (ma : ModularAgent)
    → tables (set_defaults def_name specs ma) ≡ tables ma
unfolding set_defaults set_global_configs
tables-set_defaults def_name none ma = refl
tables-set_defaults def_name (some specs) ma = refl

pub tables-register_agent_definiton :
    (def : AgentDefinition) (ma : ModularAgent)
    → tables (register_agent_definiton def ma) ≡ tables ma
unfolding register_agent_definiton
tables-register_agent_definiton def ma =
    tables-set_defaults def.name def.global_configs
      (record ma { defs = IndexMap.insert ma.defs def.name def })
