-- ===== src/Runtime/Registry/Defaults.antt =====
-- A registered definition is found, and its global configs start from its defaults.
use modular_agent_core.Prelude.{
  String, ◌≡◌, refl, ◌∙◌, ap, Option, none, some, Bool-cases, inl, inr, arith, ◌==◌, eq_iff,
  if◌then◌else◌,
}
use modular_agent_core.IndexMap
use modular_agent_core.IndexMap.{IndexMap, get-insert, get-entries, get-empty}
use modular_agent_core.Value.{AgentValue}
use modular_agent_core.Spec.{AgentConfigSpecs}
use modular_agent_core.Agent.{AgentDefinition}
use modular_agent_core.Definition.{collect_defaults}
use modular_agent_core.Definition.Reconcile.{or, config_of, default_of, get-collect_defaults}
use modular_agent_core.Runtime.{ModularAgent}
use modular_agent_core.Runtime.Globals.{get_global_configs, set_global_configs}
use modular_agent_core.Runtime.Globals.Merge.{get_global_configs-set_global_configs}
use modular_agent_core.Runtime.Registry.{
  set_defaults, register_agent_definiton, get_agent_definition,
}

get-defaults :
    (specs : AgentConfigSpecs) (j : String)
    → IndexMap.get (collect_defaults specs.entries IndexMap.empty) j ≡ default_of (some specs) j
get-defaults specs j =
    get-collect_defaults specs.entries IndexMap.empty j specs.distinct
    ∙ ground (arith, get-entries specs j, get-empty {V = AgentValue} j)

defs-set_defaults :
    (def_name : String) (specs : Option AgentConfigSpecs) (ma : ModularAgent)
    → (set_defaults def_name specs ma).defs ≡ ma.defs
unfolding set_defaults set_global_configs
defs-set_defaults def_name none ma = refl
defs-set_defaults def_name (some specs) ma = refl

global-set_defaults :
    (def_name other key : String) (specs : Option AgentConfigSpecs) (ma : ModularAgent)
    → config_of (get_global_configs other (set_defaults def_name specs ma)) key ≡ (
        if def_name == other
        then or (default_of specs key) (config_of (get_global_configs other ma) key)
        else config_of (get_global_configs other ma) key)
unfolding set_defaults
global-set_defaults def_name other key none ma = ground arith
global-set_defaults def_name other key (some specs) ma =
    get_global_configs-set_global_configs def_name other key
      (collect_defaults specs.entries IndexMap.empty) ma
    ∙ elim (Bool-cases (def_name == other)) [
      | inl e ↦
          let same : def_name ≡ other = (eq_iff def_name other).0 e in
          ground (arith, get-defaults specs key)
      | inr e ↦ ground arith
    ]

-- After a definition is registered, its name finds it and every other name what it found before; a
-- global config of its name is the default that it declares, or the value from before where it
-- declares none; the global configs of every other name are as before.
pub register_agent_definiton-lookups :
    (def : AgentDefinition) (other key : String) (ma : ModularAgent)
    → (get_agent_definition other (register_agent_definiton def ma)
        ≡ (if def.name == other then some def else get_agent_definition other ma))
      × (config_of (get_global_configs other (register_agent_definiton def ma)) key ≡ (
          if def.name == other
          then or (default_of def.global_configs key) (config_of (get_global_configs other ma) key)
          else config_of (get_global_configs other ma) key))
unfolding register_agent_definiton get_agent_definition get_global_configs
register_agent_definiton-lookups def other key ma =
    let entered = record ma { defs = IndexMap.insert ma.defs def.name def } in
    (
      ap (λ defs. IndexMap.get defs other) (defs-set_defaults def.name def.global_configs entered)
          ∙ get-insert ma.defs def.name other def,
      global-set_defaults def.name other key def.global_configs entered,
    )
