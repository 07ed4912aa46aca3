-- ===== src/Definition.antt =====
-- `reconcile_spec` of definition.rs: an old specification is brought in line with its definition.
pub mod Reconcile
mod Tests
use Prim.Native.String.{◌++◌ as append}
use text.Mathlib.Text.{starts_with}
use modular_agent_core.Prelude.{
  String, Bool, true, false, not, ◌&&◌, Option, none, some, List, [], ◌∷◌, map, retain,
  if◌then◌else◌,
}
use modular_agent_core.IndexMap
use modular_agent_core.IndexMap.{IndexMap}
use modular_agent_core.Error.{
  AgentError, unknown_def_name, unknown_def_kind, Result, ok, err, ◌>>=◌, ok_or,
}
use modular_agent_core.Value.{AgentValue}
use modular_agent_core.Spec.{AgentConfigs, AgentConfigSpec, AgentConfigSpecs, AgentSpec}
use modular_agent_core.Agent.{Agent, AgentDefinition, AgentDefinitions, init}

-- The definition's ports, where it has some.
abbrev or_else : Option (List String) → Option (List String) → Option (List String)
or_else none old = old
or_else (some ports) old = some ports

unfoldable pub def_has : Option AgentConfigSpecs → String → Bool
def_has none key = false
def_has (some specs) key = IndexMap.contains_key specs key

is_stale : Option AgentConfigSpecs → String → Bool
unfolding def_has
is_stale defs key = not (starts_with key "_") && not (def_has defs key)

stale_keys : Option AgentConfigSpecs → AgentConfigs → List String
unfolding is_stale
stale_keys defs configs = retain (is_stale defs) (IndexMap.keys configs)

rename_key : String → AgentConfigs → AgentConfigs
rename_key key configs = elim (IndexMap.get configs key) [
  | none ↦ configs
  | some v ↦ IndexMap.insert (IndexMap.shift_remove configs key) (append "_" key) v
]

rename_keys : List String → AgentConfigs → AgentConfigs
unfolding rename_key
rename_keys [] configs = configs
rename_keys (key ∷ keys) configs = rename_keys keys (rename_key key configs)

fill_missing : List (String × AgentConfigSpec) → AgentConfigs → AgentConfigs
fill_missing [] configs = configs
fill_missing ((key, cs) ∷ rest) configs =
    fill_missing rest
      (if IndexMap.contains_key configs key then configs else IndexMap.insert configs key cs.value)

unfoldable pub collect_defaults : List (String × AgentConfigSpec) → AgentConfigs → AgentConfigs
collect_defaults [] configs = configs
collect_defaults ((key, cs) ∷ rest) configs =
    collect_defaults rest (IndexMap.insert configs key cs.value)

-- The keys of the definition that have a value, in the definition's order.
copy_known : AgentConfigs → List (String × AgentConfigSpec) → AgentConfigs → AgentConfigs
copy_known configs [] reordered = reordered
copy_known configs ((key, cs) ∷ rest) reordered =
    copy_known configs rest (elim (IndexMap.get configs key) [
      | none ↦ reordered
      | some v ↦ IndexMap.insert reordered key v
    ])

copy_remaining : List (String × AgentValue) → AgentConfigs → AgentConfigs
copy_remaining [] reordered = reordered
copy_remaining ((key, v) ∷ rest) reordered =
    copy_remaining rest
      (if IndexMap.contains_key reordered key then reordered else IndexMap.insert reordered key v)

reorder : AgentConfigSpecs → AgentConfigs → AgentConfigs
unfolding copy_known copy_remaining
reorder specs configs =
    copy_remaining configs.entries (copy_known configs specs.entries IndexMap.empty)

unfoldable pub reconcile_configs :
    Option AgentConfigSpecs → Option AgentConfigs → Option AgentConfigs
unfolding stale_keys rename_keys fill_missing collect_defaults reorder
reconcile_configs none none = none
reconcile_configs none (some configs) = some (rename_keys (stale_keys none configs) configs)
reconcile_configs (some specs) none =
    some (reorder specs (collect_defaults specs.entries IndexMap.empty))
reconcile_configs (some specs) (some configs) = some (
    reorder specs
      (fill_missing specs.entries (rename_keys (stale_keys (some specs) configs) configs)))

unfoldable pub reconcile_spec : AgentDefinition → AgentSpec → AgentSpec
unfolding reconcile_configs
reconcile_spec def spec = record spec {
  inputs = or_else def.inputs spec.inputs;
  outputs = or_else def.outputs spec.outputs;
  config_specs = def.configs;
  configs = reconcile_configs def.configs spec.configs;
}

-- `agent_new` of agent.rs. The constructor of a definition is the agent type's own `new`, after which
-- `Agent::new` sets the status.
unfoldable pub agent_new : AgentDefinitions → String → AgentSpec → Result Agent
unfolding reconcile_spec
agent_new defs agent_id spec = do
  def ← ok_or (IndexMap.get defs spec.def_name) (unknown_def_name spec.def_name)
  construct ← ok_or def.new_boxed (unknown_def_kind def.kind)
  agent ← construct agent_id (reconcile_spec def spec)
  ok (record agent { status = init })
