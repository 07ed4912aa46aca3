-- ===== src/Runtime/Globals/Merge.antt =====
-- Global configs are merged key by key.
use modular_agent_core.Prelude.{
  String, ◌≡◌, refl, sym, ap, ◌∙◌, Option, none, some, Bool-cases, inl, inr, List, [], ◌∷◌, arith,
  ◌==◌, eq_iff, if◌then◌else◌,
}
use modular_agent_core.IndexMap
use modular_agent_core.IndexMap.{IndexMap, lookup, IsDistinct, get-insert, get-entries}
use modular_agent_core.Value.{AgentValue}
use modular_agent_core.Spec.{AgentConfigs}
use modular_agent_core.Definition.Reconcile.{or, config_of}
use modular_agent_core.Runtime.{ModularAgent}
use modular_agent_core.Runtime.Globals.{get_global_configs, set_each, merged, set_global_configs}

get-set_each :
    (l : List (String × AgentValue)) (c : AgentConfigs) (j : String)
    → IsDistinct l
    → IndexMap.get (set_each l c) j ≡ or (lookup j l) (IndexMap.get c j)
unfolding set_each
get-set_each [] c j d = refl
get-set_each ((key, v) ∷ l) c j d = elim (Bool-cases (key == j)) [
  | inl e ↦
      let same : lookup j l ≡ none = rw (← (eq_iff key j).0 e) d.0 in
      ground (arith, get-set_each l (IndexMap.insert c key v) j d.1, get-insert c key j v)
  | inr e ↦ ground (arith, get-set_each l (IndexMap.insert c key v) j d.1, get-insert c key j v)
]

get-merged :
    (old : Option AgentConfigs) (c : AgentConfigs) (j : String)
    → IndexMap.get (merged old c) j ≡ or (IndexMap.get c j) (config_of old j)
unfolding merged
get-merged none c j = ground arith
get-merged (some existing) c j =
    get-set_each c.entries existing j c.distinct
    ∙ ap (λ o. or o (IndexMap.get existing j)) (sym (get-entries c j))

-- After global configs are set for a definition, a key of it has the new value, or the value from before
-- where none is set, and the configs of every other definition are as before.
pub get_global_configs-set_global_configs :
    (def_name other key : String) (c : AgentConfigs) (ma : ModularAgent)
    → config_of (get_global_configs other (set_global_configs def_name c ma)) key ≡ (
        if def_name == other
        then or (IndexMap.get c key) (config_of (get_global_configs def_name ma) key)
        else config_of (get_global_configs other ma) key)
unfolding get_global_configs set_global_configs
get_global_configs-set_global_configs def_name other key c ma = ground (
  arith,
  get-insert ma.global_configs_map def_name other
      (merged (IndexMap.get ma.global_configs_map def_name) c),
  get-merged (IndexMap.get ma.global_configs_map def_name) c key,
)
