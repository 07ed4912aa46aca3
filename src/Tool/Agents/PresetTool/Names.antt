-- ===== src/Tool/Agents/PresetTool/Names.antt =====
-- The registry follows the name of a running `PresetToolAgent`.
use modular_agent_core.Prelude.{
  String, ◌≡◌, refl, true, Bool-cases, inl, inr, none, some, arith, ◌==◌, eq_iff, if◌then◌else◌,
}
use modular_agent_core.IndexMap
use modular_agent_core.Error.{Result}
use modular_agent_core.Llm.{PhotonImage}
use modular_agent_core.Value.{AgentValue}
use modular_agent_core.Context.{AgentContext}
use modular_agent_core.Spec.{AgentConfigs}
use modular_agent_core.Tool.{Tool, ToolRegistry, register_tool, unregister_tool, get_tool, new_info}
use modular_agent_core.Tool.Agents.PresetTool.{
  PresetToolAgent, preset_tool, read_configs, drop_old, refresh, changed, configs_changed,
}

get_tool-register_tool :
    (t : Tool) (registry : ToolRegistry) (j : String)
    → get_tool j (register_tool t registry)
      ≡ (if t.info.name == j then some t else get_tool j registry)
unfolding get_tool register_tool
get_tool-register_tool t registry j = elim (Bool-cases (t.info.name == j)) [
  | inl e ↦
      rw (IndexMap.get-insert registry t.info.name j (record { info = t.info; tool = t }), e) refl
  | inr e ↦
      rw (IndexMap.get-insert registry t.info.name j (record { info = t.info; tool = t }), e) refl
]

get_tool-unregister_tool :
    (name : String) (registry : ToolRegistry) (j : String)
    → get_tool j (unregister_tool name registry) ≡ (if name == j then none else get_tool j registry)
unfolding get_tool unregister_tool
get_tool-unregister_tool name registry j = elim (Bool-cases (name == j)) [
  | inl e ↦ rw (IndexMap.get-swap_remove registry name j, e) refl
  | inr e ↦ rw (IndexMap.get-swap_remove registry name j, e) refl
]

module _ (encode : PhotonImage → String)
    (answer : AgentContext → AgentValue → Result AgentValue) where
  drop_old-get_tool :
      (old_name : String) (t : Tool) (registry : ToolRegistry) (j : String)
      → get_tool j (drop_old encode answer true old_name t.info.name (register_tool t registry))
        ≡ (if t.info.name == j then some t else if old_name == j then none else get_tool j registry)
  unfolding drop_old
  drop_old-get_tool old_name t registry j = elim (Bool-cases (old_name == t.info.name)) [
    | inl same ↦ rw same (
        ground (
          arith,
          get_tool-register_tool t registry j,
          same,
          eq_iff old_name t.info.name,
          eq_iff t.info.name j,
          eq_iff old_name j,
        ))
    | inr apart ↦ rw apart (
        ground (
          arith,
          get_tool-register_tool t registry j,
          get_tool-unregister_tool old_name (register_tool t registry) j,
          apart,
          eq_iff old_name t.info.name,
          eq_iff t.info.name j,
          eq_iff old_name j,
        ))
  ]

  refresh-get_tool :
      (old_name : String) (agent : PresetToolAgent) (registry : ToolRegistry) (j : String)
      → agent.is_started ≡ true
      → get_tool j (refresh encode answer true old_name agent registry).2 ≡ (
          if agent.name == j
          then some (preset_tool encode answer true agent)
          else if old_name == j
          then none
          else get_tool j registry)
  unfolding refresh preset_tool new_info
  refresh-get_tool old_name agent registry j running =
      rw running (drop_old-get_tool old_name (preset_tool encode answer true agent) registry j)

  refresh-agent :
      (old_name : String) (agent : PresetToolAgent) (registry : ToolRegistry)
      → agent.is_started ≡ true
      → (refresh encode answer true old_name agent registry).1 ≡ agent
  unfolding refresh
  refresh-agent old_name agent registry running = rw running refl

  read_configs-is_started :
      (c : AgentConfigs) (agent : PresetToolAgent)
      → agent.is_started ≡ true
      → (read_configs encode answer true c agent).is_started ≡ true
  unfolding read_configs
  read_configs-is_started c agent running = running

  -- When the configuration of a running agent changes, the registry has the tool under its new name,
  -- no tool under an old name that differs, and the other tools as they were. The agent is in the map
  -- of agents.
  pub configs_changed-get_tool :
      (agent : PresetToolAgent) (c : AgentConfigs) (registry : ToolRegistry) (j : String)
      → agent.configs ≡ some c
      → agent.is_started ≡ true
      → let after = configs_changed encode answer true agent registry in
        get_tool j after.2 ≡ (
          if after.1.name == j
          then some (preset_tool encode answer true after.1)
          else if agent.name == j
          then none
          else get_tool j registry)
  unfolding configs_changed changed
  configs_changed-get_tool agent c registry j configured running =
      let own = record agent { configs = some c } in
      let next = read_configs encode answer true c own in
      let starts = read_configs-is_started c own running in
      rw configured (
        rw (refresh-agent agent.name next registry starts)
          (refresh-get_tool agent.name next registry j starts))
