-- ===== src/Runtime/Lifecycle/Frame.antt =====
-- The operations of modular_agent.rs on one agent leave the presets and their names alone, and most of them the routing
-- table too.
use modular_agent_core.Prelude.{String, ◌≡◌, refl, ap, arith}
use modular_agent_core.IndexMap.{IndexMap}
use modular_agent_core.Spec.{AgentSpec}
use modular_agent_core.Network.{Connections}
use modular_agent_core.Preset.{Preset}
use modular_agent_core.Agent.{Agent, AgentDefinition}
use modular_agent_core.Runtime.{ModularAgent}
use modular_agent_core.Runtime.Exec.{◌>>=◌}
use modular_agent_core.Runtime.Exec.Keeps.{
  Keeps, Keeps-find, Keeps-modify, Keeps-bind, Keeps-ap, keeps_rules,
}
use modular_agent_core.Runtime.Tokens.{create_agent_token, take_agent_token}
use modular_agent_core.Runtime.Lifecycle.{
  put_agent, add_agent_internal, spawn, start_agent, close_sender, stop_if_started, stop_agent,
  remove_agent_internal,
}

-- The presets with the names that lead to them.
abbrev pub Registry : Type 0
Registry = IndexMap Preset × IndexMap String

abbrev pub registry : ModularAgent → Registry
registry ma = (ma.presets, ma.preset_names)

-- Those with the routing table.
abbrev pub Tables : Type 0
Tables = Registry × Connections

abbrev pub tables : ModularAgent → Tables
tables ma = (registry ma, ma.connections)

pub tables-add_agent_internal :
    (id : String) (spec : AgentSpec) (ma : ModularAgent)
    → tables (add_agent_internal id spec ma).1 ≡ tables ma
unfolding add_agent_internal ◌>>=◌
tables-add_agent_internal id spec ma = ground arith

tables-take_agent_token :
    (id : String) (ma : ModularAgent) → tables (take_agent_token id ma) ≡ tables ma
unfolding take_agent_token
tables-take_agent_token id ma = ground arith

tables-close_sender : (id : String) (ma : ModularAgent) → tables (close_sender id ma) ≡ tables ma
unfolding close_sender
tables-close_sender id ma = ground arith

tables-create_agent_token :
    (preset_id id : String) (ma : ModularAgent)
    → tables (create_agent_token preset_id id ma).1 ≡ tables ma
unfolding create_agent_token
tables-create_agent_token preset_id id ma = ground arith

tables-spawn :
    (id : String) (agent : Agent) (def : AgentDefinition) (ma : ModularAgent)
    → tables (spawn id agent def ma) ≡ tables ma
unfolding spawn
tables-spawn id agent def ma = tables-create_agent_token agent.preset_id id _

pub start_agent-Keeps : (id : String) → Keeps tables (start_agent id)
unfolding start_agent
start_agent-Keeps id = Keeps-bind _ _ (Keeps-find _ _) (λ agent.
    Keeps-bind _ _ (Keeps-find _ _)
      (λ def. Keeps-modify _ (λ ma. ground (arith, tables-spawn id agent def ma))))

stop_if_started-Keeps : (id : String) (agent : Agent) → Keeps tables (stop_if_started id agent)
unfolding stop_if_started put_agent ◌>>=◌
stop_if_started-Keeps id agent = record { at = λ ma. ground arith }

pub stop_agent-Keeps : (id : String) → Keeps tables (stop_agent id)
unfolding stop_agent
stop_agent-Keeps id =
    search (keeps_rules, stop_if_started-Keeps, tables-close_sender, tables-take_agent_token)

pub registry-add_agent_internal :
    (id : String) (spec : AgentSpec) (ma : ModularAgent)
    → registry (add_agent_internal id spec ma).1 ≡ registry ma
registry-add_agent_internal id spec ma = ap (λ t. t.0) (tables-add_agent_internal id spec ma)

pub remove_agent_internal-Keeps : (id : String) → Keeps registry (remove_agent_internal id)
unfolding remove_agent_internal
remove_agent_internal-Keeps id =
    Keeps-bind _ _ (Keeps-ap (stop_agent id) (λ t. t.0) (stop_agent-Keeps id))
      (λ _. Keeps-bind _ _ (Keeps-modify _ (λ ma. refl)) (λ _. Keeps-modify _ (λ ma. refl)))
