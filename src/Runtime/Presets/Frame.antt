-- ===== src/Runtime/Presets/Frame.antt =====
-- The loops over a preset's agents and connections leave the tables of presets alone.
use modular_agent_core.Prelude.{String, ◌≡◌, refl, ap, ◌∙◌, List, [], ◌∷◌, arith}
use modular_agent_core.Spec.{AgentSpec, ConnectionSpec}
use modular_agent_core.Runtime.{ModularAgent}
use modular_agent_core.Runtime.Tokens.{cancel_preset_token}
use modular_agent_core.Runtime.Lifecycle.Frame.{
  registry, registry-add_agent_internal, start_agent-Keeps, stop_agent-Keeps,
  remove_agent_internal-Keeps,
}
use modular_agent_core.Runtime.Presets.{
  add_agents, add_connections, start_agents, stop_agents, remove_agents, remove_connections,
}

pub registry-add_agents :
    (id : String) (agents : List AgentSpec) (ma : ModularAgent)
    → registry (add_agents id agents ma) ≡ registry ma
unfolding add_agents
registry-add_agents id [] ma = refl
registry-add_agents id (agent ∷ agents) ma =
    registry-add_agents id agents _ ∙ registry-add_agent_internal id agent ma

pub registry-add_connections :
    (cs : List ConnectionSpec) (ma : ModularAgent) → registry (add_connections cs ma) ≡ registry ma
unfolding add_connections
registry-add_connections [] ma = refl
registry-add_connections (c ∷ cs) ma = registry-add_connections cs _

pub registry-start_agents :
    (agents : List AgentSpec) (ma : ModularAgent) → registry (start_agents agents ma) ≡ registry ma
unfolding start_agents
registry-start_agents [] ma = refl
registry-start_agents (agent ∷ agents) ma =
    registry-start_agents agents _
    ∙ ground (arith, ap (λ t. t.0) ((start_agent-Keeps agent.id).at ma))

pub registry-stop_agents :
    (agents : List AgentSpec) (ma : ModularAgent) → registry (stop_agents agents ma) ≡ registry ma
unfolding stop_agents
registry-stop_agents [] ma = refl
registry-stop_agents (agent ∷ agents) ma =
    registry-stop_agents agents _ ∙ ap (λ t. t.0) ((stop_agent-Keeps agent.id).at ma)

pub registry-remove_agents :
    (agents : List AgentSpec) (ma : ModularAgent) → registry (remove_agents agents ma) ≡ registry ma
unfolding remove_agents
registry-remove_agents [] ma = refl
registry-remove_agents (agent ∷ agents) ma =
    registry-remove_agents agents _ ∙ (remove_agent_internal-Keeps agent.id).at ma

pub registry-remove_connections :
    (cs : List ConnectionSpec) (ma : ModularAgent)
    → registry (remove_connections cs ma) ≡ registry ma
unfolding remove_connections
registry-remove_connections [] ma = refl
registry-remove_connections (c ∷ cs) ma = registry-remove_connections cs _

pub registry-cancel_preset_token :
    (id : String) (ma : ModularAgent) → registry (cancel_preset_token id ma) ≡ registry ma
unfolding cancel_preset_token
registry-cancel_preset_token id ma = ground arith
