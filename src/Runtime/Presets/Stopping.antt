-- ===== src/Runtime/Presets/Stopping.antt =====
-- The loop of modular_agent.rs that stops the agents of a preset, and the map of agents.
use modular_agent_core.Prelude.{
  String, ◌≡◌, refl, ap, ◌∙◌, Bool, true, false, Bool-cases, inl, inr, List, [], ◌∷◌, any, arith,
  ◌==◌, eq_iff,
}
use modular_agent_core.IndexMap
use modular_agent_core.IndexMap.{IndexMap, is_some}
use modular_agent_core.Spec.{AgentSpec}
use modular_agent_core.Runtime.{ModularAgent}
use modular_agent_core.Runtime.Lifecycle.{stop_agent}
use modular_agent_core.Runtime.Lifecycle.Frame.{stop_agent-Keeps}
use modular_agent_core.Runtime.Lifecycle.Removing.{IsStopped, stop_agent-Halted}
use modular_agent_core.Runtime.Presets.{stop_agents}

-- The specification names the agent.
abbrev pub names_agent : List AgentSpec → String → Bool
names_agent agents j = any (λ (a : AgentSpec). a.id == j) agents

-- One stop more leaves every agent that was not started so.
stop_agent-IsStopped :
    (id j : String) (ma : ModularAgent) → IsStopped ma j → IsStopped (stop_agent id ma).1 j
stop_agent-IsStopped id j ma h =
    let halted = stop_agent-Halted id ma in
    elim (Bool-cases (id == j)) [
      | inl same ↦ let own : id ≡ j = ground (arith, same, eq_iff id j) in rw⁻¹ own (halted.0)
      | inr apart ↦ rw (halted.1 j apart) h
    ]

stop_agents-IsStopped :
    (agents : List AgentSpec) (j : String) (ma : ModularAgent)
    → IsStopped ma j
    → IsStopped (stop_agents agents ma) j
unfolding stop_agents
stop_agents-IsStopped [] j ma h = h
stop_agents-IsStopped (a ∷ agents) j ma h =
    stop_agents-IsStopped agents j (stop_agent a.id ma).1 (stop_agent-IsStopped a.id j ma h)

-- All that the list names are stopped.
pub stop_agents-all :
    (agents : List AgentSpec) (j : String) (ma : ModularAgent)
    → names_agent agents j ≡ true
    → IsStopped (stop_agents agents ma) j
unfolding stop_agents
stop_agents-all [] j ma = λ h. absurd (cc)
stop_agents-all (a ∷ agents) j ma = elim (Bool-cases (a.id == j)) [
  | inl same ↦ λ h.
      let own : a.id ≡ j = ground (arith, same, eq_iff a.id j) in
      stop_agents-IsStopped agents j (stop_agent a.id ma).1
        (rw⁻¹ own ((stop_agent-Halted a.id ma).0))
  | inr apart ↦ rw apart (λ h. stop_agents-all agents j (stop_agent a.id ma).1 h)
]

-- A stop takes no agent out, and changes none that it does not name.
stop_agent-there :
    (id j : String) (ma : ModularAgent)
    → is_some (IndexMap.get (stop_agent id ma).1.agents j) ≡ is_some (IndexMap.get ma.agents j)
stop_agent-there id j ma =
    let halted = stop_agent-Halted id ma in
    elim (Bool-cases (id == j)) [
      | inl same ↦ let own : id ≡ j = ground (arith, same, eq_iff id j) in rw⁻¹ own (halted.2)
      | inr apart ↦ ap is_some (halted.1 j apart)
    ]

pub stop_agents-there :
    (agents : List AgentSpec) (j : String) (ma : ModularAgent)
    → is_some (IndexMap.get (stop_agents agents ma).agents j) ≡ is_some (IndexMap.get ma.agents j)
unfolding stop_agents
stop_agents-there [] j ma = refl
stop_agents-there (a ∷ agents) j ma =
    stop_agents-there agents j (stop_agent a.id ma).1 ∙ stop_agent-there a.id j ma

pub stop_agents-others :
    (agents : List AgentSpec) (j : String) (ma : ModularAgent)
    → names_agent agents j ≡ false
    → IndexMap.get (stop_agents agents ma).agents j ≡ IndexMap.get ma.agents j
unfolding stop_agents
stop_agents-others [] j ma h = refl
stop_agents-others (a ∷ agents) j ma h =
    stop_agents-others agents j (stop_agent a.id ma).1 (ground arith)
    ∙ (stop_agent-Halted a.id ma).1 j (ground arith)

pub stop_agents-connections :
    (agents : List AgentSpec) (ma : ModularAgent)
    → (stop_agents agents ma).connections ≡ ma.connections
unfolding stop_agents
stop_agents-connections [] ma = refl
stop_agents-connections (a ∷ agents) ma =
    stop_agents-connections agents (stop_agent a.id ma).1
    ∙ ap (λ t. t.1) ((stop_agent-Keeps a.id).at ma)
