-- ===== src/Runtime/Edit/Stages.antt =====
-- What the stages of a batch add to the tables of the runtime, and that taking it out restores them.
use modular_agent_core.Prelude.{
  String, ◌≡◌, refl, ◌∙◌, Bool, not, ◌&&◌, Option, none, some, List, [], ◌∷◌, arith, ◌==◌, any,
  length, take, Option-cases, inl, inr, eq_iff, if◌then◌else◌,
}
use modular_agent_core.IndexMap
use modular_agent_core.IndexMap.{IndexMap}
use modular_agent_core.Error.{AgentError, is_ok, Result-cases}
use modular_agent_core.Spec.{AgentSpec, ConnectionSpec, connection_eq, connection_eq→eq}
use modular_agent_core.Network.{add_connection_internal, remove_connection_internal}
use modular_agent_core.Network.Edges.{
  has_edge, add_connection_internal-result, has_edge-add_connection_internal,
  has_edge-remove_connection_internal,
}
use modular_agent_core.Definition.{agent_new}
use modular_agent_core.Preset
use modular_agent_core.Preset.{Preset}
use modular_agent_core.Runtime.{ModularAgent}
use modular_agent_core.Runtime.Exec.{◌>>=◌}
use modular_agent_core.Runtime.Lifecycle.{put_agent, add_agent_internal}
use modular_agent_core.Runtime.Edit.{
  add_batch, connect, connect_batch, undo_agents, undo_connections, connect_if,
}

-- An agent that is added was not there, and one that is refused changes nothing.
pub get-add_agent_internal :
    (id : String) (spec : AgentSpec) (ma : ModularAgent) (j : String)
    → IndexMap.get ma.agents j ≡ (
        if is_ok (add_agent_internal id spec ma).0 && spec.id == j
        then none
        else IndexMap.get (add_agent_internal id spec ma).1.agents j)
unfolding add_agent_internal ◌>>=◌ put_agent
get-add_agent_internal id spec ma j = elim (Option-cases (IndexMap.get ma.agents spec.id)) [
  | inr (old, e) ↦ rw e refl
  | inl e ↦ elim (Result-cases (agent_new ma.defs spec.id spec)) [
    | inl (failure, e') ↦ rw (e, e') refl
    | inr (agent, e') ↦
        rw (e, e')
          (ground (
            arith,
            eq_iff spec.id j,
            IndexMap.get-insert ma.agents spec.id j (record agent { preset_id = id }),
          ))
  ]
]

pub connections-add_agent_internal :
    (id : String) (spec : AgentSpec) (ma : ModularAgent)
    → (add_agent_internal id spec ma).1.connections ≡ ma.connections
unfolding add_agent_internal ◌>>=◌ put_agent
connections-add_agent_internal id spec ma = ground arith

pub has_id : String → AgentSpec → Bool
has_id j agent = agent.id == j

pub get-undo_agents :
    (agents : List AgentSpec) (p : Preset) (ma : ModularAgent) (j : String)
    → IndexMap.get (undo_agents agents (p, ma)).1.agents j
      ≡ (if any (has_id j) agents then none else IndexMap.get ma.agents j)
unfolding undo_agents has_id
get-undo_agents [] p ma j = refl
get-undo_agents (agent ∷ agents) p ma j = ground (
  arith,
  get-undo_agents agents (Preset.remove_agent p agent.id)
      (record ma { agents = IndexMap.swap_remove ma.agents agent.id }) j,
  IndexMap.get-swap_remove ma.agents agent.id j,
)

pub agents-undo_connections :
    (cs : List ConnectionSpec) (p : Preset) (ma : ModularAgent)
    → (undo_connections cs (p, ma)).1.agents ≡ ma.agents
unfolding undo_connections
agents-undo_connections [] p ma = refl
agents-undo_connections (c ∷ cs) p ma = agents-undo_connections cs _ _

pub agents-connect_batch :
    (cs : List ConnectionSpec) (p : Preset) (ma : ModularAgent)
    → (connect_batch cs p ma).runtime.agents ≡ ma.agents
unfolding connect_batch connect
agents-connect_batch [] p ma = refl
agents-connect_batch (c ∷ cs) p ma =
    ground (arith, agents-connect_batch cs (Preset.add_connection p c) (connect c ma).1)

pub connections-undo_agents :
    (agents : List AgentSpec) (p : Preset) (ma : ModularAgent)
    → (undo_agents agents (p, ma)).1.connections ≡ ma.connections
unfolding undo_agents
connections-undo_agents [] p ma = refl
connections-undo_agents (agent ∷ agents) p ma = connections-undo_agents agents _ _

pub connections-add_batch :
    (id : String) (agents : List AgentSpec) (p : Preset) (ma : ModularAgent)
    → (add_batch id agents p ma).runtime.connections ≡ ma.connections
unfolding add_batch
connections-add_batch id [] p ma = refl
connections-add_batch id (agent ∷ agents) p ma =
    elim (Result-cases (add_agent_internal id agent ma).0) [
      | inl (failure, e) ↦ rw (add_batch, e) (connections-add_agent_internal id agent ma)
      | inr (constructed, e) ↦
          rw (add_batch, e)
            (connections-add_batch id agents (Preset.add_agent p constructed)
                (add_agent_internal id agent ma).1
              ∙ connections-add_agent_internal id agent ma)
    ]

-- Without the agents that a batch added, the map of agents reads as before.
pub get-add_batch :
    (id : String) (agents : List AgentSpec) (p : Preset) (ma : ModularAgent) (j : String)
    → (if any (has_id j) (take (length (add_batch id agents p ma).added) agents)
        then none
        else IndexMap.get (add_batch id agents p ma).runtime.agents j)
      ≡ IndexMap.get ma.agents j
unfolding add_batch has_id
get-add_batch id [] p ma j = refl
get-add_batch id (agent ∷ agents) p ma j = elim (Result-cases (add_agent_internal id agent ma).0) [
  | inl (failure, e) ↦ rw (add_batch, e) (ground (arith, get-add_agent_internal id agent ma j))
  | inr (constructed, e) ↦
      rw (add_batch, e)
        (ground (
          arith,
          get-add_agent_internal id agent ma j,
          get-add_batch id agents (Preset.add_agent p constructed)
              (add_agent_internal id agent ma).1 j,
        ))
]

pub has_edge-undo_connections :
    (cs : List ConnectionSpec) (p : Preset) (ma : ModularAgent) (d : ConnectionSpec)
    → has_edge (undo_connections cs (p, ma)).1.connections d
      ≡ (not (any (λ c. connection_eq c d) cs) && has_edge ma.connections d)
unfolding undo_connections
has_edge-undo_connections [] p ma d = refl
has_edge-undo_connections (c ∷ cs) p ma d = ground (
  arith,
  has_edge-undo_connections cs (Preset.remove_connection p c).1
      (record ma { connections = remove_connection_internal c ma.connections }) d,
  has_edge-remove_connection_internal c d ma.connections,
)

pub has_edge-connect_batch :
    (cs : List ConnectionSpec) (p : Preset) (ma : ModularAgent) (d : ConnectionSpec)
    → (not (any (λ c. connection_eq c d) (take (length (connect_batch cs p ma).added) cs))
        && has_edge (connect_batch cs p ma).runtime.connections d)
      ≡ has_edge ma.connections d
unfolding connect_batch connect
has_edge-connect_batch [] p ma d = refl
has_edge-connect_batch (c ∷ cs) p ma d =
    elim (Result-cases (add_connection_internal c ma.connections).0) [
      | inl (failure, e) ↦
          rw (connect_batch, e)
            (ground (
              arith,
              has_edge-add_connection_internal c d ma.connections,
              add_connection_internal-result c ma.connections,
              connection_eq→eq c d,
            ))
      | inr (u, e) ↦
          rw (connect_batch, e)
            (ground (
              arith,
              has_edge-add_connection_internal c d ma.connections,
              add_connection_internal-result c ma.connections,
              connection_eq→eq c d,
              has_edge-connect_batch cs (Preset.add_connection p c) (connect c ma).1 d,
            ))
    ]

pub agents-connect_if :
    (failure : Option AgentError) (cs : List ConnectionSpec) (p : Preset) (ma : ModularAgent)
    → (connect_if failure cs p ma).runtime.agents ≡ ma.agents
unfolding connect_if
agents-connect_if none cs p ma = agents-connect_batch cs p ma
agents-connect_if (some e) cs p ma = refl

pub has_edge-connect_if :
    (failure : Option AgentError) (cs : List ConnectionSpec) (p : Preset) (ma : ModularAgent)
    (d : ConnectionSpec)
    → (not (any (λ c. connection_eq c d) (take (length (connect_if failure cs p ma).added) cs))
        && has_edge (connect_if failure cs p ma).runtime.connections d)
      ≡ has_edge ma.connections d
unfolding connect_if
has_edge-connect_if none cs p ma d = has_edge-connect_batch cs p ma d
has_edge-connect_if (some e) cs p ma d = refl
