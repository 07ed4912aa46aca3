-- ===== src/Runtime/Lifecycle/Removing.antt =====
-- What `stop_agent` and `remove_agent_internal` of modular_agent.rs do to the map of agents and to the routing
-- table.
use modular_agent_core.Prelude.{
  String, ◌≡◌, refl, sym, ap, ◌∙◌, Bool, true, false, not, ◌&&◌, Option, none, some, Option-cases,
  Bool-cases, inl, inr, arith, ◌==◌, eq_iff, if◌then◌else◌,
}
use modular_agent_core.IndexMap
use modular_agent_core.IndexMap.{IndexMap, is_some}
use modular_agent_core.Error.{agent_not_found, ok, err}
use modular_agent_core.Spec.{ConnectionSpec}
use modular_agent_core.Network.{Connections, remove_agent_edges}
use modular_agent_core.Network.Edges.{has_edge, has_edge-remove_agent_edges}
use modular_agent_core.Agent.{Agent, AgentStatus, init, start, stop}
use modular_agent_core.Runtime.{ModularAgent}
use modular_agent_core.Runtime.Exec.{Action, modify, ◌>>=◌, ◌>>◌}
use modular_agent_core.Runtime.Tokens.{take_agent_token}
use modular_agent_core.Runtime.Agents.{agent_stop}
use modular_agent_core.Runtime.Agents.Stopped.{is_stopped, agent_stop-stopped}
use modular_agent_core.Runtime.Lifecycle.{
  put_agent, find_agent, is_started, close_sender, stop_if_started, stop_agent,
  remove_agent_internal,
}

is_started-is_stopped : (s : AgentStatus) → is_started s ≡ not (is_stopped s)
unfolding is_started
is_started-is_stopped init = refl
is_started-is_stopped start = refl
is_started-is_stopped stop = refl

-- The agent, if it is there, is not started.
abbrev stopped : Option Agent → Bool
stopped none = true
stopped (some agent) = is_stopped agent.status

abbrev pub IsStopped : ModularAgent → String → Type 0
IsStopped ma id = stopped (IndexMap.get ma.agents id) ≡ true

-- What is left when the sender and the token of the agent were taken.
abbrev taken : String → ModularAgent → ModularAgent
taken id ma = take_agent_token id (close_sender id ma)

abbrev halt : String → Action (Unit {0})
halt id = do agent ← find_agent id; stop_if_started id agent

abbrev remove : String → Action (Unit {0})
remove id = do
  halt id
  modify (λ ma. record ma { connections = remove_agent_edges id ma.connections })
  modify (λ ma. record ma { agents = IndexMap.swap_remove ma.agents id })

taken-agents : (id : String) (ma : ModularAgent) → (taken id ma).agents ≡ ma.agents
unfolding take_agent_token close_sender
taken-agents id ma = ground arith

taken-connections : (id : String) (ma : ModularAgent) → (taken id ma).connections ≡ ma.connections
unfolding take_agent_token close_sender
taken-connections id ma = ground arith

-- Every other agent is as before, and the agent is there if it was and is not started.
abbrev Halted : String → ModularAgent → ModularAgent → Type 0
Halted id ma next =
    IsStopped next id
    × ((j : String) → (id == j) ≡ false → IndexMap.get next.agents j ≡ IndexMap.get ma.agents j)
    × (is_some (IndexMap.get next.agents id) ≡ is_some (IndexMap.get ma.agents id))

same-Halted : (id : String) (ma : ModularAgent) → IsStopped ma id → Halted id ma ma
same-Halted id ma h = (h, (λ j apart. refl), refl)

halt-stopped :
    (id : String) (ma : ModularAgent) (agent : Agent)
    → IndexMap.get ma.agents id ≡ some agent
    → is_stopped agent.status ≡ true
    → halt id ma ≡ (ok tt, ma)
unfolding ◌>>=◌ stop_if_started
halt-stopped id ma agent e idle = rw (e, is_started-is_stopped agent.status, idle) refl

halt-absent :
    (id : String) (ma : ModularAgent)
    → IndexMap.get ma.agents id ≡ none
    → halt id ma ≡ (err (agent_not_found id), ma)
unfolding ◌>>=◌
halt-absent id ma e = rw e refl

halt-Halted : (id : String) (ma : ModularAgent) → Halted id ma (halt id ma).1
unfolding ◌>>=◌ stop_if_started put_agent
halt-Halted id ma = elim (Option-cases (IndexMap.get ma.agents id)) [
  | inl e ↦ rw (halt-absent id ma e) (same-Halted id ma (rw e refl))
  | inr (agent, e) ↦ elim (Bool-cases (is_stopped agent.status)) [
    | inl idle ↦ rw (halt-stopped id ma agent e idle) (same-Halted id ma (rw e idle))
    | inr runs ↦
        let left = (agent_stop agent ma.external_input_agents).1 in
        rw (e, is_started-is_stopped agent.status, runs)
          (
            ground (
              arith,
              IndexMap.get-insert ma.agents id id left,
              eq_iff id id,
              agent_stop-stopped agent ma.external_input_agents,
            ),
            (λ j apart. ground (arith, IndexMap.get-insert ma.agents id j left, apart)),
            ground (arith, IndexMap.get-insert ma.agents id id left, eq_iff id id, e),
          )
  ]
]

-- After an agent is stopped it is not started, whether or not its own stop succeeds.
pub stop_agent-Halted :
    (id : String) (ma : ModularAgent)
    → IsStopped (stop_agent id ma).1 id
      × ((j : String)
          → (id == j) ≡ false
          → IndexMap.get (stop_agent id ma).1.agents j ≡ IndexMap.get ma.agents j)
      × (is_some (IndexMap.get (stop_agent id ma).1.agents id)
          ≡ is_some (IndexMap.get ma.agents id))
unfolding stop_agent ◌>>=◌
stop_agent-Halted id ma =
    let h = halt-Halted id (taken id ma) in
    let same = taken-agents id ma in
    (
      h.0,
      (λ j apart. h.1 j apart ∙ ap (λ agents. IndexMap.get agents j) same),
      h.2 ∙ ap (λ agents. is_some (IndexMap.get agents id)) same,
    )

absent-same :
    (agents : IndexMap Agent) (id j : String)
    → IndexMap.get agents id ≡ none
    → IndexMap.get agents j ≡ (if id == j then none else IndexMap.get agents j)
absent-same agents id j e = elim (Bool-cases (id == j)) [
  | inl same ↦
      let own : id ≡ j = ground (arith, same, eq_iff id j) in
      rw same (sym (ap (IndexMap.get agents) own) ∙ e)
  | inr apart ↦ rw apart refl
]

-- What a removal of the agent leaves.
abbrev Removed : String → ModularAgent → ModularAgent → Type 0
Removed id ma next =
    ((j : String)
      → IndexMap.get next.agents j ≡ (if id == j then none else IndexMap.get ma.agents j))
    × ((d : ConnectionSpec)
        → has_edge next.connections d ≡ (
            if is_some (IndexMap.get ma.agents id)
            then not (id == d.source) && not (d.target == id) && has_edge ma.connections d
            else has_edge ma.connections d))

remove-Removed :
    (id : String) (ma : ModularAgent) → IsStopped ma id → Removed id ma (remove id ma).1
unfolding ◌>>=◌ stop_if_started
remove-Removed id ma = elim (Option-cases (IndexMap.get ma.agents id)) [
  | inl e ↦ rw e (λ h. ((λ j. absent-same ma.agents id j e), (λ d. refl)))
  | inr (agent, e) ↦ rw e (λ h.
      rw (is_started-is_stopped agent.status, h)
        (
          (λ j. IndexMap.get-swap_remove ma.agents id j),
          (λ d. has_edge-remove_agent_edges id d ma.connections),
        ))
]

-- An agent that is not started is removed, with the connections from it and to it; if it is not there
-- nothing changes.
pub remove_agent_internal-Removed :
    (id : String) (ma : ModularAgent)
    → IsStopped ma id
    → ((j : String)
        → IndexMap.get (remove_agent_internal id ma).1.agents j
          ≡ (if id == j then none else IndexMap.get ma.agents j))
      × ((d : ConnectionSpec)
          → has_edge (remove_agent_internal id ma).1.connections d ≡ (
              if is_some (IndexMap.get ma.agents id)
              then not (id == d.source) && not (d.target == id) && has_edge ma.connections d
              else has_edge ma.connections d))
unfolding remove_agent_internal stop_agent ◌>>=◌
remove_agent_internal-Removed id ma h =
    let same = taken-agents id ma in
    let idle : IsStopped (taken id ma) id =
      ap (λ agents. stopped (IndexMap.get agents id)) same ∙ h in
    let removed = remove-Removed id (taken id ma) idle in
    (
      (λ j. removed.0 j ∙ ap (λ agents. if id == j then none else IndexMap.get agents j) same),
      (λ d.
          removed.1 d
          ∙ ap
              (λ (t : IndexMap Agent × Connections).
                if is_some (IndexMap.get t.0 id)
                then not (id == d.source) && not (d.target == id) && has_edge t.1 d
                else has_edge t.1 d)
              (let edges = taken-connections id ma in cc)),
    )
