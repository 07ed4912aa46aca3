-- ===== src/Runtime/Presets/Removing.antt =====
-- `remove_preset` of modular_agent.rs takes a preset out, with its agents and its connections.
use modular_agent_core.Prelude.{
  String, ◌≡◌, refl, ap, ◌∙◌, Bool, true, false, not, ◌&&◌, none, some, Bool-cases, inl, inr, List,
  [], ◌∷◌, any, arith, ◌==◌, eq_iff, if◌then◌else◌,
}
use modular_agent_core.IndexMap
use modular_agent_core.IndexMap.{IndexMap, is_some}
use modular_agent_core.Error.{ok}
use modular_agent_core.Spec.{AgentSpec, ConnectionSpec, connection_eq}
use modular_agent_core.Network.{remove_connection_internal}
use modular_agent_core.Network.Edges.{has_edge, has_edge-remove_connection_internal}
use modular_agent_core.Preset.{Preset}
use modular_agent_core.Runtime.{ModularAgent, emit}
use modular_agent_core.Runtime.Exec.{◌>>=◌}
use modular_agent_core.Runtime.Tokens.{cancel_preset_token, remove_preset_token}
use modular_agent_core.Runtime.Lifecycle.{remove_agent_internal}
use modular_agent_core.Runtime.Lifecycle.Removing.{IsStopped, remove_agent_internal-Removed}
use modular_agent_core.Runtime.Presets.{
  put_preset, remove_agents, remove_connections, halt_preset, forget_preset, remove_preset,
}
use modular_agent_core.Runtime.Presets.Names.{torn_down}
use modular_agent_core.Runtime.Presets.Stopping.{
  names_agent, stop_agents-all, stop_agents-there, stop_agents-others, stop_agents-connections,
}
use modular_agent_core.Runtime.Presets.Lookup.{get-remove_preset}

-- The specification names the connection.
abbrev pub names_connection : List ConnectionSpec → ConnectionSpec → Bool
names_connection cs d = any (λ (c : ConnectionSpec). connection_eq c d) cs

-- An agent that the specification names, if it is there.
abbrev pub goes : List AgentSpec → ModularAgent → String → Bool
goes agents ma j = names_agent agents j && is_some (IndexMap.get ma.agents j)

remove_connections-agents :
    (cs : List ConnectionSpec) (ma : ModularAgent) → (remove_connections cs ma).agents ≡ ma.agents
unfolding remove_connections
remove_connections-agents [] ma = refl
remove_connections-agents (c ∷ cs) ma = remove_connections-agents cs _

has_edge-remove_connections :
    (cs : List ConnectionSpec) (d : ConnectionSpec) (ma : ModularAgent)
    → has_edge (remove_connections cs ma).connections d
      ≡ (not (names_connection cs d) && has_edge ma.connections d)
unfolding remove_connections
has_edge-remove_connections [] d ma = refl
has_edge-remove_connections (c ∷ cs) d ma = ground (
  arith,
  has_edge-remove_connections cs d
      (record ma { connections = remove_connection_internal c ma.connections }),
  has_edge-remove_connection_internal c d ma.connections,
)

same-key : (i j : String) → (i == j) ≡ true → i ≡ j
same-key i j e = ground (arith, e, eq_iff i j)

rest-IsStopped :
    (a : AgentSpec) (agents : List AgentSpec) (ma : ModularAgent)
    → ((i : String) → names_agent (a ∷ agents) i ≡ true → IsStopped ma i)
    → (i : String) → names_agent agents i ≡ true
    → IsStopped (remove_agent_internal a.id ma).1 i
rest-IsStopped a agents ma h i named =
    let removed =
      remove_agent_internal-Removed a.id ma (h a.id (ground (arith, eq_iff a.id a.id))) in
    elim (Bool-cases (a.id == i)) [
      | inl same ↦ rw (removed.0 i, same) refl
      | inr apart ↦ rw (removed.0 i, apart) (h i (ground arith))
    ]

-- What the removal of the agents leaves, if each of them was stopped.
get-remove_agents :
    (agents : List AgentSpec) (j : String) (ma : ModularAgent)
    → ((i : String) → names_agent agents i ≡ true → IsStopped ma i)
    → IndexMap.get (remove_agents agents ma).agents j
      ≡ (if names_agent agents j then none else IndexMap.get ma.agents j)
unfolding remove_agents
get-remove_agents [] j ma h = refl
get-remove_agents (a ∷ agents) j ma h =
    let next = (remove_agent_internal a.id ma).1 in
    let removed =
      remove_agent_internal-Removed a.id ma (h a.id (ground (arith, eq_iff a.id a.id))) in
    get-remove_agents agents j next (rest-IsStopped a agents ma h) ∙ ground (arith, removed.0 j)

has_edge-remove_agents :
    (agents : List AgentSpec) (d : ConnectionSpec) (ma : ModularAgent)
    → ((i : String) → names_agent agents i ≡ true → IsStopped ma i)
    → has_edge (remove_agents agents ma).connections d ≡ (
        not (goes agents ma d.source) && not (goes agents ma d.target) && has_edge ma.connections d)
unfolding remove_agents
has_edge-remove_agents [] d ma h = refl
has_edge-remove_agents (a ∷ agents) d ma h =
    let next = (remove_agent_internal a.id ma).1 in
    let removed =
      remove_agent_internal-Removed a.id ma (h a.id (ground (arith, eq_iff a.id a.id))) in
    let there = λ (j : String) (e : (a.id == j) ≡ true).
      ap (λ i. is_some (IndexMap.get ma.agents i)) (same-key a.id j e) in
    has_edge-remove_agents agents d next (rest-IsStopped a agents ma h)
    ∙ ground (
      arith,
      removed.0 d.source,
      removed.0 d.target,
      removed.1 d,
      there d.source,
      there d.target,
      eq_iff a.id d.target,
      eq_iff d.target a.id,
    )

cancel-agents : (id : String) (ma : ModularAgent) → (cancel_preset_token id ma).agents ≡ ma.agents
unfolding cancel_preset_token
cancel-agents id ma = ground arith

cancel-connections :
    (id : String) (ma : ModularAgent) → (cancel_preset_token id ma).connections ≡ ma.connections
unfolding cancel_preset_token
cancel-connections id ma = ground arith

module _ (id : String) (p : Preset) (ma : ModularAgent) where
  halt-IsStopped :
      (i : String) → names_agent p.spec.agents i ≡ true → IsStopped (halt_preset id p ma) i
  unfolding halt_preset put_preset remove_preset_token
  halt-IsStopped i named = stop_agents-all p.spec.agents i (cancel_preset_token p.id ma) named

  halt-there :
      (j : String)
      → is_some (IndexMap.get (halt_preset id p ma).agents j) ≡ is_some (IndexMap.get ma.agents j)
  unfolding halt_preset put_preset remove_preset_token
  halt-there j =
      stop_agents-there p.spec.agents j (cancel_preset_token p.id ma)
      ∙ ap (λ agents. is_some (IndexMap.get agents j)) (cancel-agents p.id ma)

  halt-others :
      (j : String)
      → names_agent p.spec.agents j ≡ false
      → IndexMap.get (halt_preset id p ma).agents j ≡ IndexMap.get ma.agents j
  unfolding halt_preset put_preset remove_preset_token
  halt-others j other =
      stop_agents-others p.spec.agents j (cancel_preset_token p.id ma) other
      ∙ ap (λ agents. IndexMap.get agents j) (cancel-agents p.id ma)

  halt-connections : (halt_preset id p ma).connections ≡ ma.connections
  unfolding halt_preset put_preset remove_preset_token
  halt-connections =
      stop_agents-connections p.spec.agents (cancel_preset_token p.id ma)
      ∙ cancel-connections p.id ma

  get-torn_down :
      (j : String)
      → IndexMap.get (torn_down id p ma).agents j
        ≡ (if names_agent p.spec.agents j then none else IndexMap.get ma.agents j)
  unfolding torn_down
  get-torn_down j =
      ap (λ agents. IndexMap.get agents j)
        (remove_connections-agents p.spec.connections
          (remove_agents p.spec.agents (halt_preset id p ma)))
      ∙ get-remove_agents p.spec.agents j (halt_preset id p ma) halt-IsStopped
      ∙ ground (arith, halt-others j)

  has_edge-torn_down :
      (d : ConnectionSpec)
      → has_edge (torn_down id p ma).connections d ≡ (
          not (names_connection p.spec.connections d)
          && (not (goes p.spec.agents ma d.source)
              && not (goes p.spec.agents ma d.target)
              && has_edge ma.connections d))
  unfolding torn_down
  has_edge-torn_down d =
      has_edge-remove_connections p.spec.connections d
        (remove_agents p.spec.agents (halt_preset id p ma))
      ∙ rw
          (
            has_edge-remove_agents p.spec.agents d (halt_preset id p ma) halt-IsStopped,
            halt-there d.source,
            halt-there d.target,
            halt-connections,
          )
          refl

-- The removal of a preset that is there succeeds. That preset is taken out, and no other: of the agents in the runtime those go that its
-- specification names, whether or not their own stop fails; of the connections those that it names, and
-- those from or to an agent that goes.
pub remove_preset-tables :
    (id : String) (p : Preset) (ma : ModularAgent)
    → IndexMap.get ma.presets id ≡ some p
    → ((remove_preset id ma).0 ≡ ok tt)
      × ((j : String)
          → IndexMap.get (remove_preset id ma).1.presets j
            ≡ (if id == j then none else IndexMap.get ma.presets j))
      × ((j : String)
          → IndexMap.get (remove_preset id ma).1.agents j
            ≡ (if names_agent p.spec.agents j then none else IndexMap.get ma.agents j))
      × ((d : ConnectionSpec)
          → has_edge (remove_preset id ma).1.connections d ≡ (
              not (names_connection p.spec.connections d)
              && (not (goes p.spec.agents ma d.source)
                  && not (goes p.spec.agents ma d.target)
                  && has_edge ma.connections d)))
unfolding remove_preset ◌>>=◌ emit forget_preset remove_preset_token torn_down
remove_preset-tables id p ma found = (
  rw found refl,
  (λ j. get-remove_preset id j ma),
  (λ j. rw found (get-torn_down id p ma j)),
  (λ d. rw found (has_edge-torn_down id p ma d)),
)
