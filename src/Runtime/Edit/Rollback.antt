-- ===== src/Runtime/Edit/Rollback.antt =====
-- A batch of agents and connections that fails leaves nothing behind in the tables of the runtime.
use modular_agent_core.Prelude.{
  String, ◌≡◌, refl, Option, none, some, List, arith, length, take, Option-cases, inl, inr,
}
use modular_agent_core.IndexMap
use modular_agent_core.IndexMap.{IndexMap}
use modular_agent_core.Error.{AgentError, err, ok≢err}
use modular_agent_core.Spec.{AgentSpec, ConnectionSpec}
use modular_agent_core.Network.Edges.{has_edge}
use modular_agent_core.Id.{update_ids}
use modular_agent_core.Preset.{Preset}
use modular_agent_core.Runtime.{ModularAgent}
use modular_agent_core.Runtime.Exec.{◌>>=◌}
use modular_agent_core.Runtime.Presets.{put_preset}
use modular_agent_core.Runtime.Edit.{
  Batch, add_batch, undo_agents, undo_connections, connect_if, settle, run_batches,
  add_agents_and_connections,
}
use modular_agent_core.Runtime.Edit.Stages.{
  get-undo_agents, agents-undo_connections, connections-undo_agents, connections-add_batch,
  get-add_batch, has_edge-undo_connections, agents-connect_if, has_edge-connect_if,
}

-- The tables of a runtime read as those of another.
pub record SameTables (ma ma' : ModularAgent) : Type 0 where
  pub agents : (id : String) → IndexMap.get ma.agents id ≡ IndexMap.get ma'.agents id
  pub connections : (c : ConnectionSpec) → has_edge ma.connections c ≡ has_edge ma'.connections c

module _ (id : String) (agents : List AgentSpec) (cs : List ConnectionSpec) (p : Preset)
    (ma : ModularAgent) where
  first : Batch AgentSpec
  first = add_batch id agents p ma

  second : Batch ConnectionSpec
  unfolding first
  second = connect_if first.failure cs first.preset first.runtime

  undone : Preset × ModularAgent
  unfolding first second
  undone =
      undo_agents (take (length first.added) agents)
        (undo_connections (take (length second.added) cs) (second.preset, second.runtime))

  undone-SameTables : SameTables undone.1 ma
  unfolding undone second first
  undone-SameTables =
      let cs' = take (length second.added) cs in
      let (q, ma') = undo_connections cs' (second.preset, second.runtime) in
      record {
        agents = λ j. ground (
          arith,
          get-undo_agents (take (length first.added) agents) q ma' j,
          agents-undo_connections cs' second.preset second.runtime,
          agents-connect_if first.failure cs first.preset first.runtime,
          get-add_batch id agents p ma j,
        );
        connections = λ d. ground (
          arith,
          connections-undo_agents (take (length first.added) agents) q ma',
          has_edge-undo_connections cs' second.preset second.runtime d,
          has_edge-connect_if first.failure cs first.preset first.runtime d,
          connections-add_batch id agents p ma,
        );
      }

  settle-SameTables :
      (failure : Option AgentError) (e : AgentError)
      → (settle failure id agents cs first second).0 ≡ err e
      → SameTables (settle failure id agents cs first second).1 ma
  unfolding settle undone put_preset
  settle-SameTables none e failed = elim (ok≢err failed) [ ]
  settle-SameTables (some failure) e failed = record {
    agents = λ j. undone-SameTables.agents j;
    connections = λ d. undone-SameTables.connections d;
  }

-- If a batch of agents and connections is refused, every agent and every connection of the runtime
-- reads as before the call.
pub add_agents_and_connections-SameTables :
    (id : String) (agents : List AgentSpec) (cs : List ConnectionSpec) (ma : ModularAgent)
    (e : AgentError)
    → (add_agents_and_connections id agents cs ma).0 ≡ err e
    → SameTables (add_agents_and_connections id agents cs ma).1 ma
unfolding add_agents_and_connections ◌>>=◌ run_batches first second
add_agents_and_connections-SameTables id agents cs ma e failed =
    elim (Option-cases (IndexMap.get ma.presets id)) [
      | inl missing ↦ rw missing (record { agents = λ j. refl; connections = λ d. refl })
      | inr (p, found) ↦
          let (agents', cs', counter) = update_ids agents cs ma.id_counter in
          let ma' = record ma { id_counter = counter } in
          let tried = second id agents' cs' p ma' in
          let same = settle-SameTables id agents' cs' p ma' tried.failure e (ground arith) in
          rw found (record { agents = λ j. same.agents j; connections = λ d. same.connections d })
    ]
