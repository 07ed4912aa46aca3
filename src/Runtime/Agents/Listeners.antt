-- ===== src/Runtime/Agents/Listeners.antt =====
-- The table of named channels in modular_agent.rs: who listens after an agent starts or stops.
use modular_agent_core.Prelude.{
  String, ◌≡◌, refl, ap, ◌∙◌, Bool, not, ◌&&◌, ◌||◌, Option, none, some, Option-cases, inl, inr,
  List, [], ◌∷◌, ◌++◌, any, any-append, any-retain, retain, arith, ◌==◌, eq_iff,
}
use modular_agent_core.IndexMap
use modular_agent_core.IndexMap.{IndexMap}
use modular_agent_core.Agent.{
  Agent, Behaviour, start, stop, external_output, external_input, local_output, local_input, custom,
}
use modular_agent_core.Runtime.Channels.{register, unregister}
use modular_agent_core.Runtime.Agents.{
  Channels, listens_to, join, leave, start_hook, stop_hook, finish_stop, agent_start, agent_stop,
}

abbrev ids_in : Option (List String) → List String
ids_in none = []
ids_in (some ids) = ids

-- The agent listens to the channel.
unfoldable pub listens : Channels → String → String → Bool
listens m channel id = any (λ x. x == id) (ids_in (IndexMap.get m channel))

-- Registering an agent with a channel makes it listen there, and changes nothing else.
pub listens-register :
    (channel id : String) (m : Channels) (other id' : String)
    → listens (register channel id m) other id'
      ≡ ((channel == other && id == id') || listens m other id')
unfolding listens register
listens-register channel id m other id' = elim (Option-cases (IndexMap.get m channel)) [
  | inl e ↦
      rw (e, register)
        (ground (arith, eq_iff channel other, IndexMap.get-insert m channel other (id ∷ [])))
  | inr (nodes, e) ↦
      rw (e, register)
        (ground (
          arith,
          eq_iff channel other,
          IndexMap.get-insert m channel other (nodes ++ id ∷ []),
          any-append (λ x. x == id') nodes (id ∷ []),
        ))
]

-- Unregistering an agent from a channel takes it out there, and changes nothing else.
pub listens-unregister :
    (channel id : String) (m : Channels) (other id' : String)
    → listens (unregister channel id m) other id'
      ≡ (not (channel == other && id == id') && listens m other id')
unfolding listens unregister
listens-unregister channel id m other id' = elim (Option-cases (IndexMap.get m channel)) [
  | inl e ↦ rw (e, unregister) (ground (arith, eq_iff channel other))
  | inr (nodes, e) ↦
      rw (e, unregister)
        (ground (
          arith,
          eq_iff channel other,
          eq_iff id id',
          eq_iff id' id,
          IndexMap.get-insert m channel other (retain (λ x. not (x == id)) nodes),
          any-retain (λ x. x == id') (λ x. not (x == id)) (not (id' == id)) nodes
              (λ x h. ap (λ y. not (y == id)) ((eq_iff x id').0 h)),
        ))
]

start_hook-eq :
    (b : Behaviour) (agent : Agent) (channel : String) (m : Channels)
    → agent.behaviour ≡ b
    → listens_to agent ≡ some channel
    → (start_hook b agent m).2 ≡ register channel agent.id m
unfolding start_hook join listens_to
start_hook-eq (external_output name) agent channel m same h = ground arith
start_hook-eq (external_input name) agent channel m same h = ground arith
start_hook-eq (local_output name) agent channel m same h = ground arith
start_hook-eq (local_input name) agent channel m same h = ground arith
start_hook-eq (custom c) agent channel m same h = ground arith

stop_hook-eq :
    (b : Behaviour) (agent : Agent) (channel : String) (m : Channels)
    → agent.behaviour ≡ b
    → listens_to agent ≡ some channel
    → (finish_stop (stop_hook b agent m)).2 ≡ unregister channel agent.id m
unfolding stop_hook leave listens_to finish_stop
stop_hook-eq (external_output name) agent channel m same h = ground arith
stop_hook-eq (external_input name) agent channel m same h = ground arith
stop_hook-eq (local_output name) agent channel m same h = ground arith
stop_hook-eq (local_input name) agent channel m same h = ground arith
stop_hook-eq (custom c) agent channel m same h = ground arith

-- An agent that listens to a channel does so after it was started, and nobody else's channels change.
pub listens-agent_start :
    (agent : Agent) (channel : String) (m : Channels) (other id' : String)
    → listens_to agent ≡ some channel
    → listens (agent_start agent m).2 other id'
      ≡ ((channel == other && agent.id == id') || listens m other id')
unfolding agent_start listens_to
listens-agent_start agent channel m other id' h =
    let started = record agent { status = start } in
    ap (λ t. listens t other id') (start_hook-eq agent.behaviour started channel m refl h)
    ∙ listens-register channel agent.id m other id'

-- It no longer listens after it was stopped, and nobody else's channels change.
pub listens-agent_stop :
    (agent : Agent) (channel : String) (m : Channels) (other id' : String)
    → listens_to agent ≡ some channel
    → listens (agent_stop agent m).2 other id'
      ≡ (not (channel == other && agent.id == id') && listens m other id')
unfolding agent_stop listens_to
listens-agent_stop agent channel m other id' h =
    let stopped = record agent { status = stop } in
    ap (λ t. listens t other id') (stop_hook-eq agent.behaviour stopped channel m refl h)
    ∙ listens-unregister channel agent.id m other id'
