-- ===== src/Id/Names.antt =====
-- The connections that `update_ids` of id.rs returns go between the agents that they went between.
use modular_agent_core.Prelude.{
  ℕ, ◌+◌, ◌%◌, ◌^◌, ◌≡◌, refl, String, false, List, [], ◌∷◌, map, arith, eq_iff,
}
use modular_agent_core.Decimal.{to_string}
use modular_agent_core.IndexMap
use modular_agent_core.IndexMap.{IndexMap}
use modular_agent_core.Spec.{AgentSpec}
use modular_agent_core.Id.{new_id, renumber, new_name}
use modular_agent_core.Id.Fresh.{ids_of, holds_id, NoneTwice}

-- An id that no agent of the list has is mapped as before.
get-renumber :
    (agents : List AgentSpec) (ids : IndexMap String) (c : ℕ) (old : String)
    → holds_id old (ids_of agents) ≡ false
    → IndexMap.get (renumber agents ids c).1 old ≡ IndexMap.get ids old
unfolding renumber new_id
get-renumber [] ids c old h = refl
get-renumber (agent ∷ agents) ids c old h = ground (
  arith,
  get-renumber agents (IndexMap.insert ids agent.id (to_string c)) ((c + 1) % 2 ^ 64) old,
  IndexMap.get-insert ids agent.id old (to_string c),
)

-- If no two agents of a specification share an id, the map that redirects its connections sends the id
-- of each agent to the id that this agent gets.
pub new_name-renumber :
    (agents : List AgentSpec) (ids : IndexMap String) (c : ℕ)
    → NoneTwice (ids_of agents)
    → map (new_name (renumber agents ids c).1) (ids_of agents) ≡ ids_of (renumber agents ids c).0
unfolding renumber new_id new_name
new_name-renumber [] ids c h = refl
new_name-renumber (agent ∷ agents) ids c h = ground (
  arith,
  eq_iff agent.id agent.id,
  get-renumber agents (IndexMap.insert ids agent.id (to_string c)) ((c + 1) % 2 ^ 64) agent.id,
  IndexMap.get-insert ids agent.id agent.id (to_string c),
  new_name-renumber agents (IndexMap.insert ids agent.id (to_string c)) ((c + 1) % 2 ^ 64) h.1,
)
