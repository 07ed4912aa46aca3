-- ===== src/Id.antt =====
-- id.rs. The counter starts at 1; `fetch_add` wraps round at 2^64.
pub mod Fresh
pub mod Names
mod Tests
use modular_agent_core.Prelude.{ℕ, ◌+◌, ◌%◌, ◌^◌, String, none, some, List, [], ◌∷◌, map}
use modular_agent_core.Decimal.{to_string}
use modular_agent_core.IndexMap
use modular_agent_core.IndexMap.{IndexMap}
use modular_agent_core.Spec.{AgentSpec, ConnectionSpec}

unfoldable pub new_id : ℕ → String × ℕ
new_id counter = (to_string counter, (counter + 1) % 2 ^ 64)

-- The agents with their new ids, the map from the old ids, and the counter.
unfoldable pub renumber :
    List AgentSpec → IndexMap String → ℕ → List AgentSpec × IndexMap String × ℕ
renumber [] ids counter = ([], ids, counter)
renumber (agent ∷ agents) ids counter =
    let (id, counter') = new_id counter in
    let (rest, ids', counter'') = renumber agents (IndexMap.insert ids agent.id id) counter' in
    (record agent { id = id } ∷ rest, ids', counter'')

unfoldable pub new_name : IndexMap String → String → String
new_name ids old = elim (IndexMap.get ids old) [ none ↦ old | some id ↦ id ]

unfoldable pub redirect : IndexMap String → ConnectionSpec → ConnectionSpec
unfolding new_name
redirect ids c = record c { source = new_name ids c.source; target = new_name ids c.target }

unfoldable pub update_ids :
    List AgentSpec → List ConnectionSpec → ℕ → List AgentSpec × List ConnectionSpec × ℕ
update_ids agents connections counter =
    let (new_agents, ids, counter') = renumber agents IndexMap.empty counter in
    (new_agents, map (redirect ids) connections, counter')
