-- ===== src/Network.antt =====
-- The routing table of modular_agent.rs: the map `connections` from a source agent to the targets
-- that its outputs go to, and the operations that change it.
pub mod Edges
pub mod WellFormed
mod Tests
use modular_agent_core.Prelude.{
  String, Bool, true, false, not, ◌&&◌, ◌||◌, Option, none, some, List, [], ◌∷◌, ◌++◌, ◌==◌, any,
  retain, if◌then◌else◌,
}
use modular_agent_core.IndexMap
use modular_agent_core.IndexMap.{IndexMap}
use modular_agent_core.Error.{AgentError, connection_already_exists, Result, ok, err}
use modular_agent_core.Spec.{ConnectionSpec}

-- target agent id / source handle / target handle
abbrev pub ConnectionTarget : Type 0
ConnectionTarget = String × String × String

abbrev pub Connections : Type 0
Connections = IndexMap (List ConnectionTarget)

abbrev pub target_of : ConnectionSpec → ConnectionTarget
target_of c = (c.target, c.source_handle, c.target_handle)

abbrev pub matches : ConnectionSpec → ConnectionTarget → Bool
matches c (target, source_handle, target_handle) =
    target == c.target && source_handle == c.source_handle && target_handle == c.target_handle

abbrev pub is_empty : List ConnectionTarget → Bool
is_empty [] = true
is_empty (t ∷ ts) = false

add_to :
    Option (List ConnectionTarget) → ConnectionSpec → Connections → Result (Unit {0}) × Connections
add_to none c m = (ok tt, IndexMap.insert m c.source (target_of c ∷ []))
add_to (some targets) c m =
    if any (matches c) targets
    then (err connection_already_exists, m)
    else (ok tt, IndexMap.insert m c.source (targets ++ target_of c ∷ []))

unfoldable pub add_connection_internal :
    ConnectionSpec → Connections → Result (Unit {0}) × Connections
unfolding add_to
add_connection_internal c m = add_to (IndexMap.get m c.source) c m

remove_from : Option (List ConnectionTarget) → ConnectionSpec → Connections → Connections
remove_from none c m = m
remove_from (some targets) c m =
    let kept = retain (λ t. not (matches c t)) targets in
    let written = IndexMap.insert m c.source kept in
    if is_empty kept then IndexMap.swap_remove written c.source else written

unfoldable pub remove_connection_internal : ConnectionSpec → Connections → Connections
unfolding remove_from
remove_connection_internal c m = remove_from (IndexMap.get m c.source) c m

abbrev pub without_target : String → List ConnectionTarget → List ConnectionTarget
without_target agent_id = retain (λ t. not (t.0 == agent_id))

-- The part of `remove_agent_internal` that clears the routing table.
unfoldable pub remove_agent_edges : String → Connections → Connections
remove_agent_edges agent_id m =
    let swept = IndexMap.map_values (without_target agent_id) m in
    IndexMap.swap_remove (IndexMap.remove_all (IndexMap.keys_where is_empty swept) swept) agent_id

-- The targets of a source, none if it has no entry.
abbrev pub or_nil : Option (List ConnectionTarget) → List ConnectionTarget
or_nil none = []
or_nil (some targets) = targets

unfoldable pub targets_of : Connections → String → List ConnectionTarget
targets_of m source = or_nil (IndexMap.get m source)

unfoldable pub has_connections : Connections → String → String → Bool
unfolding targets_of
has_connections m source_agent port = any (λ t. t.1 == port) (targets_of m source_agent)
