-- ===== src/Network/Tests.antt =====
-- Examples on small routing tables.
use modular_agent_core.Prelude.{◌≡◌, refl, not, ◌&&◌, ◌||◌, none}
use modular_agent_core.IndexMap
use modular_agent_core.Spec.{ConnectionSpec, connection_eq}
use modular_agent_core.Network.{Connections, add_connection_internal, remove_connection_internal}
use modular_agent_core.Network.Edges.{
  has_edge, has_edge-add_connection_internal, has_edge-remove_connection_internal,
}

abbrev link : ConnectionSpec
link = record { source = "1"; source_handle = "out"; target = "2"; target_handle = "in" }

abbrev other : ConnectionSpec
other = record { source = "2"; source_handle = "out"; target = "1"; target_handle = "in" }

abbrev table : Connections
table = (add_connection_internal link IndexMap.empty).1

abbrev two : Connections
two = (add_connection_internal other table).1

has_edge-add_connection_internal_example :
    has_edge (add_connection_internal other table).1 link
    ≡ (connection_eq other link || has_edge table link)
has_edge-add_connection_internal_example = has_edge-add_connection_internal other link table

has_edge-remove_connection_internal_example :
    has_edge (remove_connection_internal link two) other
    ≡ (not (connection_eq link other) && has_edge two other)
has_edge-remove_connection_internal_example = has_edge-remove_connection_internal link other two

-- The last connection of a source leaves no entry behind.
last_connection : IndexMap.get (remove_connection_internal link table) "1" ≡ none
unfolding add_connection_internal remove_connection_internal IndexMap.get IndexMap.insert
    IndexMap.swap_remove IndexMap.empty
last_connection = refl
