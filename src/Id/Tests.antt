-- ===== src/Id/Tests.antt =====
-- Examples of new ids.
use modular_agent_core.Prelude.{none, false, List, [], ◌∷◌, arith}
use modular_agent_core.IndexMap
use modular_agent_core.Spec.{AgentSpec, ConnectionSpec}
use modular_agent_core.Id.{update_ids}
use modular_agent_core.Id.Fresh.{ids_of, NoneTwice, update_ids-NoneTwice}

abbrev agent : AgentSpec
agent = record {
  id = "a";
  def_name = "output";
  inputs = none;
  outputs = none;
  configs = none;
  config_specs = none;
  disabled = false;
  extensions = IndexMap.empty;
}

abbrev pair : List AgentSpec
pair = agent ∷ record agent { id = "b" } ∷ []

abbrev links : List ConnectionSpec
links = record { source = "a"; source_handle = "out"; target = "b"; target_handle = "in" } ∷ []

update_ids-NoneTwice_example : NoneTwice (ids_of (update_ids pair links 7).0)
update_ids-NoneTwice_example = update_ids-NoneTwice pair links 7 (omega arith)
