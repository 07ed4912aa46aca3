-- ===== src/Runtime/Tests.antt =====
-- Examples on a runtime with one kind of agent.
use modular_agent_core.Prelude.{
  String, ◌≡◌, refl, false, not, ◌&&◌, ◌==◌, if◌then◌else◌, none, some, [], ◌∷◌, ◌++◌, get_elem?,
}
use modular_agent_core.IndexMap
use modular_agent_core.IndexMap.{IndexMap}
use modular_agent_core.Error.{unknown_def_name, ok, err}
use modular_agent_core.Value.{AgentValue}
use modular_agent_core.Context.{AgentContext}
use modular_agent_core.Spec.{AgentSpec, ConnectionSpec, PresetSpec}
use modular_agent_core.Network.{add_connection_internal, targets_of}
use modular_agent_core.Agent.{AgentMessage, AgentDefinition, external_output, agent_data_new}
use modular_agent_core.Runtime.{ModularAgent, new}
use modular_agent_core.Runtime.Agents.{new_external}
use modular_agent_core.Runtime.Exec.{◌>>=◌}
use modular_agent_core.Runtime.Presets.{add_preset_raw, rename_preset, remove_preset, start_preset}
use modular_agent_core.Runtime.Presets.Names.{Agrees, new-NamesAgree, rename_preset-NamesAgree}
use modular_agent_core.Runtime.Presets.Stopping.{names_agent}
use modular_agent_core.Runtime.Presets.Removing.{names_connection, goes, remove_preset-tables}
use modular_agent_core.Network.Edges.{has_edge}
use modular_agent_core.Runtime.Presets.Adding.{add_preset_raw-NamesAgree}
use modular_agent_core.Runtime.Steps.{Step, Reachable, IsSound, Reachable-IsSound}
use modular_agent_core.Preset
use modular_agent_core.Preset.{Preset}
use modular_agent_core.Runtime.Presets.{find_preset_id_by_name}
use modular_agent_core.Runtime.Presets.Lookup.{find_preset_id_by_name-rename_preset}
use modular_agent_core.Runtime.Edit.{add_agents_and_connections}
use modular_agent_core.Runtime.Edit.Rollback.{SameTables, add_agents_and_connections-SameTables}
use modular_agent_core.Runtime.Routing.{agent_out}
use modular_agent_core.Runtime.Routing.Delivery.{sent, agent_out-queue}

abbrev output_definition : AgentDefinition
output_definition = record {
  kind = "Agent";
  name = "output";
  title = none;
  hide_title = false;
  description = none;
  category = none;
  inputs = some ("in" ∷ []);
  outputs = none;
  configs = none;
  global_configs = none;
  hints = IndexMap.empty;
  native_thread = false;
  new_boxed = some (new_external external_output);
}

abbrev output_spec : AgentSpec
output_spec = record {
  id = "a";
  def_name = "output";
  inputs = none;
  outputs = none;
  configs = none;
  config_specs = none;
  disabled = false;
  extensions = IndexMap.empty;
}

abbrev unknown_spec : AgentSpec
unknown_spec = record output_spec { id = "b"; def_name = "unknown" }

abbrev with_definition : ModularAgent
with_definition = record new { defs = IndexMap.insert IndexMap.empty "output" output_definition }

abbrev one_agent : PresetSpec
one_agent = record { agents = output_spec ∷ []; connections = []; extensions = IndexMap.empty }

-- The preset has id 2, behind its agent.
abbrev main : ModularAgent
main = (add_preset_raw one_agent (some "main") with_definition).1

with_definition-Agrees : Agrees with_definition
unfolding new
with_definition-Agrees = new-NamesAgree

main-Agrees : Agrees main
main-Agrees =
    add_preset_raw-NamesAgree one_agent (some "main") with_definition with_definition-Agrees

add_preset_raw-NamesAgree_example : Agrees (add_preset_raw one_agent (some "main") main).1
add_preset_raw-NamesAgree_example =
    add_preset_raw-NamesAgree one_agent (some "main") main main-Agrees

rename_preset-NamesAgree_example : Agrees (rename_preset "2" "other" main).1
rename_preset-NamesAgree_example = rename_preset-NamesAgree "2" "other" main main-Agrees

abbrev numbered_spec : AgentSpec
numbered_spec = record output_spec { id = "1" }

abbrev main_preset : Preset
main_preset = record {
  id = "2";
  name = some "main";
  running = false;
  spec = record one_agent { agents = numbered_spec ∷ [] };
}

main_found : IndexMap.get main.presets "2" ≡ some main_preset
unfolding IndexMap.get add_preset_raw new IndexMap.empty ◌>>=◌ Preset.set_name Preset.new
    modular_agent_core.Id.update_ids modular_agent_core.Id.renumber
    modular_agent_core.Runtime.Lifecycle.add_agent_internal modular_agent_core.Definition.agent_new
    IndexMap.insert new_external modular_agent_core.Runtime.emit modular_agent_core.Id.new_id
    modular_agent_core.Decimal.to_string
main_found = refl

remove_preset-tables_example :
    ((remove_preset "2" main).0 ≡ ok tt)
    × ((j : String)
        → IndexMap.get (remove_preset "2" main).1.presets j
          ≡ (if "2" == j then none else IndexMap.get main.presets j))
    × ((j : String)
        → IndexMap.get (remove_preset "2" main).1.agents j
          ≡ (if names_agent main_preset.spec.agents j then none else IndexMap.get main.agents j))
    × ((d : ConnectionSpec)
        → has_edge (remove_preset "2" main).1.connections d ≡ (
            not (names_connection main_preset.spec.connections d)
            && (not (goes main_preset.spec.agents main d.source)
                && not (goes main_preset.spec.agents main d.target)
                && has_edge main.connections d)))
remove_preset-tables_example = remove_preset-tables "2" main_preset main main_found

-- The second agent has no definition, so that the first is taken out again.
second_fails :
    (add_agents_and_connections "2" (output_spec ∷ unknown_spec ∷ []) [] main).0
    ≡ err (unknown_def_name "unknown")
unfolding add_agents_and_connections ◌>>=◌ IndexMap.get add_preset_raw new IndexMap.empty
    modular_agent_core.Preset.set_name modular_agent_core.Preset.new
    modular_agent_core.Id.update_ids modular_agent_core.Id.renumber
    modular_agent_core.Runtime.Lifecycle.add_agent_internal modular_agent_core.Definition.agent_new
    IndexMap.insert new_external modular_agent_core.Runtime.emit modular_agent_core.Id.new_id
    modular_agent_core.Decimal.to_string
second_fails = refl

add_agents_and_connections-SameTables_example :
    SameTables (add_agents_and_connections "2" (output_spec ∷ unknown_spec ∷ []) [] main).1 main
add_agents_and_connections-SameTables_example =
    add_agents_and_connections-SameTables "2" (output_spec ∷ unknown_spec ∷ []) [] main
      (unknown_def_name "unknown") second_fails

abbrev link : ConnectionSpec
link = record { source = "1"; source_handle = "out"; target = "a"; target_handle = "in" }

abbrev listening : ModularAgent
listening = record new {
  agents =
      IndexMap.insert IndexMap.empty "a" (agent_data_new "a" output_spec (external_output none));
  agent_txs = IndexMap.insert IndexMap.empty "a" 0;
  channels = record { queue = []; closed = false } ∷ [];
  connections = (add_connection_internal link IndexMap.empty).1;
}

abbrev ctx : AgentContext
ctx = record { id = 1; vars = none; frames = none; cancel = none }

agent_out-queue_example :
    get_elem? (agent_out "1" ctx "out" AgentValue.unit listening).channels 0
    ≡ some (record {
      queue =
          []
          ++ sent
              (IndexMap.contains_key listening.agents)
              (IndexMap.get listening.agent_txs)
              0
              ctx
              "out"
              AgentValue.unit
              (targets_of listening.connections "1");
      closed = false;
    })
agent_out-queue_example = agent_out-queue "1" ctx "out" AgentValue.unit listening 0 [] refl

Reachable-IsSound_example : IsSound (start_preset "2" main).1
Reachable-IsSound_example =
    Reachable-IsSound (IndexMap.insert IndexMap.empty "output" output_definition)
      (start_preset "2" main).1
      (Reachable.step
        (Reachable.step Reachable.created (Step.add_preset one_agent (some "main") with_definition))
        (Step.start "2" main))

renamed : (rename_preset "2" "other" main).0 ≡ ok tt
unfolding add_preset_raw ◌>>=◌ find_preset_id_by_name rename_preset IndexMap.get IndexMap.insert
    IndexMap.empty new modular_agent_core.Preset.set_name modular_agent_core.Preset.new
    modular_agent_core.Id.update_ids modular_agent_core.Id.renumber modular_agent_core.Id.new_id
    modular_agent_core.Decimal.to_string modular_agent_core.Definition.agent_new
    modular_agent_core.Runtime.Lifecycle.add_agent_internal new_external
    modular_agent_core.Runtime.emit modular_agent_core.Runtime.Presets.rename_reserve
    modular_agent_core.Runtime.Presets.rename_confirm
renamed = refl

find_preset_id_by_name-rename_preset_example :
    find_preset_id_by_name (rename_preset "2" "other" main).1 "other" ≡ some "2"
find_preset_id_by_name-rename_preset_example =
    find_preset_id_by_name-rename_preset "2" "other" "other" main renamed

-- The message that the output above leaves in the channel of agent `a`.
delivered :
    get_elem? (agent_out "1" ctx "out" AgentValue.unit listening).channels 0
    ≡ some (record { queue = AgentMessage.input ctx "in" AgentValue.unit ∷ []; closed = false })
unfolding agent_out targets_of IndexMap.get add_connection_internal IndexMap.empty IndexMap.insert
    modular_agent_core.Runtime.Routing.agent_input ◌>>=◌ modular_agent_core.Runtime.Channels.send
    modular_agent_core.Runtime.emit
delivered = refl
