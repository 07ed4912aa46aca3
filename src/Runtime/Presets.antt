-- ===== src/Runtime/Presets.antt =====
-- The operations of modular_agent.rs on presets: they are added, renamed, started, stopped and
-- removed. Each runs as one step; what other tasks do between two locks of one call is not modelled.
pub mod Frame
pub mod Names
pub mod Adding
pub mod Routes
pub mod Stopping
pub mod Removing
pub mod Lookup
use modular_agent_core.Prelude.{
  ℕ, String, Bool, true, false, not, ◌&&◌, Option, none, some, List, [], ◌∷◌, ◌==◌, if◌then◌else◌,
}
use modular_agent_core.IndexMap
use modular_agent_core.IndexMap.{IndexMap}
use modular_agent_core.Error.{
  AgentError, duplicate_id, preset_not_found, preset_name_exists, Result, ok, err,
}
use modular_agent_core.Spec.{AgentSpec, ConnectionSpec, PresetSpec}
use modular_agent_core.Network.{add_connection_internal, remove_connection_internal}
use modular_agent_core.Preset
use modular_agent_core.Preset.{Preset}
use modular_agent_core.Runtime.{ModularAgent, preset_added, preset_removed, preset_renamed, emit}
use modular_agent_core.Runtime.Exec.{Action, pure, fail, gets, find, modify, announce, ◌>>=◌, ◌>>◌}
use modular_agent_core.Runtime.Tokens.{reset_preset_token, cancel_preset_token, remove_preset_token}
use modular_agent_core.Runtime.Lifecycle.{
  add_agent_internal, start_agent, stop_agent, remove_agent_internal,
}

abbrev pub default_spec : PresetSpec
default_spec = record { agents = []; connections = []; extensions = IndexMap.empty }

-- `if let Some(name) = name { preset.set_name(name) }`
named : Option String → Preset → Preset
named none preset = preset
named (some name) preset = Preset.set_name preset name

-- A name that is in use is refused.
pub reserve : Option String → String → Action (Unit {0})
reserve none id ma = (ok tt, ma)
reserve (some name) id ma =
    if IndexMap.contains_key ma.preset_names name
    then (err (preset_name_exists name), ma)
    else (ok tt, record ma { preset_names = IndexMap.insert ma.preset_names name id })

pub release : Option String → ModularAgent → ModularAgent
release none ma = ma
release (some name) ma = record ma { preset_names = IndexMap.swap_remove ma.preset_names name }

-- The agents whose creation fails are left out; the error is logged.
pub add_agents : String → List AgentSpec → ModularAgent → ModularAgent
add_agents id [] ma = ma
add_agents id (agent ∷ agents) ma = add_agents id agents (add_agent_internal id agent ma).1

pub add_connections : List ConnectionSpec → ModularAgent → ModularAgent
add_connections [] ma = ma
add_connections (c ∷ cs) ma =
    add_connections cs (record ma { connections = (add_connection_internal c ma.connections).1 })

pub insert_preset : String → Option String → Preset → Action (Unit {0})
unfolding release
insert_preset id name preset ma =
    if IndexMap.contains_key ma.presets id
    then (err (duplicate_id id), release name ma)
    else (ok tt, record ma { presets = IndexMap.insert ma.presets id preset })

pub create : PresetSpec → Option String → Action Preset
unfolding named
create spec name ma =
    let (preset, counter) = Preset.new spec ma.id_counter in
    (ok (named name preset), record ma { id_counter = counter })

unfoldable pub add_preset_raw : PresetSpec → Option String → Action String
unfolding create reserve add_agents add_connections insert_preset
add_preset_raw spec name = do
  preset ← create spec name
  reserve name preset.id
  modify (add_agents preset.id preset.spec.agents)
  modify (add_connections preset.spec.connections)
  insert_preset preset.id name preset
  announce (preset_added preset.id name)
  pure preset.id

unfoldable pub add_preset : PresetSpec → Action String
add_preset spec = add_preset_raw spec none

unfoldable pub add_preset_with_name : PresetSpec → String → Action String
add_preset_with_name spec name = add_preset_raw spec (some name)

unfoldable pub new_preset : Action String
new_preset = add_preset default_spec

unfoldable pub new_preset_with_name : String → Action String
new_preset_with_name name = add_preset_with_name default_spec name

abbrev pub find_preset : String → Action Preset
find_preset id = find (λ ma. IndexMap.get ma.presets id) (preset_not_found id)

unfoldable pub put_preset : String → Preset → ModularAgent → ModularAgent
put_preset id preset ma = record ma { presets = IndexMap.insert ma.presets id preset }

unfoldable pub find_preset_id_by_name : ModularAgent → String → Option String
find_preset_id_by_name ma name = IndexMap.get ma.preset_names name

-- The name belongs to another preset.
pub is_taken : Option String → String → Bool
is_taken none id = false
is_taken (some owner) id = not (owner == id)

pub claim : String → String → Action (Unit {0})
unfolding is_taken
claim id new_name ma =
    if is_taken (IndexMap.get ma.preset_names new_name) id
    then (err (preset_name_exists new_name), ma)
    else (
      ok tt,
      record ma {
        preset_names =
            IndexMap.insert (IndexMap.retain_entries (λ _ v. not (v == id)) ma.preset_names)
              new_name id;
      },
    )

owned_by : Option String → String → Bool
owned_by none id = false
owned_by (some owner) id = owner == id

-- The second look at `presets`: another task may have removed the preset since the first, and then
-- the name is given back.
pub confirm_found : Option Preset → String → String → Action (Unit {0})
unfolding owned_by put_preset
confirm_found none id new_name ma = (
  err (preset_not_found id),
  if owned_by (IndexMap.get ma.preset_names new_name) id
      then record ma { preset_names = IndexMap.swap_remove ma.preset_names new_name }
      else ma,
)
confirm_found (some preset) id new_name ma = (
  ok tt,
  emit (preset_renamed id preset.name new_name)
      (put_preset id (Preset.set_name preset new_name) ma),
)

-- The two halves of `rename_preset`, between which another task may run.
unfoldable pub rename_reserve : String → String → Action (Unit {0})
unfolding claim
rename_reserve id new_name = do _ ← find_preset id; claim id new_name

unfoldable pub rename_confirm : String → String → Action (Unit {0})
unfolding confirm_found
rename_confirm id new_name ma = confirm_found (IndexMap.get ma.presets id) id new_name ma

unfoldable pub rename_preset : String → String → Action (Unit {0})
rename_preset id new_name = do rename_reserve id new_name; rename_confirm id new_name

pub start_agents : List AgentSpec → ModularAgent → ModularAgent
start_agents [] ma = ma
start_agents (agent ∷ agents) ma =
    start_agents agents (if agent.disabled then ma else (start_agent agent.id ma).1)

pub stop_agents : List AgentSpec → ModularAgent → ModularAgent
stop_agents [] ma = ma
stop_agents (agent ∷ agents) ma = stop_agents agents (stop_agent agent.id ma).1

-- Preset::start and Preset::stop; the preset is written back.
pub run_preset : String → Preset → ModularAgent → ModularAgent
unfolding put_preset start_agents
run_preset id preset ma =
    if preset.running
    then ma
    else start_agents preset.spec.agents
        (reset_preset_token preset.id (put_preset id (record preset { running = true }) ma))

pub halt_preset : String → Preset → ModularAgent → ModularAgent
unfolding put_preset stop_agents
halt_preset id preset ma =
    let stopped = stop_agents preset.spec.agents (cancel_preset_token preset.id ma) in
    put_preset id (record preset { running = false }) (remove_preset_token preset.id stopped)

unfoldable pub start_preset : String → Action (Unit {0})
unfolding run_preset
start_preset id = do preset ← find_preset id; modify (run_preset id preset)

unfoldable pub stop_preset : String → Action (Unit {0})
unfolding halt_preset
stop_preset id = do preset ← find_preset id; modify (halt_preset id preset)

pub remove_agents : List AgentSpec → ModularAgent → ModularAgent
remove_agents [] ma = ma
remove_agents (agent ∷ agents) ma = remove_agents agents (remove_agent_internal agent.id ma).1

pub remove_connections : List ConnectionSpec → ModularAgent → ModularAgent
remove_connections [] ma = ma
remove_connections (c ∷ cs) ma =
    remove_connections cs (record ma { connections = remove_connection_internal c ma.connections })

pub forget_preset : String → ModularAgent → ModularAgent
forget_preset id ma = record ma {
  presets = IndexMap.swap_remove ma.presets id;
  preset_names = IndexMap.retain_entries (λ _ v. not (v == id)) ma.preset_names;
}

unfoldable pub remove_preset : String → Action (Unit {0})
unfolding halt_preset remove_agents remove_connections forget_preset
remove_preset id = do
  preset ← find_preset id
  modify (halt_preset id preset)
  modify (remove_agents preset.spec.agents)
  modify (remove_connections preset.spec.connections)
  modify (forget_preset id)
  modify (remove_preset_token id)
  announce (preset_removed id preset.name)
