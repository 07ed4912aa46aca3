-- ===== src/Runtime/Edit.antt =====
-- The operations of modular_agent.rs that edit a preset: agents and connections are added to it and
-- removed from it, in the preset's specification and in the tables of the runtime.
pub mod Stages
pub mod Rollback
pub mod Routes
pub mod Update
pub mod Names
pub mod Batches
use Prim.Native.String.{◌++◌ as append}
use modular_agent_core.Prelude.{
  ℕ, zero, suc, ◌+◌, String, Bool, true, false, not, ◌&&◌, Option, none, some, List, [], ◌∷◌, ◌==◌,
  length, take, nat_eq, if◌then◌else◌,
}
use modular_agent_core.IndexMap
use modular_agent_core.IndexMap.{IndexMap}
use modular_agent_core.Error.{
  AgentError, agent_not_found, connection_not_found, empty_source_handle, empty_target_handle,
  Result, ok, err,
}
use modular_agent_core.Id.{new_id, update_ids}
use modular_agent_core.Spec.{AgentSpec, ConnectionSpec}
use modular_agent_core.Network.{add_connection_internal, remove_connection_internal}
use modular_agent_core.Preset
use modular_agent_core.Preset.{Preset}
use modular_agent_core.Runtime.{ModularAgent, preset_structure_changed, emit}
use modular_agent_core.Runtime.Exec.{Action, pure, fail, lift, gets, modify, announce, ◌>>=◌, ◌>>◌}
use modular_agent_core.Runtime.Lifecycle.{add_agent_internal, remove_agent_internal}
use modular_agent_core.Runtime.Presets.{find_preset, put_preset}

-- `new_id()`
pub next_id : Action String
next_id ma = let (id, counter) = new_id ma.id_counter in (ok id, record ma { id_counter = counter })

unfoldable pub add_agent : String → AgentSpec → Action String
unfolding next_id
add_agent preset_id spec = do
  preset ← find_preset preset_id
  id ← next_id
  constructed ← add_agent_internal preset_id (record spec { id = id })
  modify (put_preset preset_id (Preset.add_agent preset constructed))
  announce (preset_structure_changed preset_id)
  pure id

pub check : Bool → AgentError → Action (Unit {0})
check passed e ma = (if passed then ok tt else err e, ma)

pub connect : ConnectionSpec → Action (Unit {0})
connect c ma =
    let (r, connections) = add_connection_internal c ma.connections in
    (r, record ma { connections = connections })

-- The checks on the two ends and their handles.
pub check_ends : ConnectionSpec → Action (Unit {0})
unfolding check
check_ends c = do
  source ← gets (λ ma. IndexMap.contains_key ma.agents c.source)
  check source (agent_not_found c.source)
  target ← gets (λ ma. IndexMap.contains_key ma.agents c.target)
  check target (agent_not_found c.target)
  check (not (c.source_handle == "")) empty_source_handle
  check (not (c.target_handle == "")) empty_target_handle

-- The routing table first, as it may refuse the connection.
pub enter_connection : String → ConnectionSpec → Action (Unit {0})
unfolding connect
enter_connection preset_id c = do
  preset ← find_preset preset_id
  connect c
  modify (put_preset preset_id (Preset.add_connection preset c))
  announce (preset_structure_changed preset_id)

unfoldable pub add_connection : String → ConnectionSpec → Action (Unit {0})
unfolding check_ends enter_connection
add_connection preset_id c = do check_ends c; enter_connection preset_id c

-- How far a batch came: its error, what it added, and the preset and the runtime as it left them.
pub record Batch (A : Type 0) : Type 0 where
  pub failure : Option AgentError
  pub added : List A
  pub preset : Preset
  pub runtime : ModularAgent

-- The agents are added until one fails; `added` has their constructed specifications.
unfoldable pub add_batch : String → List AgentSpec → Preset → ModularAgent → Batch AgentSpec
add_batch id [] preset ma = record { failure = none; added = []; preset = preset; runtime = ma }
add_batch id (agent ∷ agents) preset ma =
    let (r, ma') = add_agent_internal id agent ma in
    elim r [
      | err e ↦ record { failure = some e; added = []; preset = preset; runtime = ma' }
      | ok constructed ↦
          let rest = add_batch id agents (Preset.add_agent preset constructed) ma' in
          record rest { added = constructed ∷ rest.added }
    ]

unfoldable pub connect_batch : List ConnectionSpec → Preset → ModularAgent → Batch ConnectionSpec
unfolding connect
connect_batch [] preset ma = record { failure = none; added = []; preset = preset; runtime = ma }
connect_batch (c ∷ cs) preset ma =
    let (r, ma') = connect c ma in
    elim r [
      | err e ↦ record { failure = some e; added = []; preset = preset; runtime = ma' }
      | ok u ↦
          let rest = connect_batch cs (Preset.add_connection preset c) ma' in
          record rest { added = c ∷ rest.added }
    ]

unfoldable pub undo_connections :
    List ConnectionSpec → Preset × ModularAgent → Preset × ModularAgent
undo_connections [] (preset, ma) = (preset, ma)
undo_connections (c ∷ cs) (preset, ma) = undo_connections cs (
  (Preset.remove_connection preset c).1,
  record ma { connections = remove_connection_internal c ma.connections },
)

unfoldable pub undo_agents : List AgentSpec → Preset × ModularAgent → Preset × ModularAgent
undo_agents [] (preset, ma) = (preset, ma)
undo_agents (agent ∷ agents) (preset, ma) = undo_agents agents (
  Preset.remove_agent preset agent.id,
  record ma { agents = IndexMap.swap_remove ma.agents agent.id },
)

-- The connections are tried only if every agent was added.
pub connect_if :
    Option AgentError → List ConnectionSpec → Preset → ModularAgent → Batch ConnectionSpec
unfolding connect_batch
connect_if none cs preset ma = connect_batch cs preset ma
connect_if (some e) cs preset ma = record {
  failure = some e;
  added = [];
  preset = preset;
  runtime = ma;
}

-- The preset was changed in place, so it is written back on both branches.
pub settle :
    Option AgentError
    → String
    → List AgentSpec
    → List ConnectionSpec
    → Batch AgentSpec
    → Batch ConnectionSpec
    → Result (List AgentSpec × List ConnectionSpec) × ModularAgent
unfolding undo_agents undo_connections
settle none id agents cs first second = (
  ok (first.added, cs),
  emit (preset_structure_changed id) (put_preset id second.preset second.runtime),
)
settle (some e) id agents cs first second =
    let (preset, ma) =
      undo_agents (take (length first.added) agents)
        (undo_connections (take (length second.added) cs) (second.preset, second.runtime)) in
    (err e, put_preset id preset ma)

pub run_batches :
    String
    → List AgentSpec
    → List ConnectionSpec
    → Preset
    → Action (List AgentSpec × List ConnectionSpec)
unfolding settle add_batch connect_if
run_batches id agents cs preset ma =
    let first = add_batch id agents preset ma in
    let second = connect_if first.failure cs first.preset first.runtime in
    settle second.failure id agents cs first second

unfoldable pub add_agents_and_connections :
    String → List AgentSpec → List ConnectionSpec → Action (List AgentSpec × List ConnectionSpec)
unfolding run_batches
add_agents_and_connections id agents connections ma =
    let (agents', connections', counter) = update_ids agents connections ma.id_counter in
    (do preset ← find_preset id; run_batches id agents' connections' preset)
      (record ma { id_counter = counter })

-- Only `AgentNotFound` means that there was no instance.
pub removed : Result (Unit {0}) → Result Bool
removed (ok u) = ok true
removed (err (agent_not_found id)) = ok false
removed (err e) = err e

pub try_remove : String → Action Bool
unfolding removed
try_remove agent_id ma = let (r, ma') = remove_agent_internal agent_id ma in (removed r, ma')

-- Removing the instance leaves the presets alone, so that `preset.lock()` shows the same preset.
pub drop_spec : String → String → Bool → Preset → Action (Unit {0})
drop_spec preset_id agent_id runtime_removed preset ma =
    let preset' = Preset.remove_agent preset agent_id in
    let spec_removed = not (nat_eq (length preset'.spec.agents) (length preset.spec.agents)) in
    let ma' = put_preset preset_id preset' ma in
    if not runtime_removed && not spec_removed
    then (err (agent_not_found agent_id), ma')
    else (ok tt, emit (preset_structure_changed preset_id) ma')

unfoldable pub remove_agent : String → String → Action (Unit {0})
unfolding try_remove drop_spec
remove_agent preset_id agent_id = do
  preset ← find_preset preset_id
  runtime_removed ← try_remove agent_id
  drop_spec preset_id agent_id runtime_removed preset

pub connection_name : ConnectionSpec → String
connection_name c = append c.source (
    append ":"
      (append c.source_handle (append "->" (append c.target (append ":" c.target_handle)))))

pub disconnect : String → Option ConnectionSpec × Preset → ConnectionSpec → Action (Unit {0})
unfolding connection_name
disconnect preset_id (none, preset) c ma =
    (err (connection_not_found (connection_name c)), put_preset preset_id preset ma)
disconnect preset_id (some found, preset) c ma = (
  ok tt,
  emit (preset_structure_changed preset_id) (
      put_preset preset_id preset
        (record ma { connections = remove_connection_internal found ma.connections })),
)

unfoldable pub remove_connection : String → ConnectionSpec → Action (Unit {0})
unfolding disconnect
remove_connection preset_id c = do
  preset ← find_preset preset_id
  disconnect preset_id (Preset.remove_connection preset c) c
