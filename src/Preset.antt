-- ===== src/Preset.antt =====
-- preset.rs: a preset and the operations on it alone. `start` and `stop` are with the runtime.
use modular_agent_core.Prelude.{
  ℕ, String, Bool, false, ◌||◌, Option, none, some, ◌==◌, if◌then◌else◌,
}
use modular_agent_core.IndexMap
use modular_agent_core.IndexMap.{IndexMap}
use modular_agent_core.Json
use modular_agent_core.Json.{Json, Fields, end, field}
use modular_agent_core.Error.{serialization_error, Result, ok, ◌>>=◌, ok_or}
use modular_agent_core.Id.{new_id, update_ids}
use modular_agent_core.Spec
use modular_agent_core.Spec.{PresetSpec, AgentSpec, ConnectionSpec}

pub record Preset : Type 0 where
  pub id : String
  pub name : Option String
  pub running : Bool
  pub spec : PresetSpec

-- Preset::new, over the counter of ids.
unfoldable pub new : PresetSpec → ℕ → Preset × ℕ
new spec counter =
    let (agents, connections, counter') = update_ids spec.agents spec.connections counter in
    let (id, counter'') = new_id counter' in
    (
      record {
        id = id;
        name = none;
        running = false;
        spec = record spec { agents = agents; connections = connections };
      },
      counter'',
    )

unfoldable pub set_name : Preset → String → Preset
set_name preset name = record preset { name = some name }

unfoldable pub clear_name : Preset → Preset
clear_name preset = record preset { name = none }

extend : Fields → IndexMap Json → IndexMap Json
extend end extensions = extensions
extend (field k v rest) extensions =
    extend rest
      (if k == "agents" || k == "connections" then extensions else IndexMap.insert extensions k v)

unfoldable pub update_spec : Json → Preset → Result Preset
unfolding extend
update_spec value preset = do
  update_map ← ok_or (Json.as_object value) (serialization_error "Expected JSON object")
  ok (record preset {
    spec = record preset.spec { extensions = extend update_map preset.spec.extensions };
  })

unfoldable pub add_agent : Preset → AgentSpec → Preset
add_agent preset agent = record preset { spec = Spec.add_agent preset.spec agent }

unfoldable pub remove_agent : Preset → String → Preset
remove_agent preset agent_id = record preset { spec = Spec.remove_agent preset.spec agent_id }

unfoldable pub add_connection : Preset → ConnectionSpec → Preset
add_connection preset c = record preset { spec = Spec.add_connection preset.spec c }

unfoldable pub remove_connection : Preset → ConnectionSpec → Option ConnectionSpec × Preset
remove_connection preset c =
    let (found, spec) = Spec.remove_connection preset.spec c in
    (found, record preset { spec = spec })

pub record PresetInfo : Type 0 where
  pub id : String
  pub name : Option String
  pub running : Bool

unfoldable pub info : Preset → PresetInfo
info preset = record { id = preset.id; name = preset.name; running = preset.running }
