-- ===== src/Spec/Update/Tests.antt =====
-- An agent with two configs, one of which is patched.
use modular_agent_core.Prelude.{◌≡◌, refl, false, none, some, []}
use modular_agent_core.Prelude.Int.{pos}
use modular_agent_core.IndexMap
use modular_agent_core.Json.{Json, Fields, pos_int}
use modular_agent_core.Error.{ok}
use modular_agent_core.Value.{AgentValue}
use modular_agent_core.Value.Serial.{from_json}
use modular_agent_core.Spec.{AgentConfigs, AgentSpec}
use modular_agent_core.Spec.Update.{update, config_at, says, update-says}

abbrev configs : AgentConfigs
configs =
    IndexMap.insert (IndexMap.insert IndexMap.empty "a" (AgentValue.integer (pos 1))) "b"
      (AgentValue.integer (pos 2))

abbrev agent : AgentSpec
agent = record {
  id = "1";
  def_name = "echo";
  inputs = none;
  outputs = none;
  configs = some configs;
  config_specs = none;
  disabled = false;
  extensions = IndexMap.empty;
}

abbrev patch : Fields
patch =
    Fields.field "configs" (Json.object (Fields.field "b" (Json.number (pos_int 5)) Fields.end))
      (Fields.field "disabled" (Json.boolean false) Fields.end)

updated :
    (update
      (λ s. record { width = 0; height = 0; raw_pixels = [] })
      (λ j. "")
      agent
      (Json.object patch)).0
    ≡ ok tt
unfolding update from_json
updated = refl

update-says_example :
    config_at
      (λ s. record { width = 0; height = 0; raw_pixels = [] })
      (λ j. "")
      (update
        (λ s. record { width = 0; height = 0; raw_pixels = [] })
        (λ j. "")
        agent
        (Json.object patch)).1.configs
      "b"
    ≡ says
        (λ s. record { width = 0; height = 0; raw_pixels = [] })
        (λ j. "")
        patch
        "b"
        (IndexMap.get configs "b")
update-says_example =
    update-says (λ s. record { width = 0; height = 0; raw_pixels = [] }) (λ j. "") patch agent "b"
      updated
