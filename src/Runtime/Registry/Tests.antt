-- ===== src/Runtime/Registry/Tests.antt =====
-- A definition with one global config.
use modular_agent_core.Prelude.{◌≡◌, ◌==◌, false, none, some, if◌then◌else◌}
use modular_agent_core.IndexMap
use modular_agent_core.Value.{AgentValue}
use modular_agent_core.Spec.{AgentConfigSpecs}
use modular_agent_core.Agent.{AgentDefinition}
use modular_agent_core.Definition.Reconcile.{or, config_of, default_of}
use modular_agent_core.Runtime.{new}
use modular_agent_core.Runtime.Globals.{get_global_configs}
use modular_agent_core.Runtime.Registry.{register_agent_definiton, get_agent_definition}
use modular_agent_core.Runtime.Registry.Defaults.{register_agent_definiton-lookups}

abbrev globals : AgentConfigSpecs
globals = IndexMap.insert IndexMap.empty "key" (record {
  value = AgentValue.string "none";
  type_ = some "string";
  title = none;
  hide_title = false;
  description = none;
  hidden = false;
  readonly = false;
  detail = false;
})

abbrev chat : AgentDefinition
chat = record {
  kind = "Agent";
  name = "chat";
  title = none;
  hide_title = false;
  description = none;
  category = none;
  inputs = none;
  outputs = none;
  configs = none;
  global_configs = some globals;
  hints = IndexMap.empty;
  native_thread = false;
  new_boxed = none;
}

register_agent_definiton-lookups_example :
    (get_agent_definition "chat" (register_agent_definiton chat new)
      ≡ (if "chat" == "chat" then some chat else get_agent_definition "chat" new))
    × (config_of (get_global_configs "chat" (register_agent_definiton chat new)) "key" ≡ (
        if "chat" == "chat"
        then or (default_of (some globals) "key") (config_of (get_global_configs "chat" new) "key")
        else config_of (get_global_configs "chat" new) "key"))
register_agent_definiton-lookups_example = register_agent_definiton-lookups chat "chat" "key" new
