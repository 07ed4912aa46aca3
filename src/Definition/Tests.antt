-- ===== src/Definition/Tests.antt =====
-- Examples on a definition with two configs.
use modular_agent_core.Prelude.{◌≡◌, refl, false, none, some, if◌then◌else◌}
use modular_agent_core.IndexMap
use modular_agent_core.Value.{AgentValue}
use modular_agent_core.Spec.{AgentConfigs, AgentConfigSpec, AgentConfigSpecs}
use modular_agent_core.Definition.{reconcile_configs, def_has}
use modular_agent_core.Definition.Reconcile.{or, config_of, default_of, reconcile_configs-value}

abbrev text_spec : AgentConfigSpec
text_spec = record {
  value = AgentValue.string "default";
  type_ = some "string";
  title = none;
  hide_title = false;
  description = none;
  hidden = false;
  readonly = false;
  detail = false;
}

abbrev specs : AgentConfigSpecs
specs = IndexMap.insert (IndexMap.insert IndexMap.empty "name" text_spec) "mode" text_spec

abbrev old : AgentConfigs
old =
    IndexMap.insert (IndexMap.insert IndexMap.empty "gone" (AgentValue.string "x")) "mode"
      (AgentValue.string "fast")

reconcile_configs-value_example : config_of (reconcile_configs (some specs) (some old)) "mode" ≡ (
    if def_has (some specs) "mode"
    then or (config_of (some old) "mode") (default_of (some specs) "mode")
    else none)
reconcile_configs-value_example = reconcile_configs-value (some specs) (some old) "mode" refl
