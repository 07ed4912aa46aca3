-- ===== src/Runtime/Steps.antt =====
-- The runtime as a transition system: public calls of modular_agent.rs that change its state, the
-- message loops, and the starts and inputs of spawned agent loops, each as one step, in any order.
-- `set_global_configs_map` is several steps of `set_global_configs`; `update_agent_spec` is left out.
use mathlib.Core.Path.{subst}
use modular_agent_core.Prelude.{ℕ, Bool, String, ◌≡◌, sym, Option, List}
use modular_agent_core.Json.{Json}
use modular_agent_core.Value.{AgentValue}
use modular_agent_core.Context.{AgentContext}
use modular_agent_core.Spec.{AgentConfigs, AgentSpec, ConnectionSpec, PresetSpec}
use modular_agent_core.Network.WellFormed.{IsWellFormed, empty-IsWellFormed}
use modular_agent_core.Agent.{AgentDefinition, AgentDefinitions}
use modular_agent_core.Runtime.{ModularAgent, new}
use modular_agent_core.Runtime.Lifecycle.{start_agent, stop_agent, run_start, set_agent_configs}
use modular_agent_core.Runtime.Lifecycle.Frame.{Tables, tables, start_agent-Keeps, stop_agent-Keeps}
use modular_agent_core.Runtime.Lifecycle.Configs.{run_start-Keeps, set_agent_configs-Keeps}
use modular_agent_core.Runtime.Presets.{
  add_preset_raw, rename_preset, remove_preset, start_preset, stop_preset,
}
use modular_agent_core.Runtime.Presets.Names.Tables.{NamesAgree}
use modular_agent_core.Runtime.Presets.Names.{
  Agrees, new-NamesAgree, rename_preset-NamesAgree, remove_preset-NamesAgree,
  start_preset-NamesAgree, stop_preset-NamesAgree,
}
use modular_agent_core.Runtime.Presets.Adding.{add_preset_raw-NamesAgree}
use modular_agent_core.Runtime.Presets.Routes.{
  HasRoutes, add_preset_raw-HasRoutes, rename_preset-HasRoutes, remove_preset-HasRoutes,
  start_preset-HasRoutes, stop_preset-HasRoutes,
}
use modular_agent_core.Runtime.Edit.{
  add_agent, add_connection, add_agents_and_connections, remove_agent, remove_connection,
}
use modular_agent_core.Runtime.Edit.Names.{
  add_agent-Agrees, add_connection-Agrees, remove_agent-Agrees, remove_connection-Agrees,
}
use modular_agent_core.Runtime.Edit.Batches.{add_agents_and_connections-Agrees}
use modular_agent_core.Runtime.Edit.Routes.{
  add_agent-HasRoutes, add_connection-HasRoutes, add_agents_and_connections-HasRoutes,
  remove_agent-HasRoutes, remove_connection-HasRoutes,
}
use modular_agent_core.Runtime.Edit.Update.{
  update_preset_spec, update_preset_spec-Agrees, update_preset_spec-HasRoutes,
}
use modular_agent_core.Runtime.Process.{process}
use modular_agent_core.Runtime.Process.Frame.{process-Keeps}
use modular_agent_core.Runtime.Contexts.{context_token, abort_context}
use modular_agent_core.Runtime.Contexts.Frame.{tables-context_token, tables-abort_context}
use modular_agent_core.Runtime.Globals.{set_global_configs}
use modular_agent_core.Runtime.Registry.{register_agent_definiton}
use modular_agent_core.Runtime.Registry.Frame.{tables-register_agent_definiton}
use modular_agent_core.Runtime.Routing.{
  send_agent_out, try_send_agent_out, write_external_input, loop_step, ready, quit,
}
use modular_agent_core.Runtime.Routing.Frame.{
  tables-loop_step, send_agent_out-Keeps, try_send_agent_out-Keeps, write_external_input-Keeps,
}

pub data Step : ModularAgent → ModularAgent → Type 0 where
  add_preset :
      (spec : PresetSpec) (name : Option String) (ma : ModularAgent)
      → Step ma (add_preset_raw spec name ma).1
  rename : (id new_name : String) (ma : ModularAgent) → Step ma (rename_preset id new_name ma).1
  remove : (id : String) (ma : ModularAgent) → Step ma (remove_preset id ma).1
  start : (id : String) (ma : ModularAgent) → Step ma (start_preset id ma).1
  stop : (id : String) (ma : ModularAgent) → Step ma (stop_preset id ma).1
  new_agent :
      (id : String) (spec : AgentSpec) (ma : ModularAgent) → Step ma (add_agent id spec ma).1
  new_connection :
      (id : String) (c : ConnectionSpec) (ma : ModularAgent) → Step ma (add_connection id c ma).1
  new_batch :
      (id : String) (agents : List AgentSpec) (cs : List ConnectionSpec) (ma : ModularAgent)
      → Step ma (add_agents_and_connections id agents cs ma).1
  drop_agent : (id agent_id : String) (ma : ModularAgent) → Step ma (remove_agent id agent_id ma).1
  drop_connection :
      (id : String) (c : ConnectionSpec) (ma : ModularAgent) → Step ma (remove_connection id c ma).1
  update_preset :
      (id : String) (value : Json) (ma : ModularAgent) → Step ma (update_preset_spec id value ma).1
  start_one : (agent_id : String) (ma : ModularAgent) → Step ma (start_agent agent_id ma).1
  stop_one : (agent_id : String) (ma : ModularAgent) → Step ma (stop_agent agent_id ma).1
  begin_loop : (agent_id : String) (ma : ModularAgent) → Step ma (run_start agent_id ma).1
  set_configs :
      (agent_id : String) (c : AgentConfigs) (ma : ModularAgent)
      → Step ma (set_agent_configs agent_id c ma).1
  put_out :
      (agent_id : String) (ctx : AgentContext) (port : String) (value : AgentValue)
      (ma : ModularAgent)
      → Step ma (send_agent_out agent_id ctx port value ma).1
  try_put_out :
      (agent_id : String) (ctx : AgentContext) (port : String) (value : AgentValue)
      (ma : ModularAgent)
      → Step ma (try_send_agent_out agent_id ctx port value ma).1
  write_input :
      (name : String) (value : AgentValue) (ma : ModularAgent)
      → Step ma (write_external_input name value ma).1
  route_next : (n : ℕ) (ma : ModularAgent) → Step ma (loop_step n ma)
  process_input :
      (agent_id : String) (ctx : AgentContext) (port : String) (value : AgentValue)
      (ma : ModularAgent)
      → Step ma (process agent_id ctx port value ma).1
  set_globals :
      (def_name : String) (c : AgentConfigs) (ma : ModularAgent)
      → Step ma (set_global_configs def_name c ma)
  register : (def : AgentDefinition) (ma : ModularAgent) → Step ma (register_agent_definiton def ma)
  take_flow_token :
      (alive : ℕ → Bool) (ctx_id : ℕ) (ma : ModularAgent)
      → Step ma (context_token alive ctx_id ma).1
  abort_flow :
      (alive : ℕ → Bool) (ctx_id : ℕ) (ma : ModularAgent)
      → Step ma (abort_context alive ctx_id ma).1
  become_ready : (ma : ModularAgent) → Step ma (ready ma)
  shut_down : (ma : ModularAgent) → Step ma (quit ma)

-- The states of a runtime that was created with some definitions.
pub data Reachable (defs : AgentDefinitions) : ModularAgent → Type 0 where
  created : Reachable defs (record new { defs = defs })
  step : {ma ma' : ModularAgent} → Reachable defs ma → Step ma ma' → Reachable defs ma'

pub record IsSound (ma : ModularAgent) : Type 0 where
  pub names : Agrees ma
  pub routes : HasRoutes ma

abbrev Sound : Tables → Type 0
Sound ((presets, names), connections) = NamesAgree presets names × IsWellFormed connections

step_of_tables : (ma ma' : ModularAgent) → tables ma' ≡ tables ma → IsSound ma → IsSound ma'
step_of_tables ma ma' e s =
    let moved = subst Sound (sym e) (s.names, s.routes) in
    record { names = moved.0; routes = moved.1 }

step-IsSound : (ma ma' : ModularAgent) → Step ma ma' → IsSound ma → IsSound ma'
unfolding ready quit set_global_configs
step-IsSound _ _ (add_preset spec name ma) s = record {
  names = add_preset_raw-NamesAgree spec name ma s.names;
  routes = (add_preset_raw-HasRoutes spec name).at ma s.routes;
}
step-IsSound _ _ (rename id new_name ma) s = record {
  names = rename_preset-NamesAgree id new_name ma s.names;
  routes = (rename_preset-HasRoutes id new_name).at ma s.routes;
}
step-IsSound _ _ (remove id ma) s = record {
  names = remove_preset-NamesAgree id ma s.names;
  routes = (remove_preset-HasRoutes id).at ma s.routes;
}
step-IsSound _ _ (start id ma) s = record {
  names = start_preset-NamesAgree id ma s.names;
  routes = (start_preset-HasRoutes id).at ma s.routes;
}
step-IsSound _ _ (stop id ma) s = record {
  names = stop_preset-NamesAgree id ma s.names;
  routes = (stop_preset-HasRoutes id).at ma s.routes;
}
step-IsSound _ _ (new_agent id spec ma) s = record {
  names = (add_agent-Agrees id spec).at ma s.names;
  routes = (add_agent-HasRoutes id spec).at ma s.routes;
}
step-IsSound _ _ (new_connection id c ma) s = record {
  names = (add_connection-Agrees id c).at ma s.names;
  routes = (add_connection-HasRoutes id c).at ma s.routes;
}
step-IsSound _ _ (new_batch id agents cs ma) s = record {
  names = (add_agents_and_connections-Agrees id agents cs).at ma s.names;
  routes = (add_agents_and_connections-HasRoutes id agents cs).at ma s.routes;
}
step-IsSound _ _ (drop_agent id agent_id ma) s = record {
  names = (remove_agent-Agrees id agent_id).at ma s.names;
  routes = (remove_agent-HasRoutes id agent_id).at ma s.routes;
}
step-IsSound _ _ (drop_connection id c ma) s = record {
  names = (remove_connection-Agrees id c).at ma s.names;
  routes = (remove_connection-HasRoutes id c).at ma s.routes;
}
step-IsSound _ _ (update_preset id value ma) s = record {
  names = update_preset_spec-Agrees id value ma s.names;
  routes = update_preset_spec-HasRoutes id value ma s.routes;
}
step-IsSound _ _ (start_one id ma) s = step_of_tables ma _ ((start_agent-Keeps id).at ma) s
step-IsSound _ _ (stop_one id ma) s = step_of_tables ma _ ((stop_agent-Keeps id).at ma) s
step-IsSound _ _ (begin_loop id ma) s = step_of_tables ma _ ((run_start-Keeps id).at ma) s
step-IsSound _ _ (set_configs id c ma) s =
    step_of_tables ma _ ((set_agent_configs-Keeps id c).at ma) s
step-IsSound _ _ (put_out id ctx port value ma) s =
    step_of_tables ma _ ((send_agent_out-Keeps id ctx port value).at ma) s
step-IsSound _ _ (try_put_out id ctx port value ma) s =
    step_of_tables ma _ ((try_send_agent_out-Keeps id ctx port value).at ma) s
step-IsSound _ _ (write_input name value ma) s =
    step_of_tables ma _ ((write_external_input-Keeps name value).at ma) s
step-IsSound _ _ (route_next n ma) s = step_of_tables ma _ (tables-loop_step n ma) s
step-IsSound _ _ (process_input id ctx port value ma) s =
    step_of_tables ma (process id ctx port value ma).1 ((process-Keeps id ctx port value).at ma) s
step-IsSound _ _ (set_globals def_name c ma) s = record { names = s.names; routes = s.routes }
step-IsSound _ _ (register def ma) s =
    step_of_tables ma _ (tables-register_agent_definiton def ma) s
step-IsSound _ _ (take_flow_token alive ctx_id ma) s =
    step_of_tables ma _ (tables-context_token alive ctx_id ma) s
step-IsSound _ _ (abort_flow alive ctx_id ma) s =
    step_of_tables ma _ (tables-abort_context alive ctx_id ma) s
step-IsSound _ _ (become_ready ma) s = record { names = s.names; routes = s.routes }
step-IsSound _ _ (shut_down ma) s = record { names = s.names; routes = s.routes }

created-IsSound : (defs : AgentDefinitions) → IsSound (record new { defs = defs })
unfolding new
created-IsSound defs = record { names = new-NamesAgree; routes = empty-IsWellFormed }

-- In every state that a new runtime comes to, by calls and turns of its loops in any order, the names
-- of the presets and the index of names agree, and the routing table holds no empty list and no
-- connection twice.
pub Reachable-IsSound :
    (defs : AgentDefinitions) (ma : ModularAgent) → Reachable defs ma → IsSound ma
Reachable-IsSound defs _ created = created-IsSound defs
Reachable-IsSound defs _ (step {ma} {ma'} r s) = step-IsSound ma ma' s (Reachable-IsSound defs ma r)
