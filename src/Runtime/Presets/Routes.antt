-- ===== src/Runtime/Presets/Routes.antt =====
-- The operations of modular_agent.rs on presets keep the routing table well formed.
use mathlib.Core.Path.{subst}
use modular_agent_core.Prelude.{
  String, ◌≡◌, sym, Option, none, some, List, [], ◌∷◌, arith, Bool-cases, Option-cases, inl, inr,
}
use modular_agent_core.IndexMap
use modular_agent_core.Spec.{AgentSpec, ConnectionSpec, PresetSpec}
use modular_agent_core.Preset.{Preset}
use modular_agent_core.Network.WellFormed.{
  IsWellFormed, add_connection_internal-IsWellFormed, remove_connection_internal-IsWellFormed,
  remove_agent_edges-IsWellFormed,
}
use modular_agent_core.Runtime.{ModularAgent, ModularAgentEvent, emit}
use modular_agent_core.Runtime.Exec.{◌>>=◌}
use modular_agent_core.Runtime.Exec.Preserves.{
  Preserves, Preserves-bind, Preserves-modify, Preserves-of_Keeps, preserves_rules,
}
use modular_agent_core.Runtime.Tokens.{reset_preset_token, cancel_preset_token, remove_preset_token}
use modular_agent_core.Runtime.Lifecycle.{
  add_agent_internal, start_agent, stop_agent, remove_agent_internal,
}
use modular_agent_core.Runtime.Lifecycle.Frame.{
  tables, tables-add_agent_internal, start_agent-Keeps, stop_agent-Keeps,
}
use modular_agent_core.Runtime.Presets.{
  create, reserve, release, claim, confirm_found, insert_preset, put_preset, add_agents,
  add_connections, start_agents, stop_agents, remove_agents, remove_connections, run_preset,
  halt_preset, forget_preset, start_preset, stop_preset, remove_preset, rename_preset,
  rename_reserve, rename_confirm, add_preset_raw,
}

-- The routing table of the runtime is well formed.
abbrev pub HasRoutes : ModularAgent → Type 0
HasRoutes ma = IsWellFormed ma.connections

pub add_agent_internal-HasRoutes :
    (id : String) (spec : AgentSpec) (ma : ModularAgent)
    → HasRoutes ma
    → HasRoutes (add_agent_internal id spec ma).1
add_agent_internal-HasRoutes id spec ma h =
    subst (λ t. IsWellFormed t.1) (sym (tables-add_agent_internal id spec ma)) h

pub start_agent-HasRoutes : (id : String) → Preserves HasRoutes (start_agent id)
start_agent-HasRoutes id =
    Preserves-of_Keeps tables (λ t. IsWellFormed t.1) (start_agent id) (start_agent-Keeps id)

pub stop_agent-HasRoutes : (id : String) → Preserves HasRoutes (stop_agent id)
stop_agent-HasRoutes id =
    Preserves-of_Keeps tables (λ t. IsWellFormed t.1) (stop_agent id) (stop_agent-Keeps id)

pub remove_agent_internal-HasRoutes : (id : String) → Preserves HasRoutes (remove_agent_internal id)
unfolding remove_agent_internal
remove_agent_internal-HasRoutes id = Preserves-bind _ _ (stop_agent-HasRoutes id) (λ _.
    Preserves-bind _ _
      (Preserves-modify _ (λ ma. remove_agent_edges-IsWellFormed id ma.connections))
      (λ _. Preserves-modify _ (λ ma h. h)))

add_agents-HasRoutes :
    (id : String) (agents : List AgentSpec) (ma : ModularAgent)
    → HasRoutes ma
    → HasRoutes (add_agents id agents ma)
unfolding add_agents
add_agents-HasRoutes id [] ma h = h
add_agents-HasRoutes id (agent ∷ agents) ma h =
    add_agents-HasRoutes id agents (add_agent_internal id agent ma).1
      (add_agent_internal-HasRoutes id agent ma h)

add_connections-HasRoutes :
    (cs : List ConnectionSpec) (ma : ModularAgent)
    → HasRoutes ma
    → HasRoutes (add_connections cs ma)
unfolding add_connections
add_connections-HasRoutes [] ma h = h
add_connections-HasRoutes (c ∷ cs) ma h =
    add_connections-HasRoutes cs _ (add_connection_internal-IsWellFormed c ma.connections h)

start_agents-HasRoutes :
    (agents : List AgentSpec) (ma : ModularAgent)
    → HasRoutes ma
    → HasRoutes (start_agents agents ma)
unfolding start_agents
start_agents-HasRoutes [] ma h = h
start_agents-HasRoutes (agent ∷ agents) ma h = elim (Bool-cases agent.disabled) [
  | inl e ↦ rw e (start_agents-HasRoutes agents ma h)
  | inr e ↦ rw e (
      start_agents-HasRoutes agents (start_agent agent.id ma).1
        ((start_agent-HasRoutes agent.id).at ma h))
]

stop_agents-HasRoutes :
    (agents : List AgentSpec) (ma : ModularAgent) → HasRoutes ma → HasRoutes (stop_agents agents ma)
unfolding stop_agents
stop_agents-HasRoutes [] ma h = h
stop_agents-HasRoutes (agent ∷ agents) ma h =
    stop_agents-HasRoutes agents (stop_agent agent.id ma).1
      ((stop_agent-HasRoutes agent.id).at ma h)

remove_agents-HasRoutes :
    (agents : List AgentSpec) (ma : ModularAgent)
    → HasRoutes ma
    → HasRoutes (remove_agents agents ma)
unfolding remove_agents
remove_agents-HasRoutes [] ma h = h
remove_agents-HasRoutes (agent ∷ agents) ma h =
    remove_agents-HasRoutes agents (remove_agent_internal agent.id ma).1
      ((remove_agent_internal-HasRoutes agent.id).at ma h)

remove_connections-HasRoutes :
    (cs : List ConnectionSpec) (ma : ModularAgent)
    → HasRoutes ma
    → HasRoutes (remove_connections cs ma)
unfolding remove_connections
remove_connections-HasRoutes [] ma h = h
remove_connections-HasRoutes (c ∷ cs) ma h =
    remove_connections-HasRoutes cs _ (remove_connection_internal-IsWellFormed c ma.connections h)

run_preset-HasRoutes :
    (id : String) (p : Preset) (ma : ModularAgent) → HasRoutes ma → HasRoutes (run_preset id p ma)
unfolding run_preset put_preset reset_preset_token
run_preset-HasRoutes id p ma h = elim (Bool-cases p.running) [
  | inl e ↦ rw e h
  | inr e ↦ rw e (start_agents-HasRoutes p.spec.agents _ h)
]

cancel_preset_token-connections :
    (id : String) (ma : ModularAgent) → (cancel_preset_token id ma).connections ≡ ma.connections
unfolding cancel_preset_token
cancel_preset_token-connections id ma = ground arith

halt_preset-HasRoutes :
    (id : String) (p : Preset) (ma : ModularAgent) → HasRoutes ma → HasRoutes (halt_preset id p ma)
unfolding halt_preset put_preset remove_preset_token
halt_preset-HasRoutes id p ma h =
    stop_agents-HasRoutes p.spec.agents (cancel_preset_token p.id ma)
      (subst IsWellFormed (sym (cancel_preset_token-connections p.id ma)) h)

pub start_preset-HasRoutes : (id : String) → Preserves HasRoutes (start_preset id)
unfolding start_preset
start_preset-HasRoutes id = search (preserves_rules, run_preset-HasRoutes)

pub stop_preset-HasRoutes : (id : String) → Preserves HasRoutes (stop_preset id)
unfolding stop_preset
stop_preset-HasRoutes id = search (preserves_rules, halt_preset-HasRoutes)

forget_preset-HasRoutes :
    (id : String) (ma : ModularAgent) → HasRoutes ma → HasRoutes (forget_preset id ma)
unfolding forget_preset
forget_preset-HasRoutes id ma h = h

remove_preset_token-HasRoutes :
    (id : String) (ma : ModularAgent) → HasRoutes ma → HasRoutes (remove_preset_token id ma)
unfolding remove_preset_token
remove_preset_token-HasRoutes id ma h = h

pub emit-HasRoutes :
    (event : ModularAgentEvent) (ma : ModularAgent) → HasRoutes ma → HasRoutes (emit event ma)
unfolding emit
emit-HasRoutes event ma h = h

pub remove_preset-HasRoutes : (id : String) → Preserves HasRoutes (remove_preset id)
unfolding remove_preset
remove_preset-HasRoutes id =
    search
      (
        preserves_rules, halt_preset-HasRoutes, remove_agents-HasRoutes,
        remove_connections-HasRoutes, forget_preset-HasRoutes, remove_preset_token-HasRoutes,
        emit-HasRoutes,
      )
      depth 16

rename_preset-connections :
    (id new_name : String) (ma : ModularAgent)
    → (rename_preset id new_name ma).1.connections ≡ ma.connections
unfolding rename_preset rename_reserve rename_confirm ◌>>=◌ put_preset emit claim confirm_found
rename_preset-connections id new_name ma = ground arith

pub rename_preset-HasRoutes :
    (id new_name : String) → Preserves HasRoutes (rename_preset id new_name)
rename_preset-HasRoutes id new_name = record {
  at = λ ma h. subst IsWellFormed (sym (rename_preset-connections id new_name ma)) h;
}

create-HasRoutes :
    (spec : PresetSpec) (name : Option String) → Preserves HasRoutes (create spec name)
unfolding create
create-HasRoutes spec name = record { at = λ ma h. h }

reserve-HasRoutes : (name : Option String) (id : String) → Preserves HasRoutes (reserve name id)
unfolding reserve
reserve-HasRoutes none id = record { at = λ ma h. h }
reserve-HasRoutes (some name) id = record {
  at = λ ma h. elim (Option-cases (IndexMap.get ma.preset_names name)) [
    | inl e ↦ rw e h
    | inr (owner, e) ↦ rw e h
  ];
}

insert_preset-connections :
    (id : String) (name : Option String) (p : Preset) (ma : ModularAgent)
    → (insert_preset id name p ma).1.connections ≡ ma.connections
unfolding insert_preset release
insert_preset-connections id none p ma = ground arith
insert_preset-connections id (some name) p ma = ground arith

insert_preset-HasRoutes :
    (id : String) (name : Option String) (p : Preset)
    → Preserves HasRoutes (insert_preset id name p)
insert_preset-HasRoutes id name p = record {
  at = λ ma h. subst IsWellFormed (sym (insert_preset-connections id name p ma)) h;
}

pub add_preset_raw-HasRoutes :
    (spec : PresetSpec) (name : Option String) → Preserves HasRoutes (add_preset_raw spec name)
unfolding add_preset_raw
add_preset_raw-HasRoutes spec name =
    search
      (
        preserves_rules, create-HasRoutes, reserve-HasRoutes, add_agents-HasRoutes,
        add_connections-HasRoutes, insert_preset-HasRoutes, emit-HasRoutes,
      )
      depth 16
