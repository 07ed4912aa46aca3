-- ===== src/Runtime/Presets/Names.antt =====
-- The operations on presets in modular_agent.rs keep the two tables of presets in agreement.
pub mod Tables
use Tables.{
  NamesAgree, put-NamesAgree, add-NamesAgree, add_named-NamesAgree, release-NamesAgree,
  rename-NamesAgree, forget-NamesAgree, empty-NamesAgree,
}
use mathlib.Core.Path.{subst}
use modular_agent_core.Prelude.{
  String, ◌≡◌, refl, ◌∙◌, Bool, true, false, not, Bool-cases, Option, none, some, Option-cases, inl,
  inr, List, [], ◌∷◌, arith, ◌==◌, if◌then◌else◌, sym, ap, eq_iff,
}
use modular_agent_core.IndexMap
use modular_agent_core.IndexMap.{IndexMap}
use modular_agent_core.Error.{AgentError, Result, ok, err, preset_name_exists}
use modular_agent_core.Spec.{PresetSpec}
use modular_agent_core.Preset
use modular_agent_core.Preset.{Preset}
use modular_agent_core.Runtime.{ModularAgent, ModularAgentEvent, preset_added, emit, new}
use modular_agent_core.Runtime.Exec.{pure, announce, and_then, ◌>>=◌, ◌>>◌}
use modular_agent_core.Runtime.Tokens.{reset_preset_token, cancel_preset_token, remove_preset_token}
use modular_agent_core.Runtime.Lifecycle.Frame.{Registry, registry}
use modular_agent_core.Runtime.Presets.Frame.{
  registry-add_agents, registry-add_connections, registry-start_agents, registry-stop_agents,
  registry-remove_agents, registry-remove_connections, registry-cancel_preset_token,
}
use modular_agent_core.Runtime.Presets.{
  create, insert_preset, add_agents, add_connections, reserve, claim, confirm_found, is_taken,
  put_preset, run_preset, halt_preset, start_preset, stop_preset, remove_preset, rename_preset,
  add_preset_raw, forget_preset, remove_agents, remove_connections, rename_reserve, rename_confirm,
}

abbrev pub Agrees : ModularAgent → Type 0
Agrees ma = NamesAgree ma.presets ma.preset_names

pub along :
    (ma : ModularAgent) (tables : Registry)
    → registry ma ≡ tables
    → NamesAgree tables.0 tables.1
    → Agrees ma
along ma tables e agree = subst (λ r. NamesAgree r.0 r.1) (sym e) agree

registry-run_preset :
    (id : String) (p : Preset) (ma : ModularAgent)
    → registry (run_preset id p ma) ≡ (
        if p.running
        then registry ma
        else (IndexMap.insert ma.presets id (record p { running = true }), ma.preset_names))
unfolding run_preset put_preset reset_preset_token
registry-run_preset id p ma = ground (
  arith,
  registry-start_agents p.spec.agents
      (reset_preset_token p.id (put_preset id (record p { running = true }) ma)),
)

run_preset-NamesAgree :
    (id : String) (p : Preset) (ma : ModularAgent)
    → IndexMap.get ma.presets id ≡ some p
    → Agrees ma
    → Agrees (run_preset id p ma)
run_preset-NamesAgree id p ma at agree = elim (Bool-cases p.running) [
  | inl e ↦
      along (run_preset id p ma) (registry ma) (ground (arith, registry-run_preset id p ma)) agree
  | inr e ↦
      along (run_preset id p ma)
        (IndexMap.insert ma.presets id (record p { running = true }), ma.preset_names)
        (ground (arith, registry-run_preset id p ma))
        (put-NamesAgree ma.presets ma.preset_names agree id p (record p { running = true }) at refl)
]

pub registry-halt_preset :
    (id : String) (p : Preset) (ma : ModularAgent)
    → registry (halt_preset id p ma)
      ≡ (IndexMap.insert ma.presets id (record p { running = false }), ma.preset_names)
unfolding halt_preset put_preset remove_preset_token
registry-halt_preset id p ma = ground (
  arith,
  registry-stop_agents p.spec.agents (cancel_preset_token p.id ma),
  registry-cancel_preset_token p.id ma,
)

pub halt_preset-NamesAgree :
    (id : String) (p : Preset) (ma : ModularAgent)
    → IndexMap.get ma.presets id ≡ some p
    → Agrees ma
    → Agrees (halt_preset id p ma)
halt_preset-NamesAgree id p ma at agree =
    along (halt_preset id p ma)
      (IndexMap.insert ma.presets id (record p { running = false }), ma.preset_names)
      (registry-halt_preset id p ma)
      (put-NamesAgree ma.presets ma.preset_names agree id p (record p { running = false }) at refl)

-- If the two tables of presets agree, they agree after a preset is stopped, whether or not the
-- call succeeds.
pub stop_preset-NamesAgree :
    (id : String) (ma : ModularAgent) → Agrees ma → Agrees (stop_preset id ma).1
unfolding stop_preset ◌>>=◌
stop_preset-NamesAgree id ma agree = elim (Option-cases (IndexMap.get ma.presets id)) [
  | inl e ↦ rw e agree
  | inr (p, e) ↦ rw e (halt_preset-NamesAgree id p ma e agree)
]

-- If the two tables of presets agree, they agree after a preset is started, whether or not the
-- call succeeds.
pub start_preset-NamesAgree :
    (id : String) (ma : ModularAgent) → Agrees ma → Agrees (start_preset id ma).1
unfolding start_preset ◌>>=◌
start_preset-NamesAgree id ma agree = elim (Option-cases (IndexMap.get ma.presets id)) [
  | inl e ↦ rw e agree
  | inr (p, e) ↦ rw e (run_preset-NamesAgree id p ma e agree)
]

unfoldable pub torn_down : String → Preset → ModularAgent → ModularAgent
torn_down id p ma =
    remove_connections p.spec.connections (remove_agents p.spec.agents (halt_preset id p ma))

pub registry-torn_down :
    (id : String) (p : Preset) (ma : ModularAgent)
    → registry (torn_down id p ma)
      ≡ (IndexMap.insert ma.presets id (record p { running = false }), ma.preset_names)
unfolding torn_down
registry-torn_down id p ma =
    registry-remove_connections p.spec.connections
      (remove_agents p.spec.agents (halt_preset id p ma))
    ∙ registry-remove_agents p.spec.agents (halt_preset id p ma)
    ∙ registry-halt_preset id p ma

torn_down-NamesAgree :
    (id : String) (p : Preset) (ma : ModularAgent)
    → IndexMap.get ma.presets id ≡ some p
    → Agrees ma
    → Agrees (torn_down id p ma)
unfolding torn_down
torn_down-NamesAgree id p ma at agree =
    along (torn_down id p ma) (registry (halt_preset id p ma))
      (registry-remove_connections p.spec.connections
          (remove_agents p.spec.agents (halt_preset id p ma))
        ∙ registry-remove_agents p.spec.agents (halt_preset id p ma))
      (halt_preset-NamesAgree id p ma at agree)

-- If the two tables of presets agree, they agree after a preset is removed, whether or not it is there.
pub remove_preset-NamesAgree :
    (id : String) (ma : ModularAgent) → Agrees ma → Agrees (remove_preset id ma).1
unfolding remove_preset ◌>>=◌ torn_down forget_preset remove_preset_token emit
remove_preset-NamesAgree id ma agree = elim (Option-cases (IndexMap.get ma.presets id)) [
  | inl e ↦ rw e agree
  | inr (p, e) ↦ rw e (
      forget-NamesAgree (torn_down id p ma).presets (torn_down id p ma).preset_names
        (torn_down-NamesAgree id p ma e agree) id)
]

rename_preset-NamesAgree_found :
    (id new_name : String) (p : Preset) (ma : ModularAgent)
    → IndexMap.get ma.presets id ≡ some p
    → Agrees ma
    → Agrees (rename_preset id new_name ma).1
unfolding rename_preset rename_reserve rename_confirm ◌>>=◌ emit put_preset Preset.set_name
rename_preset-NamesAgree_found id new_name p ma at agree =
    elim (Option-cases (IndexMap.get ma.preset_names new_name)) [
      | inl free ↦ rw (at, free, at) (renamed λ owner e. ground arith)
      | inr (holder, e) ↦ elim (Bool-cases (holder == id)) [
        | inl own ↦ rw (at, e, own, at) (renamed λ owner e'. ground (arith, eq_iff holder id))
        | inr other ↦ rw (at, e, other) agree
      ]
    ]
  where
    renamed :
        ((owner : String) → IndexMap.get ma.preset_names new_name ≡ some owner → owner ≡ id)
        → NamesAgree (IndexMap.insert ma.presets id (Preset.set_name p new_name)) (
            IndexMap.insert
              (IndexMap.retain_entries (λ _ v. not (v == id)) ma.preset_names)
              new_name
              id)
    renamed mine =
        rename-NamesAgree ma.presets ma.preset_names agree id new_name (Preset.set_name p new_name)
          mine refl

-- If the two tables of presets agree, they agree after a rename, whether the name was free, the
-- preset's own or another's, and whether or not the preset exists.
pub rename_preset-NamesAgree :
    (id new_name : String) (ma : ModularAgent) → Agrees ma → Agrees (rename_preset id new_name ma).1
unfolding rename_preset rename_reserve ◌>>=◌
rename_preset-NamesAgree id new_name ma agree = elim (Option-cases (IndexMap.get ma.presets id)) [
  | inl e ↦ rw e agree
  | inr (p, e) ↦ rename_preset-NamesAgree_found id new_name p ma e agree
]

pub new-NamesAgree : Agrees new
unfolding new
new-NamesAgree = empty-NamesAgree
