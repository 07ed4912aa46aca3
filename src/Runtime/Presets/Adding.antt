-- ===== src/Runtime/Presets/Adding.antt =====
-- Adding a preset in modular_agent.rs keeps the two tables of presets in agreement.
use modular_agent_core.Runtime.Presets.Names.Tables.{
  NamesAgree, add-NamesAgree, add_named-NamesAgree, release-NamesAgree,
}
use mathlib.Core.Path.{subst}
use modular_agent_core.Prelude.{
  String, ◌≡◌, refl, ◌∙◌, Option, none, some, Option-cases, inl, inr, arith, sym,
}
use modular_agent_core.IndexMap
use modular_agent_core.IndexMap.{IndexMap}
use modular_agent_core.Error.{Result, ok, err}
use modular_agent_core.Spec.{PresetSpec}
use modular_agent_core.Preset
use modular_agent_core.Preset.{Preset}
use modular_agent_core.Runtime.{ModularAgent, ModularAgentEvent, preset_added, emit}
use modular_agent_core.Runtime.Exec.{pure, announce, and_then, ◌>>=◌, ◌>>◌}
use modular_agent_core.Runtime.Lifecycle.Frame.{registry}
use modular_agent_core.Runtime.Presets.Frame.{registry-add_agents, registry-add_connections}
use modular_agent_core.Runtime.Presets.{insert_preset, add_agents, add_connections, add_preset_raw}
use modular_agent_core.Runtime.Presets.Names.{Agrees, along}

filled : Preset → ModularAgent → ModularAgent
filled p ma = add_connections p.spec.connections (add_agents p.id p.spec.agents ma)

registry-filled : (p : Preset) (ma : ModularAgent) → registry (filled p ma) ≡ registry ma
unfolding filled
registry-filled p ma =
    registry-add_connections p.spec.connections (add_agents p.id p.spec.agents ma)
    ∙ registry-add_agents p.id p.spec.agents ma

insert_preset-NamesAgree_bare :
    (p : Preset) (ma : ModularAgent)
    → p.name ≡ none
    → Agrees ma
    → Agrees (insert_preset p.id none p ma).1
unfolding insert_preset
insert_preset-NamesAgree_bare p ma bare agree = elim (Option-cases (IndexMap.get ma.presets p.id)) [
  | inl e ↦ rw e (add-NamesAgree ma.presets ma.preset_names agree p.id p e bare)
  | inr (q, e) ↦ rw e agree
]

-- The name was reserved for the new id and is free otherwise.
insert_preset-NamesAgree_named :
    (p : Preset) (name : String) (ma : ModularAgent) (names : IndexMap String)
    → p.name ≡ some name
    → IndexMap.get names name ≡ none
    → ma.preset_names ≡ IndexMap.insert names name p.id
    → NamesAgree ma.presets names
    → Agrees (insert_preset p.id (some name) p ma).1
unfolding insert_preset
insert_preset-NamesAgree_named p name ma names carried free reserved agree =
    elim (Option-cases (IndexMap.get ma.presets p.id)) [
      | inl e ↦
          rw (e, reserved) (add_named-NamesAgree ma.presets names agree p.id name p e free carried)
      | inr (q, e) ↦ rw (e, reserved) (release-NamesAgree ma.presets names agree name p.id free)
    ]

announced :
    (event : ModularAgentEvent) (id : String) (r : Result (Unit {0})) (ma : ModularAgent)
    → Agrees ma
    → Agrees (and_then (r, ma) (λ _. announce event >> pure id)).1
unfolding ◌>>=◌ emit
announced event id (ok u) ma agree = agree
announced event id (err e) ma agree = agree

pub add_preset_raw-NamesAgree_bare :
    (spec : PresetSpec) (ma : ModularAgent) → Agrees ma → Agrees (add_preset_raw spec none ma).1
unfolding add_preset_raw ◌>>=◌ filled Preset.new
add_preset_raw-NamesAgree_bare spec ma agree =
    let (p, counter) = Preset.new spec ma.id_counter in
    let ma' = record ma { id_counter = counter } in
    let ma'' = filled p ma' in
    let (r, left) = insert_preset p.id none p ma'' in
    announced (preset_added p.id none) p.id r left (
      insert_preset-NamesAgree_bare p ma'' refl
        (along ma'' (registry ma') (registry-filled p ma') agree))

add_preset_raw-NamesAgree_free :
    (spec : PresetSpec) (name : String) (ma : ModularAgent)
    → IndexMap.get ma.preset_names name ≡ none
    → Agrees ma
    → Agrees (add_preset_raw spec (some name) ma).1
unfolding add_preset_raw ◌>>=◌ filled Preset.new Preset.set_name
add_preset_raw-NamesAgree_free spec name ma free agree =
    let (p, counter) = Preset.new spec ma.id_counter in
    let p' = Preset.set_name p name in
    let ma' = record ma {
      id_counter = counter;
      preset_names = IndexMap.insert ma.preset_names name p.id;
    } in
    let ma'' = filled p' ma' in
    let (r, left) = insert_preset p.id (some name) p' ma'' in
    rw free (
      announced (preset_added p.id (some name)) p.id r left (
        insert_preset-NamesAgree_named p' name ma'' ma.preset_names refl free
          (ground (arith, registry-filled p' ma'))
          (subst (λ t. NamesAgree t.0 ma.preset_names) (sym (registry-filled p' ma')) agree)))

-- If the two tables of presets agree, they agree after a preset is added with or without a name,
-- whether the name was in use, the id was in use, or the call succeeds.
pub add_preset_raw-NamesAgree :
    (spec : PresetSpec) (name : Option String) (ma : ModularAgent)
    → Agrees ma
    → Agrees (add_preset_raw spec name ma).1
unfolding add_preset_raw ◌>>=◌
add_preset_raw-NamesAgree spec none ma agree = add_preset_raw-NamesAgree_bare spec ma agree
add_preset_raw-NamesAgree spec (some name) ma agree =
    elim (Option-cases (IndexMap.get ma.preset_names name)) [
      | inl e ↦ add_preset_raw-NamesAgree_free spec name ma e agree
      | inr (owner, e) ↦ rw e agree
    ]
