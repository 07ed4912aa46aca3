-- ===== src/Runtime/Edit/Update.antt =====
-- `update_preset_spec` of modular_agent.rs: the extensions of a preset's specification are set.
use modular_agent_core.Prelude.{String, ◌≡◌, Option-cases, inl, inr, some}
use modular_agent_core.IndexMap
use modular_agent_core.Json
use modular_agent_core.Json.{Json}
use modular_agent_core.Error.{Result, ok, err, Result-cases}
use modular_agent_core.Preset
use modular_agent_core.Preset.{Preset}
use modular_agent_core.Runtime.{ModularAgent, preset_structure_changed, emit}
use modular_agent_core.Runtime.Exec.{Action, ◌>>=◌}
use modular_agent_core.Runtime.Presets.{find_preset, put_preset}
use modular_agent_core.Runtime.Presets.Names.{Agrees}
use modular_agent_core.Runtime.Presets.Names.Tables.{put-NamesAgree}
use modular_agent_core.Runtime.Presets.Routes.{HasRoutes}

put_updated : String → Result Preset → Action (Unit {0})
put_updated id (err e) ma = (err e, ma)
put_updated id (ok preset) ma =
    (ok tt, emit (preset_structure_changed id) (put_preset id preset ma))

unfoldable pub update_preset_spec : String → Json → Action (Unit {0})
unfolding put_updated
update_preset_spec id value = do
  preset ← find_preset id
  put_updated id (Preset.update_spec value preset)

name-update_spec :
    (value : Json) (p q : Preset) → Preset.update_spec value p ≡ ok q → q.name ≡ p.name
unfolding Preset.update_spec
name-update_spec value p q = elim (Option-cases (Json.as_object value)) [
  | inl e ↦ rw e (λ h. absurd (cc))
  | inr (fields, e) ↦ rw e (λ h. cc)
]

put_updated-Agrees :
    (id : String) (value : Json) (p : Preset) (ma : ModularAgent)
    → IndexMap.get ma.presets id ≡ some p
    → Agrees ma
    → Agrees (put_updated id (Preset.update_spec value p) ma).1
unfolding put_updated emit put_preset
put_updated-Agrees id value p ma found agree = elim (Result-cases (Preset.update_spec value p)) [
  | inl (e, refused) ↦ rw refused agree
  | inr (q, updated) ↦ rw updated (
      put-NamesAgree ma.presets ma.preset_names agree id p q found
        (name-update_spec value p q updated))
]

pub update_preset_spec-Agrees :
    (id : String) (value : Json) (ma : ModularAgent)
    → Agrees ma
    → Agrees (update_preset_spec id value ma).1
unfolding update_preset_spec ◌>>=◌
update_preset_spec-Agrees id value ma agree = elim (Option-cases (IndexMap.get ma.presets id)) [
  | inl e ↦ rw e agree
  | inr (p, e) ↦ rw e (put_updated-Agrees id value p ma e agree)
]

pub update_preset_spec-HasRoutes :
    (id : String) (value : Json) (ma : ModularAgent)
    → HasRoutes ma
    → HasRoutes (update_preset_spec id value ma).1
unfolding update_preset_spec put_updated emit put_preset ◌>>=◌
update_preset_spec-HasRoutes id value ma h = elim (Option-cases (IndexMap.get ma.presets id)) [
  | inl e ↦ rw e h
  | inr (p, e) ↦ rw e (elim (Result-cases (Preset.update_spec value p)) [
    | inl (refusal, refused) ↦ rw refused h
    | inr (q, updated) ↦ rw updated h
  ])
]
