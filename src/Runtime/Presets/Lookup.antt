-- ===== src/Runtime/Presets/Lookup.antt =====
-- What the look-ups of presets answer after the operations of modular_agent.rs on presets.
use modular_agent_core.Prelude.{
  String, ◌≡◌, refl, false, not, Option, none, some, Option-cases, inl, inr, arith, ◌==◌, eq_iff,
  if◌then◌else◌,
}
use modular_agent_core.IndexMap
use modular_agent_core.IndexMap.{IndexMap}
use modular_agent_core.Error.{preset_name_exists, ok, err}
use modular_agent_core.Spec.{PresetSpec}
use modular_agent_core.Preset
use modular_agent_core.Preset.{Preset}
use modular_agent_core.Runtime.{ModularAgent, emit}
use modular_agent_core.Runtime.Exec.{◌>>=◌}
use modular_agent_core.Runtime.Tokens.{remove_preset_token}
use modular_agent_core.Runtime.Presets.Names.{torn_down, registry-torn_down}
use modular_agent_core.Runtime.Presets.{
  find_preset_id_by_name, put_preset, claim, confirm_found, rename_reserve, rename_confirm,
  rename_preset, forget_preset, remove_preset, add_preset_raw, create, reserve,
}

-- The owner of a name, unless it is the given preset.
abbrev pub without_owner : String → Option String → Option String
without_owner id none = none
without_owner id (some owner) = if owner == id then none else some owner

-- A preset cannot be added under a name that is in use: nothing but the id counter moves.
pub add_preset_raw-taken :
    (spec : PresetSpec) (name owner : String) (ma : ModularAgent)
    → find_preset_id_by_name ma name ≡ some owner
    → add_preset_raw spec (some name) ma ≡ (
      err (preset_name_exists name),
      record ma { id_counter = (Preset.new spec ma.id_counter).1 },
    )
unfolding add_preset_raw ◌>>=◌ create reserve find_preset_id_by_name
add_preset_raw-taken spec name owner ma e = rw e refl

-- After a rename that succeeds the new name leads to the preset, no other name does, and every other
-- name leads where it led before.
pub find_preset_id_by_name-rename_preset :
    (id new_name name : String) (ma : ModularAgent)
    → (rename_preset id new_name ma).0 ≡ ok tt
    → find_preset_id_by_name (rename_preset id new_name ma).1 name
      ≡ (if new_name == name then some id else without_owner id (find_preset_id_by_name ma name))
unfolding rename_preset rename_reserve rename_confirm ◌>>=◌ emit put_preset claim confirm_found
    find_preset_id_by_name
find_preset_id_by_name-rename_preset id new_name name ma done = ground (
  arith,
  IndexMap.get-insert (IndexMap.retain_entries (λ _ v. not (v == id)) ma.preset_names) new_name name
      id,
  IndexMap.get-retain_entries (λ _ v. not (v == id)) ma.preset_names name,
)

-- After a preset is removed it is not found, and every other preset is found as before.
pub get-remove_preset :
    (id j : String) (ma : ModularAgent)
    → IndexMap.get (remove_preset id ma).1.presets j
      ≡ (if id == j then none else IndexMap.get ma.presets j)
unfolding remove_preset ◌>>=◌ emit forget_preset remove_preset_token torn_down
get-remove_preset id j ma = elim (Option-cases (IndexMap.get ma.presets id)) [
  | inl e ↦ rw e (ground (arith, eq_iff id j))
  | inr (p, e) ↦ rw e (
      ground (
        arith,
        registry-torn_down id p ma,
        IndexMap.get-swap_remove (torn_down id p ma).presets id j,
        IndexMap.get-insert ma.presets id j (record p { running = false }),
      ))
]
