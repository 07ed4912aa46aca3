-- ===== src/Runtime/Edit/Names.antt =====
-- The edits of a preset in modular_agent.rs keep the two tables of presets in agreement.
use mathlib.Core.Path.{subst}
use modular_agent_core.Prelude.{
  String, ◌≡◌, refl, sym, ◌∙◌, Bool, true, false, Option, none, some, Option-cases, arith, inl, inr,
  eq_iff, if◌then◌else◌,
}
use modular_agent_core.IndexMap
use modular_agent_core.IndexMap.{IndexMap}
use modular_agent_core.Error.{AgentError, Result}
use modular_agent_core.Spec.{AgentSpec, ConnectionSpec}
use modular_agent_core.Preset
use modular_agent_core.Preset.{Preset}
use modular_agent_core.Network.{remove_connection_internal}
use modular_agent_core.Runtime.{ModularAgent, ModularAgentEvent, preset_structure_changed, emit}
use modular_agent_core.Runtime.Exec.{Action, ◌>>=◌}
use modular_agent_core.Runtime.Exec.Preserves.{Preserves, Preserves-bind, preserves_rules}
use modular_agent_core.Runtime.Lifecycle.{add_agent_internal}
use modular_agent_core.Runtime.Lifecycle.Frame.{
  Registry, registry, registry-add_agent_internal, remove_agent_internal-Keeps,
}
use modular_agent_core.Runtime.Presets.{find_preset, put_preset}
use modular_agent_core.Runtime.Presets.Names.Tables.{NamesAgree, put-NamesAgree}
use modular_agent_core.Runtime.Presets.Names.{Agrees}
use modular_agent_core.Runtime.Edit.{
  next_id, check, check_ends, enter_connection, connect, try_remove, drop_spec, disconnect,
  add_agent, add_connection, remove_agent, remove_connection,
}

-- The tables agree, and the preset under the id has the name of `p`.
unfoldable pub WithTables : String → Preset → Registry → Type 0
WithTables id p (presets, names) =
    NamesAgree presets names
    × ((q : Preset) × (IndexMap.get presets id ≡ some q) × (q.name ≡ p.name))

unfoldable pub With : String → Preset → ModularAgent → Type 0
unfolding WithTables
With id p ma = WithTables id p (registry ma)

-- A call that looks a preset up and goes on with it.
pub Preserves-found :
    (id : String) {A : Type 0} (k : Preset → Action A)
    → ((p : Preset) → Preserves (With id p) (k p))
    → Preserves Agrees (find_preset id >>= k)
unfolding ◌>>=◌ With
Preserves-found id k h = record {
  at = λ ma agree. elim (Option-cases (IndexMap.get ma.presets id)) [
    | inl e ↦ rw e agree
    | inr (p, e) ↦ rw e ((h p).at ma (agree, (p, e, refl))).0
  ];
}

pub put_preset-With :
    (id : String) (p p' : Preset) (ma : ModularAgent)
    → p'.name ≡ p.name
    → With id p ma
    → With id p (put_preset id p' ma)
unfolding With put_preset
put_preset-With id p p' ma same (agree, (q, e, named)) = (
  put-NamesAgree ma.presets ma.preset_names agree id q p' e (same ∙ sym named),
  (p', ground (arith, IndexMap.get-insert ma.presets id id p', eq_iff id id), same),
)

module _ (id : String) (p : Preset) where
  next_id-With : Preserves (With id p) next_id
  unfolding next_id With
  next_id-With = record { at = λ ma h. h }

  pub constructed-With :
      (preset_id : String) (spec : AgentSpec)
      → Preserves (With id p) (add_agent_internal preset_id spec)
  unfolding With
  constructed-With preset_id spec = record {
    at = λ ma h. subst (WithTables id p) (sym (registry-add_agent_internal preset_id spec ma)) h;
  }

  pub emit-With :
      (event : ModularAgentEvent) (ma : ModularAgent) → With id p ma → With id p (emit event ma)
  unfolding emit With
  emit-With event ma h = h

  put_agent-With :
      (agent : AgentSpec) (ma : ModularAgent)
      → With id p ma
      → With id p (put_preset id (Preset.add_agent p agent) ma)
  unfolding Preset.add_agent
  put_agent-With agent ma h = put_preset-With id p (Preset.add_agent p agent) ma refl h

  put_connection-With :
      (c : ConnectionSpec) (ma : ModularAgent)
      → With id p ma
      → With id p (put_preset id (Preset.add_connection p c) ma)
  unfolding Preset.add_connection
  put_connection-With c ma h = put_preset-With id p (Preset.add_connection p c) ma refl h

  pub connect-With : (c : ConnectionSpec) → Preserves (With id p) (connect c)
  unfolding connect With
  connect-With c = record { at = λ ma h. h }

pub add_agent-Agrees : (id : String) (spec : AgentSpec) → Preserves Agrees (add_agent id spec)
unfolding add_agent
add_agent-Agrees id spec = Preserves-found id _ (λ p.
    search (preserves_rules, next_id-With, constructed-With, put_agent-With, emit-With) depth 16)

check-Agrees : (passed : Bool) (e : AgentError) → Preserves Agrees (check passed e)
unfolding check
check-Agrees passed e = record { at = λ ma h. h }

check_ends-Agrees : (c : ConnectionSpec) → Preserves Agrees (check_ends c)
unfolding check_ends
check_ends-Agrees c = search (preserves_rules, check-Agrees) depth 16

enter_connection-Agrees :
    (id : String) (c : ConnectionSpec) → Preserves Agrees (enter_connection id c)
unfolding enter_connection
enter_connection-Agrees id c =
    Preserves-found id _
      (λ p. search (preserves_rules, connect-With, put_connection-With, emit-With) depth 16)

pub add_connection-Agrees :
    (id : String) (c : ConnectionSpec) → Preserves Agrees (add_connection id c)
unfolding add_connection
add_connection-Agrees id c =
    Preserves-bind _ _ (check_ends-Agrees c) (λ _. enter_connection-Agrees id c)

try_remove-With :
    (id : String) (p : Preset) (agent_id : String) → Preserves (With id p) (try_remove agent_id)
unfolding try_remove With
try_remove-With id p agent_id = record {
  at = λ ma h. subst (WithTables id p) (sym ((remove_agent_internal-Keeps agent_id).at ma)) h;
}

either-With :
    (id : String) (p : Preset) (b : Bool) (x y : Result (Unit {0}) × ModularAgent)
    → With id p x.1
    → With id p y.1
    → With id p (if b then x else y).1
either-With id p true x y h k = h
either-With id p false x y h k = k

drop_spec-With :
    (id : String) (p : Preset) (agent_id : String) (gone : Bool)
    → Preserves (With id p) (drop_spec id agent_id gone p)
unfolding drop_spec Preset.remove_agent
drop_spec-With id p agent_id gone = record {
  at = λ ma h.
      let kept = put_preset-With id p (Preset.remove_agent p agent_id) ma refl h in
      either-With id p _ _ _ kept (
        emit-With id p (preset_structure_changed id)
          (put_preset id (Preset.remove_agent p agent_id) ma) kept);
}

pub remove_agent-Agrees : (id agent_id : String) → Preserves Agrees (remove_agent id agent_id)
unfolding remove_agent
remove_agent-Agrees id agent_id = Preserves-found id _ (λ p.
    Preserves-bind _ _ (try_remove-With id p agent_id) (λ gone. drop_spec-With id p agent_id gone))

disconnect-With :
    (id : String) (p q : Preset) (found : Option ConnectionSpec) (c : ConnectionSpec)
    → q.name ≡ p.name
    → Preserves (With id p) (disconnect id (found, q) c)
unfolding disconnect With
disconnect-With id p q none c same = record { at = λ ma h. put_preset-With id p q ma same h }
disconnect-With id p q (some d) c same = record {
  at = λ ma h.
      let ma' = record ma { connections = remove_connection_internal d ma.connections } in
      emit-With id p (preset_structure_changed id) (put_preset id q ma')
        (put_preset-With id p q ma' same h);
}

pub remove_connection-Agrees :
    (id : String) (c : ConnectionSpec) → Preserves Agrees (remove_connection id c)
unfolding remove_connection
remove_connection-Agrees id c = Preserves-found id _ (λ p.
    let (found, q) = Preset.remove_connection p c in
    disconnect-With id p q found c (unfold Preset.remove_connection in refl))
