-- ===== src/Runtime/Edit/Batches.antt =====
-- A batch of agents and connections keeps the two tables of presets in agreement.
use modular_agent_core.Prelude.{
  String, ◌≡◌, refl, ◌∙◌, Option, none, some, List, [], ◌∷◌, length, take, inl, inr,
}
use modular_agent_core.Error.{AgentError, Result-cases}
use modular_agent_core.Id.{update_ids}
use modular_agent_core.Spec.{AgentSpec, ConnectionSpec}
use modular_agent_core.Preset
use modular_agent_core.Preset.{Preset}
use modular_agent_core.Runtime.{ModularAgent, preset_structure_changed}
use modular_agent_core.Runtime.Exec.Preserves.{Preserves}
use modular_agent_core.Runtime.Lifecycle.{add_agent_internal}
use modular_agent_core.Runtime.Presets.{put_preset}
use modular_agent_core.Runtime.Presets.Names.{Agrees}
use modular_agent_core.Runtime.Edit.{
  connect, Batch, add_batch, connect_batch, connect_if, undo_agents, undo_connections, settle,
  run_batches, add_agents_and_connections,
}
use modular_agent_core.Runtime.Edit.Names.{
  With, Preserves-found, put_preset-With, constructed-With, emit-With, connect-With,
}

-- A preset and a runtime between the steps of a batch: the tables agree and the preset's name stands.
Between : String → Preset → Preset → ModularAgent → Type 0
Between id p q ma = With id p ma × (q.name ≡ p.name)

add_batch-Between :
    (id : String) (p : Preset) (agents : List AgentSpec) (q : Preset) (ma : ModularAgent)
    → Between id p q ma
    → Between id p (add_batch id agents q ma).preset (add_batch id agents q ma).runtime
unfolding add_batch Between
add_batch-Between id p [] q ma h = h
add_batch-Between id p (agent ∷ agents) q ma h =
    elim (Result-cases (add_agent_internal id agent ma).0) [
      | inl (failure, e) ↦ rw (add_batch, e) (next h q h.1)
      | inr (constructed, e) ↦
          rw (add_batch, e)
            (add_batch-Between id p agents (Preset.add_agent q constructed)
              (add_agent_internal id agent ma).1
              (next h (Preset.add_agent q constructed) (unfold Preset.add_agent in h.1)))
    ]
  where
    next :
        Between id p q ma
        → (q' : Preset) → q'.name ≡ p.name
        → Between id p q' (add_agent_internal id agent ma).1
    next h q' same = ((constructed-With id p id agent).at ma h.0, same)

connect_batch-Between :
    (id : String) (p : Preset) (cs : List ConnectionSpec) (q : Preset) (ma : ModularAgent)
    → Between id p q ma
    → Between id p (connect_batch cs q ma).preset (connect_batch cs q ma).runtime
unfolding connect_batch Between
connect_batch-Between id p [] q ma h = h
connect_batch-Between id p (c ∷ cs) q ma h = elim (Result-cases (connect c ma).0) [
  | inl (failure, e) ↦ rw (connect_batch, e) ((connect-With id p c).at ma h.0, h.1)
  | inr (u, e) ↦
      rw (connect_batch, e)
        (connect_batch-Between id p cs (Preset.add_connection q c) (connect c ma).1
          ((connect-With id p c).at ma h.0, unfold Preset.add_connection in h.1))
]

connect_if-Between :
    (failure : Option AgentError) (id : String) (p : Preset) (cs : List ConnectionSpec) (q : Preset)
    (ma : ModularAgent)
    → Between id p q ma
    → Between id p (connect_if failure cs q ma).preset (connect_if failure cs q ma).runtime
unfolding connect_if
connect_if-Between none id p cs q ma h = connect_batch-Between id p cs q ma h
connect_if-Between (some e) id p cs q ma h = h

undo_connections-Between :
    (id : String) (p : Preset) (cs : List ConnectionSpec) (q : Preset) (ma : ModularAgent)
    → Between id p q ma
    → Between id p (undo_connections cs (q, ma)).0 (undo_connections cs (q, ma)).1
unfolding undo_connections Between With
undo_connections-Between id p [] q ma h = h
undo_connections-Between id p (c ∷ cs) q ma h =
    undo_connections-Between id p cs (Preset.remove_connection q c).1 _
      (h.0, name-remove_connection q c ∙ h.1)
  where
    name-remove_connection :
        (q : Preset) (c : ConnectionSpec) → (Preset.remove_connection q c).1.name ≡ q.name
    name-remove_connection q c = unfold Preset.remove_connection in refl

undo_agents-Between :
    (id : String) (p : Preset) (agents : List AgentSpec) (q : Preset) (ma : ModularAgent)
    → Between id p q ma
    → Between id p (undo_agents agents (q, ma)).0 (undo_agents agents (q, ma)).1
unfolding undo_agents Between With
undo_agents-Between id p [] q ma h = h
undo_agents-Between id p (agent ∷ agents) q ma h =
    undo_agents-Between id p agents (Preset.remove_agent q agent.id) _
      (h.0, unfold Preset.remove_agent in h.1)

settle-With :
    (failure : Option AgentError) (id : String) (p : Preset) (agents : List AgentSpec)
    (cs : List ConnectionSpec) (first : Batch AgentSpec) (second : Batch ConnectionSpec)
    → Between id p second.preset second.runtime
    → With id p (settle failure id agents cs first second).1
unfolding settle Between
settle-With none id p agents cs first second h =
    emit-With id p (preset_structure_changed id) (put_preset id second.preset second.runtime)
      (put_preset-With id p second.preset second.runtime h.1 h.0)
settle-With (some e) id p agents cs first second h =
    let cs' = take (length second.added) cs in
    let agents' = take (length first.added) agents in
    let (q, ma) = undo_connections cs' (second.preset, second.runtime) in
    let undone =
      undo_agents-Between id p agents' q ma
        (undo_connections-Between id p cs' second.preset second.runtime h) in
    let (q', ma') = undo_agents agents' (q, ma) in put_preset-With id p q' ma' undone.1 undone.0

run_batches-With :
    (id : String) (agents : List AgentSpec) (cs : List ConnectionSpec) (p : Preset)
    → Preserves (With id p) (run_batches id agents cs p)
unfolding run_batches Between
run_batches-With id agents cs p = record {
  at = λ ma h.
      let first = add_batch id agents p ma in
      let second = connect_if first.failure cs first.preset first.runtime in
      settle-With second.failure id p agents cs first second (
        connect_if-Between first.failure id p cs first.preset first.runtime
          (add_batch-Between id p agents p ma (h, refl)));
}

pub add_agents_and_connections-Agrees :
    (id : String) (agents : List AgentSpec) (cs : List ConnectionSpec)
    → Preserves Agrees (add_agents_and_connections id agents cs)
unfolding add_agents_and_connections
add_agents_and_connections-Agrees id agents cs = record {
  at = λ ma h.
      let (agents', cs', counter) = update_ids agents cs ma.id_counter in
      (Preserves-found id (run_batches id agents' cs') (run_batches-With id agents' cs')).at
        (record ma { id_counter = counter }) h;
}
