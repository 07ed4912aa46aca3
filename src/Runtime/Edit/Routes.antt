-- ===== src/Runtime/Edit/Routes.antt =====
-- The edits of a preset in modular_agent.rs keep the routing table well formed.
use mathlib.Core.Path.{subst}
use modular_agent_core.Prelude.{
  String, ◌≡◌, sym, Bool, Option, none, some, List, [], ◌∷◌, arith, length, take, inl, inr,
}
use modular_agent_core.Error.{AgentError, Result-cases}
use modular_agent_core.Id.{update_ids}
use modular_agent_core.Spec.{AgentSpec, ConnectionSpec}
use modular_agent_core.Preset
use modular_agent_core.Preset.{Preset}
use modular_agent_core.Network.WellFormed.{
  IsWellFormed, add_connection_internal-IsWellFormed, remove_connection_internal-IsWellFormed,
}
use modular_agent_core.Runtime.{ModularAgent, emit}
use modular_agent_core.Runtime.Exec.{◌>>=◌}
use modular_agent_core.Runtime.Exec.Preserves.{Preserves, preserves_rules}
use modular_agent_core.Runtime.Lifecycle.{add_agent_internal}
use modular_agent_core.Runtime.Presets.{find_preset, put_preset}
use modular_agent_core.Runtime.Presets.Routes.{
  HasRoutes, add_agent_internal-HasRoutes, remove_agent_internal-HasRoutes, emit-HasRoutes,
}
use modular_agent_core.Runtime.Edit.{
  next_id, check, check_ends, enter_connection, connect, Batch, add_batch, connect_batch,
  connect_if, undo_connections, settle, run_batches, try_remove, drop_spec, disconnect, add_agent,
  add_connection, add_agents_and_connections, remove_agent, remove_connection,
}
use modular_agent_core.Runtime.Edit.Stages.{connections-undo_agents, connections-add_batch}

put_preset-HasRoutes :
    (id : String) (p : Preset) (ma : ModularAgent) → HasRoutes ma → HasRoutes (put_preset id p ma)
unfolding put_preset
put_preset-HasRoutes id p ma h = h

next_id-HasRoutes : Preserves HasRoutes next_id
unfolding next_id
next_id-HasRoutes = record { at = λ ma h. h }

constructed-HasRoutes :
    (id : String) (spec : AgentSpec) → Preserves HasRoutes (add_agent_internal id spec)
constructed-HasRoutes id spec = record { at = add_agent_internal-HasRoutes id spec }

pub add_agent-HasRoutes : (id : String) (spec : AgentSpec) → Preserves HasRoutes (add_agent id spec)
unfolding add_agent
add_agent-HasRoutes id spec =
    search
      (
        preserves_rules, next_id-HasRoutes, constructed-HasRoutes, put_preset-HasRoutes,
        emit-HasRoutes,
      )
      depth 16

check-HasRoutes : (passed : Bool) (e : AgentError) → Preserves HasRoutes (check passed e)
unfolding check
check-HasRoutes passed e = record { at = λ ma h. h }

connect-HasRoutes : (c : ConnectionSpec) → Preserves HasRoutes (connect c)
unfolding connect
connect-HasRoutes c = record {
  at = λ ma h. add_connection_internal-IsWellFormed c ma.connections h;
}

pub add_connection-HasRoutes :
    (id : String) (c : ConnectionSpec) → Preserves HasRoutes (add_connection id c)
unfolding add_connection check_ends enter_connection
add_connection-HasRoutes id c =
    search
      (preserves_rules, check-HasRoutes, connect-HasRoutes, put_preset-HasRoutes, emit-HasRoutes)
      depth 24

connect_batch-HasRoutes :
    (cs : List ConnectionSpec) (p : Preset) (ma : ModularAgent)
    → HasRoutes ma
    → HasRoutes (connect_batch cs p ma).runtime
unfolding connect_batch
connect_batch-HasRoutes [] p ma h = h
connect_batch-HasRoutes (c ∷ cs) p ma h = elim (Result-cases (connect c ma).0) [
  | inl (failure, e) ↦ rw (connect_batch, e) ((connect-HasRoutes c).at ma h)
  | inr (u, e) ↦
      rw (connect_batch, e)
        (connect_batch-HasRoutes cs (Preset.add_connection p c) (connect c ma).1
          ((connect-HasRoutes c).at ma h))
]

connect_if-HasRoutes :
    (failure : Option AgentError) (cs : List ConnectionSpec) (p : Preset) (ma : ModularAgent)
    → HasRoutes ma
    → HasRoutes (connect_if failure cs p ma).runtime
unfolding connect_if
connect_if-HasRoutes none cs p ma h = connect_batch-HasRoutes cs p ma h
connect_if-HasRoutes (some e) cs p ma h = h

undo_connections-HasRoutes :
    (cs : List ConnectionSpec) (p : Preset) (ma : ModularAgent)
    → HasRoutes ma
    → HasRoutes (undo_connections cs (p, ma)).1
unfolding undo_connections
undo_connections-HasRoutes [] p ma h = h
undo_connections-HasRoutes (c ∷ cs) p ma h =
    undo_connections-HasRoutes cs _ _ (remove_connection_internal-IsWellFormed c ma.connections h)

settle-HasRoutes :
    (failure : Option AgentError) (id : String) (agents : List AgentSpec) (cs : List ConnectionSpec)
    (first : Batch AgentSpec) (second : Batch ConnectionSpec)
    → HasRoutes second.runtime
    → HasRoutes (settle failure id agents cs first second).1
unfolding settle put_preset emit
settle-HasRoutes none id agents cs first second h = h
settle-HasRoutes (some e) id agents cs first second h =
    let (q, ma) =
      undo_connections (take (length second.added) cs) (second.preset, second.runtime) in
    subst IsWellFormed (sym (connections-undo_agents (take (length first.added) agents) q ma))
      (undo_connections-HasRoutes (take (length second.added) cs) second.preset second.runtime h)

run_batches-HasRoutes :
    (id : String) (agents : List AgentSpec) (cs : List ConnectionSpec) (p : Preset)
    → Preserves HasRoutes (run_batches id agents cs p)
unfolding run_batches
run_batches-HasRoutes id agents cs p = record {
  at = λ ma h.
      let first = add_batch id agents p ma in
      let second = connect_if first.failure cs first.preset first.runtime in
      settle-HasRoutes second.failure id agents cs first second (
        connect_if-HasRoutes first.failure cs first.preset first.runtime
          (subst IsWellFormed (sym (connections-add_batch id agents p ma)) h));
}

pub add_agents_and_connections-HasRoutes :
    (id : String) (agents : List AgentSpec) (cs : List ConnectionSpec)
    → Preserves HasRoutes (add_agents_and_connections id agents cs)
unfolding add_agents_and_connections
add_agents_and_connections-HasRoutes id agents cs = record {
  at = λ ma h.
      let (agents', cs', counter) = update_ids agents cs ma.id_counter in
      (chain agents' cs').at (record ma { id_counter = counter }) h;
}
  where
    chain :
        (agents' : List AgentSpec) (cs' : List ConnectionSpec)
        → Preserves HasRoutes (find_preset id >>= λ p. run_batches id agents' cs' p)
    chain agents' cs' = search (preserves_rules, run_batches-HasRoutes)

try_remove-HasRoutes : (id : String) → Preserves HasRoutes (try_remove id)
unfolding try_remove
try_remove-HasRoutes id = record { at = λ ma h. (remove_agent_internal-HasRoutes id).at ma h }

drop_spec-connections :
    (preset_id id : String) (gone : Bool) (p : Preset) (ma : ModularAgent)
    → (drop_spec preset_id id gone p ma).1.connections ≡ ma.connections
unfolding drop_spec emit put_preset
drop_spec-connections preset_id id gone p ma = ground arith

drop_spec-HasRoutes :
    (preset_id id : String) (gone : Bool) (p : Preset)
    → Preserves HasRoutes (drop_spec preset_id id gone p)
drop_spec-HasRoutes preset_id id gone p = record {
  at = λ ma h. subst IsWellFormed (sym (drop_spec-connections preset_id id gone p ma)) h;
}

pub remove_agent-HasRoutes :
    (preset_id id : String) → Preserves HasRoutes (remove_agent preset_id id)
unfolding remove_agent
remove_agent-HasRoutes preset_id id =
    search (preserves_rules, try_remove-HasRoutes, drop_spec-HasRoutes) depth 8

disconnect-HasRoutes :
    (id : String) (found : Option ConnectionSpec × Preset) (c : ConnectionSpec)
    → Preserves HasRoutes (disconnect id found c)
unfolding disconnect put_preset emit
disconnect-HasRoutes id (none, p) c = record { at = λ ma h. h }
disconnect-HasRoutes id (some d, p) c = record {
  at = λ ma h. remove_connection_internal-IsWellFormed d ma.connections h;
}

pub remove_connection-HasRoutes :
    (id : String) (c : ConnectionSpec) → Preserves HasRoutes (remove_connection id c)
unfolding remove_connection
remove_connection-HasRoutes id c = search (preserves_rules, disconnect-HasRoutes)
