-- ===== src/Runtime/Tokens.antt =====
-- The cancellation tokens of presets and agents in modular_agent.rs.
pub mod Slots
mod Tests
use modular_agent_core.Prelude.{ℕ, ◌+◌, ◌%◌, ◌^◌, String, Option, none, some, nat_eq, if◌then◌else◌}
use modular_agent_core.IndexMap
use modular_agent_core.Cancel
use modular_agent_core.Runtime.{ModularAgent}

-- `entry(preset_id).or_default()`
preset_token : String → ModularAgent → ℕ × ModularAgent
preset_token preset_id ma =
    let (t, tokens) = Cancel.create none ma.tokens in
    elim (IndexMap.get ma.preset_tokens preset_id) [
      | some old ↦ (old, ma)
      | none ↦ (
        t,
        record ma { tokens = tokens; preset_tokens = IndexMap.insert ma.preset_tokens preset_id t },
      )
    ]

unfoldable pub reset_preset_token : String → ModularAgent → ModularAgent
reset_preset_token preset_id ma =
    let (t, tokens) = Cancel.create none ma.tokens in
    record ma { tokens = tokens; preset_tokens = IndexMap.insert ma.preset_tokens preset_id t }

unfoldable pub cancel_preset_token : String → ModularAgent → ModularAgent
cancel_preset_token preset_id ma = elim (IndexMap.get ma.preset_tokens preset_id) [
  | none ↦ ma
  | some t ↦ record ma { tokens = Cancel.cancel t ma.tokens }
]

unfoldable pub remove_preset_token : String → ModularAgent → ModularAgent
remove_preset_token preset_id ma = record ma {
  preset_tokens = IndexMap.swap_remove ma.preset_tokens preset_id;
}

-- The generation counter is an `AtomicU64`.
unfoldable pub create_agent_token : String → String → ModularAgent → (ℕ × ℕ) × ModularAgent
unfolding preset_token
create_agent_token preset_id agent_id ma =
    let generation = ma.token_generation in
    let (parent, ma') =
      preset_token preset_id (record ma { token_generation = (generation + 1) % 2 ^ 64 }) in
    let (t, tokens) = Cancel.create (some parent) ma'.tokens in
    (
      (generation, t),
      record ma' {
        tokens = tokens;
        agent_tokens = IndexMap.insert ma'.agent_tokens agent_id (generation, t);
      },
    )

-- The slot is replaced if it still belongs to this generation. The parent is looked up, never made.
renew_slot : String → ℕ → ℕ → Option (ℕ × ℕ) → ModularAgent → Option ℕ × ModularAgent
renew_slot agent_id generation parent none ma =
    let (fresh, tokens) = Cancel.create (some parent) ma.tokens in
    (none, record ma { tokens = tokens })
renew_slot agent_id generation parent (some (owner, old)) ma =
    let (fresh, tokens) = Cancel.create (some parent) ma.tokens in
    if nat_eq owner generation
    then (
      some fresh,
      record ma {
        tokens = tokens;
        agent_tokens = IndexMap.insert ma.agent_tokens agent_id (owner, fresh);
      },
    )
    else (none, record ma { tokens = tokens })

renew_under : String → ℕ → Option ℕ → ModularAgent → Option ℕ × ModularAgent
unfolding renew_slot
renew_under agent_id generation none ma = (none, ma)
renew_under agent_id generation (some parent) ma =
    renew_slot agent_id generation parent (IndexMap.get ma.agent_tokens agent_id) ma

unfoldable pub renew_agent_token : String → String → ℕ → ModularAgent → Option ℕ × ModularAgent
unfolding renew_under
renew_agent_token preset_id agent_id generation ma =
    renew_under agent_id generation (IndexMap.get ma.preset_tokens preset_id) ma

unfoldable pub take_agent_token : String → ModularAgent → ModularAgent
take_agent_token agent_id ma =
    let left = record ma { agent_tokens = IndexMap.swap_remove ma.agent_tokens agent_id } in
    elim (IndexMap.get ma.agent_tokens agent_id) [
      | none ↦ left
      | some (generation, t) ↦ record left { tokens = Cancel.cancel t ma.tokens }
    ]
