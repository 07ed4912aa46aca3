-- ===== src/Runtime/Tokens/Slots.antt =====
-- The token slot of an agent in modular_agent.rs: who may write it, and what a stop does to it.
use modular_agent_core.Prelude.{
  ℕ, String, ◌≡◌, Bool, false, ◌&&◌, Option, none, some, [], ◌∷◌, ◌++◌, arith, ◌==◌, eq_iff, nat_eq,
  if◌then◌else◌,
}
use modular_agent_core.IndexMap
use modular_agent_core.IndexMap.{IndexMap, is_some}
use modular_agent_core.Cancel
use modular_agent_core.Runtime.{ModularAgent}
use modular_agent_core.Runtime.Tokens.{
  renew_slot, renew_under, renew_agent_token, take_agent_token, create_agent_token, preset_token,
}

-- The slot belongs to the loop of this generation.
abbrev pub owns : ℕ → Option (ℕ × ℕ) → Bool
owns generation none = false
owns generation (some (owner, t)) = nat_eq owner generation

-- A loop that renews its token gets the next fresh token if the slot of its agent still is its own and
-- the preset has a token, and no token otherwise. In the first case the slot of its agent holds the new
-- token, under the loop's generation; every other slot, and in the second case every slot, is as before.
pub get-renew_agent_token :
    (preset_id agent_id : String) (generation : ℕ) (j : String) (ma : ModularAgent)
    → ((renew_agent_token preset_id agent_id generation ma).0 ≡ (
        if owns generation (IndexMap.get ma.agent_tokens agent_id)
          && is_some (IndexMap.get ma.preset_tokens preset_id)
        then some ma.tokens.next
        else none))
      × (IndexMap.get (renew_agent_token preset_id agent_id generation ma).1.agent_tokens j ≡ (
          if agent_id == j
            && (owns generation (IndexMap.get ma.agent_tokens agent_id)
                && is_some (IndexMap.get ma.preset_tokens preset_id))
          then some (generation, ma.tokens.next)
          else IndexMap.get ma.agent_tokens j))
unfolding renew_agent_token renew_under renew_slot Cancel.create
get-renew_agent_token preset_id agent_id generation j ma = (
  ground arith,
  ground (
    arith,
    eq_iff agent_id j,
    IndexMap.get-insert ma.agent_tokens agent_id j (generation, ma.tokens.next),
  ),
)

-- Taking the token of an agent empties its slot and no other.
pub get-take_agent_token :
    (agent_id j : String) (ma : ModularAgent)
    → IndexMap.get (take_agent_token agent_id ma).agent_tokens j
      ≡ (if agent_id == j then none else IndexMap.get ma.agent_tokens j)
unfolding take_agent_token
get-take_agent_token agent_id j ma =
    ground (arith, IndexMap.get-swap_remove ma.agent_tokens agent_id j)

-- The loop of an agent gets a new token, a child of its preset's token, in its slot.
pub create_agent_token-child :
    (preset_id agent_id : String) (parent : ℕ) (ma : ModularAgent)
    → IndexMap.get ma.preset_tokens preset_id ≡ some parent
    → (IndexMap.get (create_agent_token preset_id agent_id ma).1.agent_tokens agent_id
        ≡ some (ma.token_generation, ma.tokens.next))
      × ((create_agent_token preset_id agent_id ma).1.tokens.created
          ≡ ma.tokens.created ++ (ma.tokens.next, some parent) ∷ [])
unfolding create_agent_token preset_token Cancel.create
create_agent_token-child preset_id agent_id parent ma e = ground (
  arith,
  eq_iff agent_id agent_id,
  IndexMap.get-insert ma.agent_tokens agent_id agent_id (ma.token_generation, ma.tokens.next),
)
