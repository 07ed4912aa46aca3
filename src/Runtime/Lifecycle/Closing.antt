-- ===== src/Runtime/Lifecycle/Closing.antt =====
-- What `stop_agent` of modular_agent.rs does to the channel and the token of an agent.
use modular_agent_core.Prelude.{
  ℕ, String, ◌≡◌, ap, ◌∙◌, append-nil, Option, none, some, List, [], ◌∷◌, ◌++◌, arith, ◌==◌,
  if◌then◌else◌,
}
use modular_agent_core.IndexMap
use modular_agent_core.IndexMap.{IndexMap, get-swap_remove}
use modular_agent_core.Cancel
use modular_agent_core.Agent.{Agent}
use modular_agent_core.Runtime.{ModularAgent}
use modular_agent_core.Runtime.Exec.{Action, ◌>>=◌}
use modular_agent_core.Runtime.Exec.Keeps.{Keeps, Keeps-bind, Keeps-find}
use modular_agent_core.Runtime.Tokens.{take_agent_token}
use modular_agent_core.Runtime.Lifecycle.{
  put_agent, find_agent, close_sender, stop_if_started, stop_agent,
}

-- The senders, the token slots and the tokens that were fired.
abbrev pub Slots : Type 0
Slots = (IndexMap ℕ × IndexMap (ℕ × ℕ)) × List ℕ

abbrev pub slots : ModularAgent → Slots
slots ma = ((ma.agent_txs, ma.agent_tokens), ma.tokens.fired)

abbrev pub token_in : Option (ℕ × ℕ) → List ℕ
token_in none = []
token_in (some (generation, t)) = t ∷ []

-- The agent's own stop, after its channel and its token were taken.
halt : String → Action (Unit {0})
halt id = do agent ← find_agent id; stop_if_started id agent

stop_if_started-KeepsSlots : (id : String) (agent : Agent) → Keeps slots (stop_if_started id agent)
unfolding stop_if_started put_agent ◌>>=◌
stop_if_started-KeepsSlots id agent = record { at = λ ma. ground arith }

halt-KeepsSlots : (id : String) → Keeps slots (halt id)
unfolding halt
halt-KeepsSlots id = Keeps-bind _ _ (Keeps-find _ _) (stop_if_started-KeepsSlots id)

Taken : String → String → ModularAgent → Type 0
Taken id j ma =
    let left = take_agent_token id (close_sender id ma) in
    (IndexMap.get left.agent_txs j ≡ (if id == j then none else IndexMap.get ma.agent_txs j))
    × (IndexMap.get left.agent_tokens j
        ≡ (if id == j then none else IndexMap.get ma.agent_tokens j))
    × (left.tokens.fired ≡ ma.tokens.fired ++ token_in (IndexMap.get ma.agent_tokens id))

take-lem : (id j : String) (ma : ModularAgent) → Taken id j ma
unfolding Taken take_agent_token close_sender Cancel.cancel
take-lem id j ma = (
  ground (arith, get-swap_remove ma.agent_txs id j),
  ground (arith, get-swap_remove ma.agent_tokens id j),
  ground (arith, append-nil ma.tokens.fired),
)

-- After an agent is stopped, whether its own stop succeeds, fails or the agent is not there, it has no
-- sender and no token in its slot, the token that was there is fired and no other, and the sender and
-- the slot of every other agent are as before.
pub stop_agent-slots :
    (id j : String) (ma : ModularAgent)
    → (IndexMap.get (stop_agent id ma).1.agent_txs j
        ≡ (if id == j then none else IndexMap.get ma.agent_txs j))
      × (IndexMap.get (stop_agent id ma).1.agent_tokens j
          ≡ (if id == j then none else IndexMap.get ma.agent_tokens j))
      × ((stop_agent id ma).1.tokens.fired
          ≡ ma.tokens.fired ++ token_in (IndexMap.get ma.agent_tokens id))
unfolding stop_agent ◌>>=◌ Taken halt
stop_agent-slots id j ma =
    let left = take_agent_token id (close_sender id ma) in
    let kept = (halt-KeepsSlots id).at left in
    let now = take-lem id j ma in
    (
      ap (λ s. IndexMap.get s.0.0 j) kept ∙ now.0,
      ap (λ s. IndexMap.get s.0.1 j) kept ∙ now.1,
      ap (λ s. s.1) kept ∙ now.2,
    )
