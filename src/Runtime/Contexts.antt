-- ===== src/Runtime/Contexts.antt =====
-- The cancellation tokens of contexts in modular_agent.rs. The table holds weak references: whether a
-- token is still held by some context is the parameter `alive` (`Weak::upgrade`, `strong_count`).
pub mod Live
pub mod Frame
mod Tests
use modular_agent_core.Prelude.{
  ℕ, Bool, true, false, Option, none, some, List, [], ◌∷◌, ltb, nat_eq, length, retain,
  if◌then◌else◌,
}
use modular_agent_core.Cancel
use modular_agent_core.Runtime.{ModularAgent}

abbrev context_token_prune_threshold : ℕ
context_token_prune_threshold = 1024

-- `get` and `insert` of the table
unfoldable pub token_of : ℕ → List (ℕ × ℕ) → Option ℕ
token_of ctx_id [] = none
token_of ctx_id ((id, t) ∷ rest) =
    let later = token_of ctx_id rest in if nat_eq id ctx_id then some t else later

unfoldable pub put_token : ℕ → ℕ → List (ℕ × ℕ) → List (ℕ × ℕ)
put_token ctx_id t [] = (ctx_id, t) ∷ []
put_token ctx_id t ((id, old) ∷ rest) =
    let later = put_token ctx_id t rest in
    if nat_eq id ctx_id then (id, t) ∷ rest else (id, old) ∷ later

module _ (alive : ℕ → Bool) where
  abbrev pub upgrade : Option ℕ → Option ℕ
  upgrade none = none
  upgrade (some t) = if alive t then some t else none

  unfoldable pub prune : List (ℕ × ℕ) → List (ℕ × ℕ)
  prune tokens =
      if ltb (length tokens) context_token_prune_threshold
      then tokens
      else retain (λ entry. alive entry.1) tokens

  token_or_new : ℕ → Option ℕ → ModularAgent → ℕ × ModularAgent
  unfolding prune put_token
  token_or_new ctx_id (some t) ma = (t, ma)
  token_or_new ctx_id none ma =
      let (t, tokens) = Cancel.create none ma.tokens in
      (
        t,
        record ma {
          tokens = tokens;
          context_tokens = put_token ctx_id t (prune ma.context_tokens);
        },
      )

  unfoldable pub context_token : ℕ → ModularAgent → ℕ × ModularAgent
  unfolding token_or_new token_of
  context_token ctx_id ma = token_or_new ctx_id (upgrade (token_of ctx_id ma.context_tokens)) ma

  abort_token : Option ℕ → ModularAgent → Bool × ModularAgent
  abort_token none ma = (false, ma)
  abort_token (some t) ma = (true, record ma { tokens = Cancel.cancel t ma.tokens })

  unfoldable pub abort_context : ℕ → ModularAgent → Bool × ModularAgent
  unfolding abort_token token_of
  abort_context ctx_id ma = abort_token (upgrade (token_of ctx_id ma.context_tokens)) ma
