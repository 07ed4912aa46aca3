-- ===== src/Cancel.antt =====
-- The calls that the runtime makes of `tokio_util::sync::CancellationToken`, in order. A token is
-- known by its number; what the library does on a call is not modelled here.
use modular_agent_core.Prelude.{ℕ, ◌+◌, Option, List, [], ◌∷◌, ◌++◌}

pub record Tokens : Type 0 where
  pub next : ℕ
  -- each token with the one that it is a child of
  pub created : List (ℕ × Option ℕ)
  -- the tokens on which `cancel` was called
  pub fired : List ℕ

unfoldable pub no_tokens : Tokens
no_tokens = record { next = 0; created = []; fired = [] }

-- `CancellationToken::new()`, or `parent.child_token()`
unfoldable pub create : Option ℕ → Tokens → ℕ × Tokens
create parent s =
    (s.next, record s { next = s.next + 1; created = s.created ++ (s.next, parent) ∷ [] })

-- `token.cancel()`
unfoldable pub cancel : ℕ → Tokens → Tokens
cancel t s = record s { fired = s.fired ++ t ∷ [] }
