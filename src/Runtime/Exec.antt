-- ===== src/Runtime/Exec.antt =====
-- Operations on the runtime that may fail. What was written before an error stays written.
pub mod Keeps
pub mod Preserves
use modular_agent_core.Prelude.{Option, none, some}
use modular_agent_core.Error.{AgentError, Result, ok, err}
use modular_agent_core.Runtime.{ModularAgent, ModularAgentEvent, emit}

abbrev pub Action : Type 0 → Type 0
Action A = ModularAgent → Result A × ModularAgent

module _ {A : Type 0} where
  pub pure : A → Action A
  pure a ma = (ok a, ma)

  pub fail : AgentError → Action A
  fail e ma = (err e, ma)

  pub lift : Result A → Action A
  lift r ma = (r, ma)

  pub gets : (ModularAgent → A) → Action A
  gets f ma = (ok (f ma), ma)

  abbrev required : Option A → AgentError → Result A
  required none e = err e
  required (some a) e = ok a

  -- `o.ok_or(e)?`
  pub require : Option A → AgentError → Action A
  require o e ma = (required o e, ma)

  -- `o.ok_or(e)?` of a value that is looked up in the state
  pub find : (ModularAgent → Option A) → AgentError → Action A
  find f e ma = (required (f ma) e, ma)

pub modify : (ModularAgent → ModularAgent) → Action (Unit {0})
modify f ma = (ok tt, f ma)

pub announce : ModularAgentEvent → Action (Unit {0})
announce event ma = (ok tt, emit event ma)

module _ {A B : Type 0} where
  abbrev pub and_then : Result A × ModularAgent → (A → Action B) → Result B × ModularAgent
  and_then (ok a, ma) f = f a ma
  and_then (err e, ma) f = (err e, ma)

  infixl 5 ◌>>=◌
  -- opening this opens the actions above
  unfoldable pub ◌>>=◌ : Action A → (A → Action B) → Action B
  unfolding pure fail lift gets require find modify announce
  ◌>>=◌ m f ma = and_then (m ma) f

-- The state after a call whose error is only logged.
abbrev pub log_error : {A : Type 0} → Result A × ModularAgent → ModularAgent
log_error (r, ma) = ma

infixl 5 ◌>>◌
abbrev pub ◌>>◌ : {B : Type 0} → Action (Unit {0}) → Action B → Action B
m >> k = m >>= λ _. k
