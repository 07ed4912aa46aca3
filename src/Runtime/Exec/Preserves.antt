-- ===== src/Runtime/Exec/Preserves.antt =====
-- An invariant that holds after an action if it held before, whether the action fails or not.
use modular_agent_core.Prelude.{sym, Option}
use mathlib.Core.Path.{subst}
use modular_agent_core.Error.{AgentError, Result, ok, err}
use modular_agent_core.Runtime.{ModularAgent, ModularAgentEvent, emit}
use modular_agent_core.Runtime.Exec.{
  Action, pure, fail, lift, gets, find, modify, announce, and_then, ◌>>=◌,
}
use modular_agent_core.Runtime.Exec.Keeps.{Keeps}

pub record Preserves (P : ModularAgent → Type 0) {A : Type 0} (m : Action A) : Type 0 where
  pub at : (ma : ModularAgent) → P ma → P (m ma).1

module _ {P : ModularAgent → Type 0} {A : Type 0} where
  pub Preserves-pure : (a : A) → Preserves P (pure a)
  unfolding ◌>>=◌
  Preserves-pure a = record { at = λ ma h. h }

  pub Preserves-fail : (e : AgentError) → Preserves P (fail {A = A} e)
  unfolding ◌>>=◌
  Preserves-fail e = record { at = λ ma h. h }

  pub Preserves-lift : (r : Result A) → Preserves P (lift r)
  unfolding ◌>>=◌
  Preserves-lift r = record { at = λ ma h. h }

  pub Preserves-gets : (f : ModularAgent → A) → Preserves P (gets f)
  unfolding ◌>>=◌
  Preserves-gets f = record { at = λ ma h. h }

  pub Preserves-find : (f : ModularAgent → Option A) (e : AgentError) → Preserves P (find f e)
  unfolding ◌>>=◌
  Preserves-find f e = record { at = λ ma h. h }

module _ {P : ModularAgent → Type 0} where
  pub Preserves-modify :
      (f : ModularAgent → ModularAgent)
      → ((ma : ModularAgent) → P ma → P (f ma))
      → Preserves P (modify f)
  unfolding ◌>>=◌
  Preserves-modify f h = record { at = h }

  pub Preserves-announce :
      (event : ModularAgentEvent)
      → ((ma : ModularAgent) → P ma → P (emit event ma))
      → Preserves P (announce event)
  unfolding ◌>>=◌
  Preserves-announce event h = record { at = h }

module _ {P : ModularAgent → Type 0} {A B : Type 0} where
  Preserves-and_then :
      (r : Result A) (f : A → Action B) (ma : ModularAgent)
      → ((a : A) → Preserves P (f a))
      → P ma
      → P (and_then (r, ma) f).1
  Preserves-and_then (ok a) f ma h p = (h a).at ma p
  Preserves-and_then (err e) f ma h p = p

  pub Preserves-bind :
      (m : Action A) (f : A → Action B)
      → Preserves P m
      → ((a : A) → Preserves P (f a))
      → Preserves P (m >>= f)
  unfolding ◌>>=◌
  Preserves-bind m f pm pf = record {
    at = λ ma p. let (r, ma') = m ma in Preserves-and_then r f ma' pf (pm.at ma p);
  }

-- An action that leaves alone what the invariant reads.
pub Preserves-of_Keeps :
    {X : Type 0} (obs : ModularAgent → X) (Q : X → Type 0) {A : Type 0} (m : Action A)
    → Keeps obs m
    → Preserves (λ ma. Q (obs ma)) m
Preserves-of_Keeps obs Q m k = record { at = λ ma p. subst Q (sym (k.at ma)) p }

pub ruleset preserves_rules = (
  Preserves-pure, Preserves-fail, Preserves-lift, Preserves-gets, Preserves-find, Preserves-modify,
  Preserves-announce, Preserves-bind,
)
