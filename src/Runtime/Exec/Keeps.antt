-- ===== src/Runtime/Exec/Keeps.antt =====
-- What an action leaves alone: `obs` reads the same before and after it, whether it fails or not.
use modular_agent_core.Prelude.{◌≡◌, refl, ◌∙◌, ap, Option}
use modular_agent_core.Error.{AgentError, Result, ok, err}
use modular_agent_core.Runtime.{ModularAgent, ModularAgentEvent, emit}
use modular_agent_core.Runtime.Exec.{
  Action, pure, fail, lift, gets, require, find, modify, announce, and_then, ◌>>=◌,
}

pub record Keeps {X : Type 0} (obs : ModularAgent → X) {A : Type 0} (m : Action A) : Type 0 where
  pub at : (ma : ModularAgent) → obs (m ma).1 ≡ obs ma

module _ {X : Type 0} {obs : ModularAgent → X} {A : Type 0} where
  pub Keeps-pure : (a : A) → Keeps obs (pure a)
  unfolding ◌>>=◌
  Keeps-pure a = record { at = λ ma. refl }

  pub Keeps-fail : (e : AgentError) → Keeps obs (fail {A = A} e)
  unfolding ◌>>=◌
  Keeps-fail e = record { at = λ ma. refl }

  pub Keeps-lift : (r : Result A) → Keeps obs (lift r)
  unfolding ◌>>=◌
  Keeps-lift r = record { at = λ ma. refl }

  pub Keeps-gets : (f : ModularAgent → A) → Keeps obs (gets f)
  unfolding ◌>>=◌
  Keeps-gets f = record { at = λ ma. refl }

  pub Keeps-require : (o : Option A) (e : AgentError) → Keeps obs (require o e)
  unfolding ◌>>=◌
  Keeps-require o e = record { at = λ ma. refl }

  pub Keeps-find : (f : ModularAgent → Option A) (e : AgentError) → Keeps obs (find f e)
  unfolding ◌>>=◌
  Keeps-find f e = record { at = λ ma. refl }

module _ {X : Type 0} {obs : ModularAgent → X} where
  pub Keeps-modify :
      (f : ModularAgent → ModularAgent)
      → ((ma : ModularAgent) → obs (f ma) ≡ obs ma)
      → Keeps obs (modify f)
  unfolding ◌>>=◌
  Keeps-modify f h = record { at = h }

  pub Keeps-announce :
      (event : ModularAgentEvent)
      → ((ma : ModularAgent) → obs (emit event ma) ≡ obs ma)
      → Keeps obs (announce event)
  unfolding ◌>>=◌
  Keeps-announce event h = record { at = h }

module _ {X : Type 0} {obs : ModularAgent → X} {A B : Type 0} where
  Keeps-and_then :
      (r : Result A) (f : A → Action B) (ma : ModularAgent)
      → ((a : A) → Keeps obs (f a))
      → obs (and_then (r, ma) f).1 ≡ obs ma
  Keeps-and_then (ok a) f ma h = (h a).at ma
  Keeps-and_then (err e) f ma h = refl

  pub Keeps-bind :
      (m : Action A) (f : A → Action B)
      → Keeps obs m
      → ((a : A) → Keeps obs (f a))
      → Keeps obs (m >>= f)
  unfolding ◌>>=◌
  Keeps-bind m f km kf = record {
    at = λ ma. let (r, ma') = m ma in Keeps-and_then r f ma' kf ∙ km.at ma;
  }

-- What reads less is kept as well.
pub Keeps-ap :
    {X Y : Type 0} {obs : ModularAgent → X} {A : Type 0} (m : Action A) (f : X → Y)
    → Keeps obs m
    → Keeps (λ ma. f (obs ma)) m
Keeps-ap m f k = record { at = λ ma. ap f (k.at ma) }

pub ruleset keeps_rules = (
  Keeps-pure, Keeps-fail, Keeps-lift, Keeps-gets, Keeps-require, Keeps-find, Keeps-modify,
  Keeps-announce, Keeps-bind,
)
