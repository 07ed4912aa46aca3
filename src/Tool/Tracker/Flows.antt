-- ===== src/Tool/Tracker/Flows.antt =====
-- Which contexts belong to a flow of the trackers in tool.rs: those whose key is the flow's.
use modular_agent_core.Prelude.{
  ℕ, suc, String, ◌≡◌, sym, ap, ◌∙◌, Bool, true, false, List, [], ◌∷◌, arith, ◌==◌, eq_iff,
  if◌then◌else◌,
}
use modular_agent_core.Error.{Result, ok, err}
use modular_agent_core.Context.{AgentContext, ctx_key}

abbrev is_key : String → Result String → Bool
is_key key (ok k) = k == key
is_key key (err e) = false

abbrev pub in_flow : String → AgentContext → Bool
in_flow key ctx = is_key key (ctx_key ctx)

-- How many of the deliveries are not of the flow, and the values of those that are.
abbrev pub others {ℓ} : {A : Type ℓ} → String → List (AgentContext × A) → ℕ
others key [] = 0
others key ((ctx, x) ∷ xs) = if in_flow key ctx then others key xs else suc (others key xs)

abbrev pub of_flow {ℓ} : {A : Type ℓ} → String → List (AgentContext × A) → List A
of_flow key [] = []
of_flow key ((ctx, x) ∷ xs) = if in_flow key ctx then x ∷ of_flow key xs else of_flow key xs

pub in_flow-apart :
    (key k : String) (ctx : AgentContext)
    → in_flow key ctx ≡ false
    → ctx_key ctx ≡ ok k
    → (k == key) ≡ false
in_flow-apart key k ctx out keyed = sym (ap (is_key key) keyed) ∙ out

is_key-ok : (key : String) (r : Result String) → is_key key r ≡ true → r ≡ ok key
is_key-ok key (ok k) e = ap ok (ground (arith, e, eq_iff k key))
is_key-ok key (err e) h = absurd (cc)

pub in_flow-keyed :
    (key : String) (ctx : AgentContext) → in_flow key ctx ≡ true → ctx_key ctx ≡ ok key
in_flow-keyed key ctx e = is_key-ok key (ctx_key ctx) e
