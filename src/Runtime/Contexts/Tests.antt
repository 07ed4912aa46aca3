-- ===== src/Runtime/Contexts/Tests.antt =====
-- Two flows, of which the first asks for its token before the second.
use modular_agent_core.Prelude.{◌≡◌, refl, ℕ, Bool, true, some, [], ◌∷◌, ◌++◌}
use modular_agent_core.Cancel
use modular_agent_core.Runtime.{ModularAgent, new}
use modular_agent_core.Runtime.Contexts.{
  token_of, put_token, token_or_new, context_token, abort_context,
}
use modular_agent_core.Runtime.Contexts.Live.{context_token-live, abort_context-context_token}

abbrev held : ℕ → Bool
held t = true

abbrev one_flow : ModularAgent
one_flow = (context_token held 7 new).1

its_token : token_of 7 one_flow.context_tokens ≡ some 0
unfolding token_of context_token token_or_new put_token Cancel.create new Cancel.no_tokens
its_token = refl

context_token-live_example : token_of 7 (context_token held 8 one_flow).1.context_tokens ≡ some 0
context_token-live_example = context_token-live held 8 7 0 one_flow its_token refl

abort_context-context_token_example :
    ((abort_context held 7 (context_token held 7 one_flow).1).0 ≡ true)
    × ((abort_context held 7 (context_token held 7 one_flow).1).1.tokens.fired
        ≡ (context_token held 7 one_flow).1.tokens.fired ++ (context_token held 7 one_flow).0 ∷ [])
abort_context-context_token_example = abort_context-context_token held held 7 one_flow refl
