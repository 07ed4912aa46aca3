-- ===== src/Llm/Tokens/Tests.antt =====
-- A question, an answer with its usage, and another question.
use modular_agent_core.Prelude.{◌+◌, ◌%◌, ◌^◌, ◌≡◌, refl, inl, some, [], ◌∷◌, ◌++◌}
use modular_agent_core.Llm.{Usage, Message, new, user, assistant}
use modular_agent_core.Llm.Tokens.{estimate_context_tokens}
use modular_agent_core.Llm.Tokens.Context.{costs, estimate_context_tokens-append}

abbrev usage : Usage
usage = record {
  input_tokens = 10;
  output_tokens = 5;
  cache_read_tokens = 0;
  cache_write_tokens = 0;
}

abbrev answer : Message
answer = record (assistant "yes") { usage = some usage }

estimate_context_tokens-append_example :
    estimate_context_tokens (λ j. "{}") ((user "really?" ∷ []) ++ answer ∷ user "why?" ∷ [])
    ≡ (usage.input_tokens
        + usage.output_tokens
        + usage.cache_read_tokens
        + usage.cache_write_tokens
        + costs (λ j. "{}") (user "why?" ∷ []))
      % 2 ^ 64
unfolding assistant user new
estimate_context_tokens-append_example =
    estimate_context_tokens-append (λ j. "{}") (user "really?" ∷ []) answer (user "why?" ∷ []) usage
      refl refl (inl refl, tt)
