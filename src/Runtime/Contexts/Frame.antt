-- ===== src/Runtime/Contexts/Frame.antt =====
-- The tokens of contexts leave the tables of presets and connections alone.
use modular_agent_core.Prelude.{ℕ, ◌≡◌, Bool, arith}
use modular_agent_core.Runtime.{ModularAgent}
use modular_agent_core.Runtime.Lifecycle.Frame.{tables}
use modular_agent_core.Runtime.Contexts.{token_or_new, context_token, abort_token, abort_context}

pub tables-context_token :
    (alive : ℕ → Bool) (ctx_id : ℕ) (ma : ModularAgent)
    → tables (context_token alive ctx_id ma).1 ≡ tables ma
unfolding context_token token_or_new
tables-context_token alive ctx_id ma = ground arith

pub tables-abort_context :
    (alive : ℕ → Bool) (ctx_id : ℕ) (ma : ModularAgent)
    → tables (abort_context alive ctx_id ma).1 ≡ tables ma
unfolding abort_context abort_token
tables-abort_context alive ctx_id ma = ground arith
