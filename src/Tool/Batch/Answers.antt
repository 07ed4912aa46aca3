-- ===== src/Tool/Batch/Answers.antt =====
-- The results of `call_tools` answer its calls: one each, of its tool and under its id.
use mathlib.Core.Path.{subst}
use modular_agent_core.Prelude.{ℕ, ◌≡◌, sym, Bool, ◌⊎◌, inl, inr, List, [], ◌∷◌, length, arith}
use modular_agent_core.Llm.{ToolCall, Message}
use modular_agent_core.Context.{AgentContext}
use modular_agent_core.Tool.{ToolRegistry}
use modular_agent_core.Tool.Call.{Libraries, execute_tool_call}
use modular_agent_core.Tool.Call.Answers.{
  Answers, error_tool_result-Answers, execute_tool_call-Answers,
}
use modular_agent_core.Tool.Batch.{aborted, Turn, call_tools}
use modular_agent_core.Tool.Batch.Outcomes.{Outcomes, call_tools-Outcomes}

-- The messages answer the calls, one for one.
abbrev pub AllAnswer : List ToolCall → List Message → Type 0
AllAnswer [] [] = Unit
AllAnswer [] (m ∷ results) = ⊥
AllAnswer (call ∷ calls) [] = ⊥
AllAnswer (call ∷ calls) (m ∷ results) = Answers call m × AllAnswer calls results

module _ (execute : ToolCall → Message)
    (answers : (call : ToolCall) → Answers call (execute call)) where
  Outcome-Answers :
      (call : ToolCall) (m : Message) → (m ≡ execute call) ⊎ (m ≡ aborted call) → Answers call m
  unfolding aborted
  Outcome-Answers call m (inl e) = subst (λ r. Answers call r) (sym e) (answers call)
  Outcome-Answers call m (inr e) =
      subst (λ r. Answers call r) (sym e) (error_tool_result-Answers call _)

  Outcomes-AllAnswer :
      (calls : List ToolCall) (results : List Message)
      → Outcomes execute calls results
      → length results ≡ length calls
      → AllAnswer calls results
  Outcomes-AllAnswer [] [] h e = tt
  Outcomes-AllAnswer [] (m ∷ results) h e = absurd h
  Outcomes-AllAnswer (call ∷ calls) [] h e = absurd (omega (arith, e))
  Outcomes-AllAnswer (call ∷ calls) (m ∷ results) h e =
      (Outcome-Answers call m h.0, Outcomes-AllAnswer calls results h.1 (omega (arith, e)))

-- Whatever the libraries, the tools and the scheduler do, and wherever the token fires, each tool call
-- gets one result in its place, with the role of a tool, the name of the called function and the id of
-- the call.
pub call_tools-AllAnswer :
    (libraries : Libraries) (fired : ℕ → Bool) (registry : ToolRegistry) (ctx : AgentContext)
    (turns : ℕ → Turn) (calls : List ToolCall)
    → AllAnswer calls (call_tools libraries fired registry ctx turns calls)
call_tools-AllAnswer libraries fired registry ctx turns calls =
    let (held, e) = call_tools-Outcomes libraries fired registry ctx turns calls in
    Outcomes-AllAnswer (execute_tool_call libraries fired registry ctx)
      (execute_tool_call-Answers libraries fired registry ctx) calls _ held e
