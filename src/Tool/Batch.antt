-- ===== src/Tool/Batch.antt =====
-- `call_tools` of tool.rs. What the scheduler does is an argument: for each await, which calls of the
-- batch complete, in which order, and whether the token of the context fires before the rest.
pub mod Outcomes
pub mod Answers
pub mod Complete
use modular_agent_core.Prelude.{
  ℕ, zero, suc, String, Bool, true, false, not, Option, none, some, List, [], ◌∷◌, ◌++◌, map,
  length, get_elem?, set_elem, if◌then◌else◌,
}
use modular_agent_core.Llm.{ToolCall, Message}
use modular_agent_core.Context.{AgentContext}
use modular_agent_core.Tool.{ExecutionMode, sequential, parallel, Tool, ToolRegistry, get_tool}
use modular_agent_core.Tool.Call.{Libraries, error_tool_result, execute_tool_call}

abbrev pub aborted_tool_result : String
aborted_tool_result = "Operation aborted"

unfoldable pub aborted : ToolCall → Message
aborted call = error_tool_result call aborted_tool_result

-- One await. The calls of a batch run at most `max_concurrency` at a time, so not every order is
-- possible; an index that is no call of the batch does nothing.
pub record Turn : Type 0 where
  pub order : List ℕ
  pub fires : Bool

-- Without a token nothing fires.
cut : Option ℕ → Turn → Bool
cut none turn = false
cut (some token) turn = turn.fires

mode_of : Option Tool → ExecutionMode
mode_of none = sequential
mode_of (some t) = t.info.execution_mode

is_parallel_mode : ExecutionMode → Bool
is_parallel_mode sequential = false
is_parallel_mode parallel = true

unfoldable pub is_parallel : ToolRegistry → ToolCall → Bool
unfolding mode_of is_parallel_mode
is_parallel registry call = is_parallel_mode (mode_of (get_tool call.function.name registry))

empty_slots : List ToolCall → List (Option Message)
empty_slots [] = []
empty_slots (call ∷ batch) = none ∷ empty_slots batch

abbrev drop {ℓ} : {A : Type ℓ} → ℕ → List A → List A
drop zero l = l
drop (suc n) [] = []
drop (suc n) (x ∷ l) = drop n l

module _ (execute : ToolCall → Message) where
  fill_at : List ToolCall → ℕ → Option ToolCall → List (Option Message) → List (Option Message)
  fill_at batch i none slots = slots
  fill_at batch i (some call) slots = set_elem slots i (some (execute call))

  -- `slots[index] = Some(msg)` for each call that completes
  fill : List ToolCall → List ℕ → List (Option Message) → List (Option Message)
  unfolding fill_at
  fill batch [] slots = slots
  fill batch (i ∷ order) slots = fill batch order (fill_at batch i (get_elem? batch i) slots)

  result_in : Option Message → ToolCall → Message
  result_in (some m) call = m
  result_in none call = aborted call

  collect : List (Option Message) → List ToolCall → List Message
  unfolding result_in
  collect (slot ∷ slots) (call ∷ batch) = result_in slot call ∷ collect slots batch
  collect _ _ = []

  -- The results of a batch, with whether the token has not fired.
  flush_parallel_batch : Option ℕ → Turn → List ToolCall → List Message × Bool
  unfolding fill collect empty_slots
  flush_parallel_batch cancel turn [] = ([], true)
  flush_parallel_batch cancel turn (call ∷ batch) = (
    collect (fill (call ∷ batch) turn.order (empty_slots (call ∷ batch))) (call ∷ batch),
    not (cut cancel turn),
  )

  -- The awaits of a batch: none, if it is empty.
  awaits : List ToolCall → ℕ → ℕ
  awaits [] n = n
  awaits (call ∷ batch) n = suc n

  -- The results for the pending batch and the calls behind it, with whether the token has fired. A
  -- sequential call waits for the batch in front of it.
  run_calls :
      (ToolCall → Bool)
      → Option ℕ
      → (ℕ → Turn)
      → List ToolCall
      → List ToolCall
      → ℕ
      → List Message × Bool
  unfolding flush_parallel_batch awaits cut
  run_calls is_par cancel turns [] batch n =
      let (results, fine) = flush_parallel_batch cancel (turns n) batch in (results, not fine)
  run_calls is_par cancel turns (call ∷ calls) batch n =
      let pending = run_calls is_par cancel turns calls (batch ++ call ∷ []) n in
      let (results, fine) = flush_parallel_batch cancel (turns n) batch in
      let own = awaits batch n in
      let (later, fired) = run_calls is_par cancel turns calls [] (suc own) in
      if is_par call
      then pending
      else if not fine
      then (results, true)
      else if cut cancel (turns own)
      then (results, true)
      else (results ++ execute call ∷ later, fired)

  complete : List ToolCall → List Message × Bool → List Message
  complete calls (results, false) = results
  complete calls (results, true) = results ++ map aborted (drop (length results) calls)

  unfoldable pub call_all : (ToolCall → Bool) → Option ℕ → (ℕ → Turn) → List ToolCall → List Message
  unfolding run_calls complete
  call_all is_par cancel turns [] = []
  call_all is_par cancel turns (call ∷ calls) =
      complete (call ∷ calls) (run_calls is_par cancel turns (call ∷ calls) [] 0)

-- The tool functions answer as they do when the token has not fired.
unfoldable pub call_tools :
    Libraries
    → (fired : ℕ → Bool) → ToolRegistry
    → AgentContext
    → (ℕ → Turn)
    → List ToolCall
    → List Message
unfolding call_all is_parallel
call_tools libraries fired registry ctx turns calls =
    call_all (execute_tool_call libraries fired registry ctx) (is_parallel registry) ctx.cancel
      turns calls
