-- ===== src/Tool/Agents/CallToolMessage/Once.antt =====
-- `CallToolMessageAgent` executes each call of a flow once, however often its message comes.
use modular_agent_core.Prelude.{
  ℕ, suc, ◌+◌, ◌<◌, String, ◌≡◌, refl, ap, ◌∙◌, Bool, true, false, Bool-cases, inl, inr, Option,
  none, some, List, [], ◌∷◌, any, arith, ◌==◌,
}
use modular_agent_core.Error.{Result, ok, err}
use modular_agent_core.Llm.{ToolCall, Message}
use modular_agent_core.Value.{AgentValue}
use modular_agent_core.Context.{AgentContext, ctx_key}
use modular_agent_core.Spec.{AgentConfigs}
use modular_agent_core.Tool.{ToolRegistry, Regexes}
use modular_agent_core.Tool.Call.{Libraries}
use modular_agent_core.Tool.Batch.Answers.{AllAnswer, call_tools-AllAnswer}
use modular_agent_core.Tool.Agents.{Hooked}
use modular_agent_core.Tool.Batch.{Turn}
use modular_agent_core.Tool.Tracker.{max_tracked_ctx_keys}
use modular_agent_core.Tool.Tracker.Behind.{behind}
use modular_agent_core.Tool.Tracker.Flows.{in_flow, others, in_flow-keyed}
use modular_agent_core.Tool.Agents.CallToolMessage.{
  Executed, ids_of, is_executed, skip_executed, mark_all, put_all, final_calls, chosen, results,
  process_chosen, process_final, process,
}
use modular_agent_core.Tool.Agents.CallToolMessage.Marks.{
  answers, is_executed-mark_all, skip_executed-silent, answers-put_all, truncated-AllAnswer,
}
use modular_agent_core.Tool.Agents.CallToolMessage.Order.{
  executed-has_key, mark_all-known, chosen-keyed, process-Kept,
}

-- What comes with a value: how the tools and the scheduler act, and the agent's configuration.
pub record Delivery : Type 0 where
  pub fired : ℕ → Bool
  pub turns : ℕ → Turn
  pub configs : Option AgentConfigs
  pub value : AgentValue

module _ (libraries : Libraries) (compile : List String → Regexes) (registry : ToolRegistry)
    (ctx : AgentContext) where
  abbrev pub receive : Executed → Delivery → Hooked Executed
  receive state d = process libraries compile registry d.fired d.turns d.configs state ctx d.value

  -- What handling a value does to one id of the flow.
  record OnceStep (key id : String) (state : Executed) (r : Hooked Executed) : Type 0 where
    marks : answers id r.2 ≡ true → is_executed r.1 key id ≡ true
    keeps : is_executed state key id ≡ true → is_executed r.1 key id ≡ true
    silent : is_executed state key id ≡ true → answers id r.2 ≡ false
    stays : is_executed state key id ≡ true → r.1.ctx_key_order ≡ state.ctx_key_order

  idle-OnceStep :
      (key id : String) (state : Executed) (result : Result (Unit {0}))
      → OnceStep key id state (result, state, [])
  idle-OnceStep key id state result = record {
    marks = λ e. absurd (cc);
    keeps = λ e. e;
    silent = λ e. refl;
    stays = λ e. refl;
  }

  results-AllAnswer :
      (fired : ℕ → Bool) (turns : ℕ → Turn) (limited : Bool) (calls : List ToolCall)
      → AllAnswer calls (results libraries compile registry fired turns ctx limited calls)
  unfolding results
  results-AllAnswer fired turns true calls = truncated-AllAnswer calls
  results-AllAnswer fired turns false calls =
      call_tools-AllAnswer libraries fired registry ctx turns calls

  answered-OnceStep :
      (key id : String) (state : Executed) (calls : List ToolCall) (messages : List Message)
      → AllAnswer (skip_executed state key calls) messages
      → OnceStep key id state
          (ok tt, mark_all state key (skip_executed state key calls), put_all ctx messages)
  answered-OnceStep key id state calls messages h =
      let fresh = skip_executed state key calls in
      let marked = is_executed-mark_all state key fresh id in
      let answered = answers-put_all ctx id fresh messages h in
      record {
        marks = λ e. ground (arith, marked, answered, e);
        keeps = λ e. ground (arith, marked, e);
        silent = λ e. answered ∙ skip_executed-silent state key id calls e;
        stays = λ e. mark_all-known state key fresh (executed-has_key state key id e);
      }

  module _ (key : String) (keyed : ctx_key ctx ≡ ok key) (id : String) where
    process_chosen-OnceStep :
        (d : Delivery) (state : Executed) (m : Message) (r : Result (String × List ToolCall))
        → ((own : String) (calls : List ToolCall) → r ≡ ok (own, calls) → own ≡ key)
        → OnceStep key id state
            (process_chosen libraries compile registry d.fired d.turns state ctx m r)
    unfolding process_chosen
    process_chosen-OnceStep d state m (err e) h = idle-OnceStep key id state (err e)
    process_chosen-OnceStep d state m (ok (own, calls)) h =
        let same : own ≡ key = h own calls refl in
        rw same (
          answered-OnceStep key id state calls _
            (results-AllAnswer d.fired d.turns _ (skip_executed state key calls)))

    chosen-key :
        (configs : Option AgentConfigs) (calls allowed : List ToolCall) (own : String)
        → chosen libraries compile registry configs ctx calls ≡ ok (own, allowed)
        → own ≡ key
    chosen-key configs calls allowed own h =
        let own_key = chosen-keyed libraries compile registry configs ctx calls allowed own h in cc

    process_final-OnceStep :
        (d : Delivery) (state : Executed) (final : Option (Message × List ToolCall))
        → OnceStep key id state
            (process_final libraries compile registry d.fired d.turns d.configs state ctx final)
    unfolding process_final
    process_final-OnceStep d state none = idle-OnceStep key id state (ok tt)
    process_final-OnceStep d state (some (m, calls)) =
        process_chosen-OnceStep d state m _ (λ own allowed. chosen-key d.configs calls allowed own)

    receive-OnceStep : (d : Delivery) (state : Executed) → OnceStep key id state (receive state d)
    unfolding process
    receive-OnceStep d state = process_final-OnceStep d state (final_calls d.value)

module _ (libraries : Libraries) (compile : List String → Regexes) (registry : ToolRegistry) where
  abbrev pub receive_flows : Executed → List (AgentContext × Delivery) → Executed
  receive_flows state [] = state
  receive_flows state ((ctx, d) ∷ ds) =
      receive_flows (receive libraries compile registry ctx state d).1 ds

  module _ (key id : String) where
    receive-others :
        (ctx : AgentContext) (d : Delivery) (state : Executed)
        → in_flow key ctx ≡ false
        → suc (behind state.ctx_key_order key) < max_tracked_ctx_keys
        → is_executed state key id ≡ true
        → is_executed (receive libraries compile registry ctx state d).1 key id ≡ true
    unfolding is_executed
    receive-others ctx d state out near e =
        ap (λ ids. any (λ k. k == id) (ids_of ids))
          (process-Kept libraries compile registry key ctx out state near d.fired d.turns d.configs
            d.value).0
        ∙ e

    receive_flows-executed :
        (ds : List (AgentContext × Delivery)) (state : Executed)
        → behind state.ctx_key_order key + others key ds < max_tracked_ctx_keys
        → is_executed state key id ≡ true
        → is_executed (receive_flows state ds) key id ≡ true
    receive_flows-executed [] state = λ near e. e
    receive_flows-executed ((ctx, d) ∷ ds) state =
        let next = (receive libraries compile registry ctx state d).1 in
        elim (Bool-cases (in_flow key ctx)) [
          | inl own ↦ rw own (λ near e.
              let keyed = in_flow-keyed key ctx own in
              let step = receive-OnceStep libraries compile registry ctx key keyed id d state in
              receive_flows-executed ds next
                (omega (arith, near, ap (λ order. behind order key) (step.stays e))) (step.keeps e))
          | inr out ↦ rw out (λ near e.
              let close : suc (behind state.ctx_key_order key) < max_tracked_ctx_keys =
                omega (arith, near) in
              receive_flows-executed ds next
                (omega (
                  arith,
                  near,
                  (process-Kept libraries compile registry key ctx out state close d.fired d.turns
                      d.configs d.value).1,
                ))
                (receive-others ctx d state out close e))
        ]

    -- An id that one value delivered in a flow made the agent answer is not answered again by a later
    -- value of the flow, whatever the values, the configurations and the outcomes of the tools are, and
    -- whatever comes in between, in this flow and in others, as long as the flow is still remembered:
    -- the flows behind it in the order when it was answered and the deliveries of other flows in between
    -- are fewer than 1024 together.
    pub receive-once :
        (state : Executed) (ctx : AgentContext) (first : Delivery)
        (between : List (AgentContext × Delivery)) (ctx_later : AgentContext) (later : Delivery)
        → ctx_key ctx ≡ ok key
        → ctx_key ctx_later ≡ ok key
        → behind (receive libraries compile registry ctx state first).1.ctx_key_order key
            + others key between
          < max_tracked_ctx_keys
        → answers id (receive libraries compile registry ctx state first).2 ≡ true
        → answers id
            (receive libraries compile registry ctx_later
              (receive_flows (receive libraries compile registry ctx state first).1 between)
              later).2
          ≡ false
    receive-once state ctx first between ctx_later later keyed keyed_later near e =
        let begun = (receive libraries compile registry ctx state first).1 in
        (receive-OnceStep libraries compile registry ctx_later key keyed_later id later
            (receive_flows begun between)).silent
          (receive_flows-executed between begun near
            ((receive-OnceStep libraries compile registry ctx key keyed id first state).marks e))
