-- ===== src/Tool/Agents/CallToolMessage/Bounds.antt =====
-- `CallToolMessageAgent` remembers 1024 flows at most, each of them once, and the oldest of them goes.
use modular_agent_core.Prelude.{
  String, ◌≡◌, refl, sym, ◌∙◌, false, Bool-cases, ◌⊎◌, inl, inr, Option, none, some, List, [], ◌∷◌,
}
use modular_agent_core.Error.{Result, ok, err}
use modular_agent_core.Llm.{ToolCall, Message}
use modular_agent_core.Context.{AgentContext, ctx_key}
use modular_agent_core.Tool.{ToolRegistry, Regexes}
use modular_agent_core.Tool.Call.{Libraries}
use modular_agent_core.Tool.Tracker.{
  IsTracked, in_order, has_key, nothing_tracked, nothing_tracked-IsTracked, keep_entry,
  keep_entry-IsTracked,
}
use modular_agent_core.Tool.Tracker.Behind.{in_line}
use modular_agent_core.Tool.Agents.CallToolMessage.{
  Executed, mark_executed, mark_id, mark_all, final_calls, chosen, process_chosen, process_final,
  process,
}
use modular_agent_core.Tool.Agents.CallToolMessage.Order.{
  mark_all-known, mark_all-new, chosen-keyed,
}
use modular_agent_core.Tool.Agents.CallToolMessage.Once.{Delivery, receive, receive_flows}

mark_executed-IsTracked :
    (state : Executed) (key id : String) → IsTracked state → IsTracked (mark_executed state key id)
unfolding mark_executed keep_entry
mark_executed-IsTracked state key id h = keep_entry-IsTracked state key _ h

mark_id-IsTracked :
    (state : Executed) (key : String) (own : Option String)
    → IsTracked state
    → IsTracked (mark_id state key own)
unfolding mark_id
mark_id-IsTracked state key none h = h
mark_id-IsTracked state key (some id) h = mark_executed-IsTracked state key id h

mark_all-IsTracked :
    (state : Executed) (key : String) (calls : List ToolCall)
    → IsTracked state
    → IsTracked (mark_all state key calls)
unfolding mark_all
mark_all-IsTracked state key [] h = h
mark_all-IsTracked state key (call ∷ calls) h =
    mark_all-IsTracked (mark_id state key call.function.id) key calls
      (mark_id-IsTracked state key call.function.id h)

module _ (libraries : Libraries) (compile : List String → Regexes) (registry : ToolRegistry) where
  process_chosen-IsTracked :
      (d : Delivery) (state : Executed) (ctx : AgentContext) (m : Message)
      (r : Result (String × List ToolCall))
      → IsTracked state
      → IsTracked (process_chosen libraries compile registry d.fired d.turns state ctx m r).1
  unfolding process_chosen
  process_chosen-IsTracked d state ctx m (err e) h = h
  process_chosen-IsTracked d state ctx m (ok (key, calls)) h = mark_all-IsTracked state key _ h

  process_final-IsTracked :
      (d : Delivery) (state : Executed) (ctx : AgentContext)
      (final : Option (Message × List ToolCall))
      → IsTracked state
      → IsTracked
          (process_final libraries compile registry d.fired d.turns d.configs state ctx final).1
  unfolding process_final
  process_final-IsTracked d state ctx none h = h
  process_final-IsTracked d state ctx (some (m, calls)) h =
      process_chosen-IsTracked d state ctx m (chosen libraries compile registry d.configs ctx calls)
        h

  receive_flows-keeps :
      (state : Executed) (ds : List (AgentContext × Delivery))
      → IsTracked state
      → IsTracked (receive_flows libraries compile registry state ds)
  unfolding process
  receive_flows-keeps state [] h = h
  receive_flows-keeps state ((ctx, d) ∷ ds) h =
      receive_flows-keeps (receive libraries compile registry ctx state d).1 ds
        (process_final-IsTracked d state ctx (final_calls d.value) h)

  -- The order stays, or the flow of the context is new in it and gets in line.
  abbrev pub Queues : AgentContext → List String → List String → Type 0
  Queues ctx order next =
      (next ≡ order)
      ⊎ ((key : String) × (ctx_key ctx ≡ ok key)
          × (in_order order key ≡ false)
          × (next ≡ in_line order key))

  marked-Queues :
      (ctx : AgentContext) (state : Executed) (key : String) (calls : List ToolCall)
      → IsTracked state
      → ctx_key ctx ≡ ok key
      → Queues ctx state.ctx_key_order (mark_all state key calls).ctx_key_order
  marked-Queues ctx state key calls h keyed = elim (Bool-cases (has_key state key)) [
    | inl known ↦ inl (mark_all-known state key calls known)
    | inr new ↦ elim (mark_all-new state key calls new) [
      | inl same ↦ inl same
      | inr queued ↦ inr (key, keyed, sym (h.agrees key) ∙ new, queued)
    ]
  ]

  process_chosen-Queues :
      (d : Delivery) (state : Executed) (ctx : AgentContext) (m : Message)
      (r : Result (String × List ToolCall))
      → IsTracked state
      → ((key : String) (calls : List ToolCall) → r ≡ ok (key, calls) → ctx_key ctx ≡ ok key)
      → Queues ctx state.ctx_key_order
          (process_chosen libraries compile registry d.fired d.turns state ctx m r).1.ctx_key_order
  unfolding process_chosen
  process_chosen-Queues d state ctx m (err e) h keyed = inl refl
  process_chosen-Queues d state ctx m (ok (key, calls)) h keyed =
      marked-Queues ctx state key _ h (keyed key calls refl)

  process_final-Queues :
      (d : Delivery) (state : Executed) (ctx : AgentContext)
      (final : Option (Message × List ToolCall))
      → IsTracked state
      → Queues ctx state.ctx_key_order
          (process_final libraries compile registry d.fired d.turns d.configs state ctx
            final).1.ctx_key_order
  unfolding process_final
  process_final-Queues d state ctx none h = inl refl
  process_final-Queues d state ctx (some (m, calls)) h =
      process_chosen-Queues d state ctx m (chosen libraries compile registry d.configs ctx calls) h
        (λ key allowed e. chosen-keyed libraries compile registry d.configs ctx calls allowed key e)

  -- After any deliveries in any flows the agent remembers the ids of 1024 flows at most, and its order
  -- names each of these once and no other. The next delivery leaves the order as it is, or the flow of its
  -- context is new and comes at the end of the order, and if there were 1024 before, the first one of the
  -- order goes: the flow that has been there longest.
  pub receive_flows-IsTracked :
      (ds : List (AgentContext × Delivery)) (ctx : AgentContext) (next : Delivery)
      → IsTracked (receive_flows libraries compile registry nothing_tracked ds)
        × Queues ctx
            (receive_flows libraries compile registry nothing_tracked ds).ctx_key_order
            (receive libraries compile registry ctx
              (receive_flows libraries compile registry nothing_tracked ds)
              next).1.ctx_key_order
  unfolding process
  receive_flows-IsTracked ds ctx next =
      let tracked = receive_flows-keeps nothing_tracked ds nothing_tracked-IsTracked in
      (
        tracked,
        process_final-Queues next (receive_flows libraries compile registry nothing_tracked ds) ctx
            (final_calls next.value) tracked,
      )
