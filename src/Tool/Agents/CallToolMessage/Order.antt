-- ===== src/Tool/Agents/CallToolMessage/Order.antt =====
-- What `CallToolMessageAgent` does to the order of its flows, and to the ids of a flow when another comes.
use modular_agent_core.Prelude.{
  ℕ, suc, ◌<◌, String, ◌≡◌, refl, ap, ◌∙◌, Bool, true, false, ◌⊎◌, inl, inr, Option, none, some,
  List, [], ◌∷◌, any, arith, ◌==◌,
}
use modular_agent_core.Error.{Result, ok, err, Result-cases}
use modular_agent_core.Llm.{ToolCall, Message}
use modular_agent_core.Context.{AgentContext, ctx_key}
use modular_agent_core.Spec.{AgentConfigs, get_string_or_default}
use modular_agent_core.Value.{AgentValue}
use modular_agent_core.Tool.{ToolRegistry, Regexes}
use modular_agent_core.Tool.Call.{Libraries}
use modular_agent_core.Tool.Batch.{Turn}
use modular_agent_core.Tool.Tracker.{max_tracked_ctx_keys, entry_of, has_key, track, keep_entry}
use modular_agent_core.Tool.Tracker.Behind.{
  behind, in_line, Kept, keep_entry-Kept, keep_entry-known, keep_entry-new, keep_entry-known-others,
  has_key-keep_entry,
}
use modular_agent_core.Tool.Tracker.Flows.{in_flow, in_flow-apart}
use modular_agent_core.Tool.Agents.{required}
use modular_agent_core.Tool.Agents.CallToolMessage.{
  Executed, ids_of, is_executed, add_id, mark_executed, mark_id, mark_all, final_calls,
  filter_tools, chosen, process_chosen, process_final, process,
}

executed-has_key-of :
    (state : Executed) (key id : String) (ids : Option (List String))
    → entry_of state key ≡ ids
    → any (λ k. k == id) (ids_of ids) ≡ true
    → has_key state key ≡ true
executed-has_key-of state key id none e h = absurd (cc)
executed-has_key-of state key id (some ids) e h = rw e refl

-- A flow with an id that was executed is tracked.
pub executed-has_key :
    (state : Executed) (key id : String)
    → is_executed state key id ≡ true
    → has_key state key ≡ true
unfolding is_executed
executed-has_key state key id h = executed-has_key-of state key id (entry_of state key) refl h

mark_executed-has_key :
    (state : Executed) (key id : String) → has_key (mark_executed state key id) key ≡ true
unfolding mark_executed keep_entry
mark_executed-has_key state key id = has_key-keep_entry state key _

mark_executed-known :
    (state : Executed) (key id : String)
    → has_key state key ≡ true
    → (mark_executed state key id).ctx_key_order ≡ state.ctx_key_order
unfolding mark_executed keep_entry
mark_executed-known state key id known =
    keep_entry-known state key (add_id id (ids_of (entry_of (track state key) key))) known

mark_id-has_key :
    (state : Executed) (key : String) (own : Option String)
    → has_key state key ≡ true
    → has_key (mark_id state key own) key ≡ true
unfolding mark_id
mark_id-has_key state key none known = known
mark_id-has_key state key (some id) known = mark_executed-has_key state key id

mark_id-known :
    (state : Executed) (key : String) (own : Option String)
    → has_key state key ≡ true
    → (mark_id state key own).ctx_key_order ≡ state.ctx_key_order
unfolding mark_id
mark_id-known state key none known = refl
mark_id-known state key (some id) known = mark_executed-known state key id known

-- Marks in a flow that is tracked leave the order.
pub mark_all-known :
    (state : Executed) (key : String) (calls : List ToolCall)
    → has_key state key ≡ true
    → (mark_all state key calls).ctx_key_order ≡ state.ctx_key_order
unfolding mark_all
mark_all-known state key [] known = refl
mark_all-known state key (call ∷ calls) known =
    let own = call.function.id in
    mark_all-known (mark_id state key own) key calls (mark_id-has_key state key own known)
    ∙ mark_id-known state key own known

mark_executed-new :
    (state : Executed) (key id : String)
    → has_key state key ≡ false
    → (mark_executed state key id).ctx_key_order ≡ in_line state.ctx_key_order key
unfolding mark_executed keep_entry
mark_executed-new state key id new =
    keep_entry-new state key (add_id id (ids_of (entry_of (track state key) key))) new

abbrev Queued : String → Executed → Executed → Type 0
Queued key state next =
    (next.ctx_key_order ≡ state.ctx_key_order)
    ⊎ (next.ctx_key_order ≡ in_line state.ctx_key_order key)

first-Queued :
    (state : Executed) (key : String) (own : Option String) (calls : List ToolCall)
    → has_key state key ≡ false
    → Queued key state (mark_all state key calls)
    → Queued key state (mark_all (mark_id state key own) key calls)
unfolding mark_id
first-Queued state key none calls new rest = rest
first-Queued state key (some id) calls new rest = inr (
    mark_all-known (mark_executed state key id) key calls (mark_executed-has_key state key id)
    ∙ mark_executed-new state key id new)

-- A flow that is not tracked gets in line at its first mark.
pub mark_all-new :
    (state : Executed) (key : String) (calls : List ToolCall)
    → has_key state key ≡ false
    → ((mark_all state key calls).ctx_key_order ≡ state.ctx_key_order)
      ⊎ ((mark_all state key calls).ctx_key_order ≡ in_line state.ctx_key_order key)
unfolding mark_all
mark_all-new state key [] new = inl refl
mark_all-new state key (call ∷ calls) new =
    first-Queued state key call.function.id calls new (mark_all-new state key calls new)

mark_executed-known-others :
    (state : Executed) (key k id : String)
    → (k == key) ≡ false
    → has_key state k ≡ true
    → entry_of (mark_executed state k id) key ≡ entry_of state key
unfolding mark_executed keep_entry
mark_executed-known-others state key k id apart known =
    keep_entry-known-others state key k _ apart known

mark_executed-Kept :
    (state : Executed) (key k id : String)
    → (k == key) ≡ false
    → suc (behind state.ctx_key_order key) < max_tracked_ctx_keys
    → Kept key state (mark_executed state k id)
unfolding mark_executed keep_entry
mark_executed-Kept state key k id apart near = keep_entry-Kept state key k _ apart near

mark_id-known-others :
    (state : Executed) (key k : String) (own : Option String)
    → (k == key) ≡ false
    → has_key state k ≡ true
    → entry_of (mark_id state k own) key ≡ entry_of state key
unfolding mark_id
mark_id-known-others state key k none apart known = refl
mark_id-known-others state key k (some id) apart known =
    mark_executed-known-others state key k id apart known

mark_all-known-others :
    (state : Executed) (key k : String) (calls : List ToolCall)
    → (k == key) ≡ false
    → has_key state k ≡ true
    → entry_of (mark_all state k calls) key ≡ entry_of state key
unfolding mark_all
mark_all-known-others state key k [] apart known = refl
mark_all-known-others state key k (call ∷ calls) apart known =
    let own = call.function.id in
    mark_all-known-others (mark_id state k own) key k calls apart
      (mark_id-has_key state k own known)
    ∙ mark_id-known-others state key k own apart known

first-Kept :
    (state : Executed) (key k : String) (own : Option String) (calls : List ToolCall)
    → (k == key) ≡ false
    → suc (behind state.ctx_key_order key) < max_tracked_ctx_keys
    → Kept key state (mark_all state k calls)
    → Kept key state (mark_all (mark_id state k own) k calls)
unfolding mark_id
first-Kept state key k none calls apart near rest = rest
first-Kept state key k (some id) calls apart near rest =
    let first = mark_executed-Kept state key k id apart near in
    let known = mark_executed-has_key state k id in
    (
      mark_all-known-others (mark_executed state k id) key k calls apart known ∙ first.0,
      rw (mark_all-known (mark_executed state k id) k calls known) (first.1),
    )

-- Marks in another flow bring at most this one behind the flow.
mark_all-Kept :
    (state : Executed) (key k : String) (calls : List ToolCall)
    → (k == key) ≡ false
    → suc (behind state.ctx_key_order key) < max_tracked_ctx_keys
    → Kept key state (mark_all state k calls)
unfolding mark_all
mark_all-Kept state key k [] apart near = (refl, omega arith)
mark_all-Kept state key k (call ∷ calls) apart near =
    first-Kept state key k call.function.id calls apart near
      (mark_all-Kept state key k calls apart near)

module _ (libraries : Libraries) (compile : List String → Regexes) (registry : ToolRegistry) where
  pub chosen-keyed :
      (configs : Option AgentConfigs) (ctx : AgentContext) (calls allowed : List ToolCall)
      (k : String)
      → chosen libraries compile registry configs ctx calls ≡ ok (k, allowed)
      → ctx_key ctx ≡ ok k
  unfolding chosen
  chosen-keyed configs ctx calls allowed k = elim (Result-cases (required configs)) [
    | inl (e, none_given) ↦ rw none_given (λ h. absurd (cc))
    | inr (c, given) ↦
        rw given
          (elim (Result-cases
            (filter_tools compile registry (get_string_or_default c "tools") calls)) [
              | inl (e, refused) ↦ rw refused (λ h. absurd (cc))
              | inr (l, kept) ↦ rw kept (elim (Result-cases (ctx_key ctx)) [
                | inl (e, no_key) ↦ rw no_key (λ h. absurd (cc))
                | inr (own, keyed) ↦ rw keyed (λ h. let same : own ≡ k = cc in ap ok same)
              ])
            ])
  ]

  -- A value that comes in another flow.
  module _ (key : String) (ctx : AgentContext) (out : in_flow key ctx ≡ false) (state : Executed)
      (near : suc (behind state.ctx_key_order key) < max_tracked_ctx_keys) (fired : ℕ → Bool)
      (turns : ℕ → Turn) where
    process_chosen-Kept :
        (m : Message) (r : Result (String × List ToolCall))
        → ((k : String) (calls : List ToolCall) → r ≡ ok (k, calls) → (k == key) ≡ false)
        → Kept key state (process_chosen libraries compile registry fired turns state ctx m r).1
    unfolding process_chosen
    process_chosen-Kept m (err e) h = (refl, omega arith)
    process_chosen-Kept m (ok (k, calls)) h = mark_all-Kept state key k _ (h k calls refl) near

    process_final-Kept :
        (configs : Option AgentConfigs) (final : Option (Message × List ToolCall))
        → Kept key state
            (process_final libraries compile registry fired turns configs state ctx final).1
    unfolding process_final
    process_final-Kept configs none = (refl, omega arith)
    process_final-Kept configs (some (m, calls)) =
        process_chosen-Kept m (chosen libraries compile registry configs ctx calls)
          (λ k allowed e. in_flow-apart key k ctx out (chosen-keyed configs ctx calls allowed k e))

    pub process-Kept :
        (configs : Option AgentConfigs) (value : AgentValue)
        → Kept key state (process libraries compile registry fired turns configs state ctx value).1
    unfolding process
    process-Kept configs value = process_final-Kept configs (final_calls value)
