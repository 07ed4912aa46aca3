-- ===== src/Tool/Agents/CallToolMessage/Marks.antt =====
-- The ids that `CallToolMessageAgent` marks, and the messages that answer them.
use modular_agent_core.Prelude.{
  String, ◌≡◌, refl, ap, ◌∙◌, Bool, true, false, ◌&&◌, ◌||◌, Bool-cases, inl, inr, Option, none,
  some, List, [], ◌∷◌, map, any, arith, ◌==◌, eq_iff,
}
use modular_agent_core.Llm.{ToolCall, Message}
use modular_agent_core.Value.{AgentValue}
use modular_agent_core.Context.{AgentContext}
use modular_agent_core.IndexMap
use modular_agent_core.Agent.{Output}
use modular_agent_core.Tool.Call.Answers.{error_tool_result-Answers}
use modular_agent_core.Tool.Batch.Answers.{AllAnswer}
use modular_agent_core.Tool.Tracker.{entry_of, track, put_entry, entry_of-track}
use modular_agent_core.Tool.Agents.CallToolMessage.{
  Executed, ids_of, is_executed, add_id, mark_executed, is_new, skip_executed, mark_id, mark_all,
  truncated_result, put_all,
}

-- The call, or the message, has this id.
abbrev has_id : String → Option String → Bool
has_id id none = false
has_id id (some own) = own == id

abbrev pub any_call : String → List ToolCall → Bool
any_call id calls = any (λ (call : ToolCall). has_id id call.function.id) calls

abbrev value_has_id : String → AgentValue → Bool
value_has_id id (AgentValue.message m) = has_id id m.id
value_has_id id _ = false

-- One of the values put out is a message under this id.
abbrev pub answers : String → List Output → Bool
answers id outputs = any (λ (o : Output). value_has_id id o.value) outputs

add_id-mem :
    (id other : String) (ids : List String)
    → any (λ k. k == other) (add_id id ids) ≡ (id == other || any (λ k. k == other) ids)
unfolding add_id
add_id-mem id other ids = elim (Bool-cases (id == other)) [
  | inl e ↦
      let same : id ≡ other = ground (arith, e, eq_iff id other) in
      ground (arith, e, ap (λ i. any (λ k. k == i) ids) same)
  | inr e ↦ ground (arith, e)
]

is_executed-mark_executed :
    (state : Executed) (key id other : String)
    → is_executed (mark_executed state key id) key other
      ≡ (id == other || is_executed state key other)
unfolding is_executed mark_executed put_entry
is_executed-mark_executed state key id other =
    rw
      (
        IndexMap.get-insert (track state key).entries key key
            (add_id id (ids_of (entry_of (track state key) key))),
        entry_of-track state key,
      )
      (ground (arith, eq_iff key key, add_id-mem id other (ids_of (entry_of state key))))

is_executed-mark_id :
    (state : Executed) (key : String) (own : Option String) (id : String)
    → is_executed (mark_id state key own) key id ≡ (has_id id own || is_executed state key id)
unfolding mark_id
is_executed-mark_id state key none id = refl
is_executed-mark_id state key (some own) id = is_executed-mark_executed state key own id

pub is_executed-mark_all :
    (state : Executed) (key : String) (calls : List ToolCall) (id : String)
    → is_executed (mark_all state key calls) key id
      ≡ (any_call id calls || is_executed state key id)
unfolding mark_all
is_executed-mark_all state key [] id = refl
is_executed-mark_all state key (call ∷ calls) id = ground (
  arith,
  is_executed-mark_all (mark_id state key call.function.id) key calls id,
  is_executed-mark_id state key call.function.id id,
)

is_new-has_id :
    (state : Executed) (key id : String) (own : Option String)
    → is_executed state key id ≡ true
    → (is_new state key own && has_id id own) ≡ false
unfolding is_new
is_new-has_id state key id none e = refl
is_new-has_id state key id (some own) e = elim (Bool-cases (own == id)) [
  | inl same ↦
      let known : is_executed state key own ≡ true =
        ap (is_executed state key) (ground (arith, same, eq_iff own id)) ∙ e in
      ground (arith, known)
  | inr apart ↦ ground (arith, apart)
]

pub skip_executed-silent :
    (state : Executed) (key id : String) (calls : List ToolCall)
    → is_executed state key id ≡ true
    → any_call id (skip_executed state key calls) ≡ false
unfolding skip_executed
skip_executed-silent state key id [] e = refl
skip_executed-silent state key id (call ∷ calls) e = ground (
  arith,
  is_new-has_id state key id call.function.id e,
  skip_executed-silent state key id calls e,
)

pub answers-put_all :
    (ctx : AgentContext) (id : String) (calls : List ToolCall) (messages : List Message)
    → AllAnswer calls messages
    → answers id (put_all ctx messages) ≡ any_call id calls
unfolding put_all
answers-put_all ctx id [] [] h = refl
answers-put_all ctx id [] (m ∷ messages) h = absurd h
answers-put_all ctx id (call ∷ calls) [] h = absurd h
answers-put_all ctx id (call ∷ calls) (m ∷ messages) h =
    rw (h.0.id, answers-put_all ctx id calls messages h.1) refl

pub truncated-AllAnswer : (calls : List ToolCall) → AllAnswer calls (map truncated_result calls)
unfolding truncated_result
truncated-AllAnswer [] = tt
truncated-AllAnswer (call ∷ calls) = (error_tool_result-Answers call _, truncated-AllAnswer calls)
