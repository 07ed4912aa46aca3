-- ===== src/Tool/Agents/CallToolMessage.antt =====
-- `CallToolMessageAgent` of tool.rs: the tool calls of a final message, each id once in a flow.
pub mod Marks
pub mod Order
pub mod Once
pub mod Bounds
use Prim.Native.String.{◌++◌ as append}
use modular_agent_core.Prelude.{
  ℕ, zero, suc, ◌+◌, ◌-◌, ◌^◌, String, Bool, true, false, not, ◌&&◌, Option, none, some, List, [],
  ◌∷◌, ◌++◌, map, any, retain, ltb, ◌==◌, if◌then◌else◌,
}
use modular_agent_core.Prelude.Int.{ℤ, pos, negsuc}
use modular_agent_core.Text.{is_empty}
use modular_agent_core.Decimal.{to_string}
use modular_agent_core.Error.{AgentError, no_config, invalid_value, Result, ok, err, ok_or, ◌>>=◌}
use modular_agent_core.Llm.{ToolCall, Message, assistant}
use modular_agent_core.Value.{AgentValue, ValueMap, lookup, as_object}
use modular_agent_core.Context.{AgentContext, ctx_key}
use modular_agent_core.Spec.{AgentConfigs, get_string_or_default, get_integer_or}
use modular_agent_core.Agent.{Output}
use modular_agent_core.Tool.{
  ToolInfo, ToolRegistry, Regexes, Listed, bad_patterns, listed, list_tool_infos,
  list_tool_infos_patterns, call_tool,
}
use modular_agent_core.Tool.Call.{Libraries, error_tool_result}
use modular_agent_core.Tool.Batch.{Turn, call_tools}
use modular_agent_core.Tool.Tracker.{
  Tracked, nothing_tracked, entry_of, track, put_entry, keep_entry,
}
use modular_agent_core.Tool.Agents.{Hooked, put_out, required}

-- The flows' executed ids of `CallToolMessageAgent`; a set is a list without repetitions.
abbrev pub Executed : Type 0
Executed = Tracked (List String)

abbrev ids_of : Option (List String) → List String
ids_of none = []
ids_of (some ids) = ids

unfoldable pub is_executed : Executed → String → String → Bool
is_executed state key id = any (λ k. k == id) (ids_of (entry_of state key))

add_id : String → List String → List String
add_id id ids = if any (λ k. k == id) ids then ids else id ∷ ids

unfoldable pub mark_executed : Executed → String → String → Executed
unfolding add_id
mark_executed state key id =
    let roomy = track state key in put_entry roomy key (add_id id (ids_of (entry_of roomy key)))

is_new : Executed → String → Option String → Bool
is_new state key (some id) = not (is_executed state key id)
is_new state key none = true

unfoldable pub skip_executed : Executed → String → List ToolCall → List ToolCall
unfolding is_new
skip_executed state key calls =
    retain (λ (call : ToolCall). is_new state key call.function.id) calls

mark_id : Executed → String → Option String → Executed
mark_id state key none = state
mark_id state key (some id) = mark_executed state key id

unfoldable pub mark_all : Executed → String → List ToolCall → Executed
unfolding mark_id
mark_all state key [] = state
mark_all state key (call ∷ calls) = mark_all (mark_id state key call.function.id) key calls

calls_of : Bool → Option (List ToolCall) → Option (List ToolCall)
calls_of true calls = none
calls_of false calls = calls

with_message : Message → Option (List ToolCall) → Option (Message × List ToolCall)
with_message m none = none
with_message m (some calls) = some (m, calls)

-- The tool calls of a message that is not a partial one.
final_calls : AgentValue → Option (Message × List ToolCall)
unfolding calls_of with_message
final_calls (AgentValue.message m) = with_message m (calls_of m.streaming m.tool_calls)
final_calls _ = none

allowed_calls : Listed → List ToolCall → Result (List ToolCall)
allowed_calls (bad_patterns e) calls = err (invalid_value (append "Invalid regex patterns: " e))
allowed_calls (listed tools) calls = ok (
    retain (λ (call : ToolCall). any (λ (tool : ToolInfo). tool.name == call.function.name) tools)
      calls)

filter_tools :
    (compile : List String → Regexes)
    → ToolRegistry
    → String
    → List ToolCall
    → Result (List ToolCall)
unfolding allowed_calls
filter_tools compile registry patterns calls =
    if is_empty patterns
    then ok calls
    else allowed_calls (list_tool_infos_patterns compile patterns registry) calls

cut_by_limit : Option String → Bool
cut_by_limit none = false
cut_by_limit (some reason) = reason == "length"

pub truncated_result : ToolCall → Message
truncated_result call = error_tool_result call (
    append "Tool call \"" (
      append call.function.name
        "\" was not executed: output hit the token limit; arguments may be truncated. Re-issue with complete arguments."))

pub put_all : AgentContext → List Message → List Output
put_all ctx [] = []
put_all ctx (m ∷ results) = put_out ctx "message" (AgentValue.message m) ∷ put_all ctx results

-- How many calls run at once is a matter of the turns, so `max_concurrency` is not read here.
module _ (libraries : Libraries) (compile : List String → Regexes) (registry : ToolRegistry) where
  -- The key of the flow and the calls that the patterns allow.
  pub chosen : Option AgentConfigs → AgentContext → List ToolCall → Result (String × List ToolCall)
  unfolding required filter_tools
  chosen configs ctx calls = do
    own ← required configs
    allowed ← filter_tools compile registry (get_string_or_default own "tools") calls
    key ← ctx_key ctx
    ok (key, allowed)

  results : (ℕ → Bool) → (ℕ → Turn) → AgentContext → Bool → List ToolCall → List Message
  unfolding truncated_result
  results fired turns ctx true calls = map truncated_result calls
  results fired turns ctx false calls = call_tools libraries fired registry ctx turns calls

  process_chosen :
      (ℕ → Bool)
      → (ℕ → Turn)
      → Executed
      → AgentContext
      → Message
      → Result (String × List ToolCall)
      → Hooked Executed
  unfolding results cut_by_limit put_all
  process_chosen fired turns state ctx m (err e) = (err e, state, [])
  process_chosen fired turns state ctx m (ok (key, calls)) =
      let fresh = skip_executed state key calls in
      (
        ok tt,
        mark_all state key fresh,
        put_all ctx (results fired turns ctx (cut_by_limit m.stop_reason) fresh),
      )

  process_final :
      (ℕ → Bool)
      → (ℕ → Turn)
      → Option AgentConfigs
      → Executed
      → AgentContext
      → Option (Message × List ToolCall)
      → Hooked Executed
  unfolding chosen process_chosen
  process_final fired turns configs state ctx none = (ok tt, state, [])
  process_final fired turns configs state ctx (some (m, calls)) =
      process_chosen fired turns state ctx m (chosen configs ctx calls)

  unfoldable pub process :
      (ℕ → Bool)
      → (ℕ → Turn)
      → Option AgentConfigs
      → Executed
      → AgentContext
      → AgentValue
      → Hooked Executed
  unfolding process_final final_calls
  process fired turns configs state ctx value =
      process_final fired turns configs state ctx (final_calls value)
