-- ===== src/Tool/Agents/LoopControl.antt =====
-- `LoopControlAgent` of tool.rs: a limit on the turns of a flow that ask for tools.
pub mod Verdict
pub mod Turns
pub mod Bounds
use Prim.Native.String.{◌++◌ as append}
use modular_agent_core.Prelude.{
  ℕ, zero, suc, ◌+◌, ◌-◌, ◌^◌, String, Bool, true, false, not, ◌&&◌, Option, none, some, List, [],
  ◌∷◌, ◌++◌, map, any, retain, ltb, ◌==◌, if◌then◌else◌,
}
use modular_agent_core.Prelude.Int.{ℤ, pos, negsuc}
use modular_agent_core.Text.{is_empty}
use modular_agent_core.Text.Integers.{show_integer}
use modular_agent_core.Error.{AgentError, no_config, invalid_value, Result, ok, err, ok_or, ◌>>=◌}
use modular_agent_core.Llm.{ToolCall, Message, assistant}
use modular_agent_core.Value.{AgentValue, ValueMap, lookup, as_object}
use modular_agent_core.Context.{AgentContext, ctx_key}
use modular_agent_core.Spec.{AgentConfigs, get_string_or_default, get_integer_or}
use modular_agent_core.Agent.{Output}
use modular_agent_core.Tool.{
  ToolInfo, ToolRegistry, Regexes, Listed, bad_patterns, listed, list_tool_infos,
  list_tool_infos_patterns, call_tool,
}
use modular_agent_core.Tool.Call.{Libraries, error_tool_result}
use modular_agent_core.Tool.Batch.{Turn, call_tools}
use modular_agent_core.Tool.Tracker.{
  Tracked, nothing_tracked, entry_of, track, put_entry, keep_entry,
}
use modular_agent_core.Tool.Agents.{Hooked, put_out, required}

-- For each flow, the turns counted and the id of the last of them.
abbrev pub Counts : Type 0
Counts = Tracked (ℕ × Option String)

abbrev or_new : Option (ℕ × Option String) → ℕ × Option String
or_new none = (0, none)
or_new (some c) = c

abbrev pub max_u32 : ℕ
max_u32 = 4294967295

-- `count.saturating_add(1)` of a `u32`
unfoldable pub saturating_succ : ℕ → ℕ
saturating_succ n = if ltb n max_u32 then suc n else max_u32

has_calls : Option (List ToolCall) → Bool
has_calls none = false
has_calls (some []) = false
has_calls (some (call ∷ calls)) = true

-- A final message of the assistant that asks for tools.
unfoldable pub is_countable : AgentValue → Bool
unfolding has_calls
is_countable (AgentValue.message m) =
    m.role == "assistant" && not m.streaming && has_calls m.tool_calls
is_countable _ = false

unfoldable pub message_id : AgentValue → Option String
message_id (AgentValue.message m) = m.id
message_id _ = none

unfoldable pub is_redelivery : Option String → Option String → Bool
is_redelivery (some id) (some last) = last == id
is_redelivery _ _ = false

-- `max_iterations > 0 && i64::from(count) > max_iterations`
unfoldable pub exceeds : ℤ → ℕ → Bool
exceeds (pos limit) count = ltb 0 limit && ltb limit count
exceeds (negsuc n) count = false

unfoldable pub limit_notice : ℤ → Message
limit_notice limit = assistant (
    append "Loop limit reached: the tool-call cycle exceeded the configured max_iterations of "
      (append (show_integer limit) " and has been stopped."))

default_max_iterations : ℤ
default_max_iterations = pos 25

chosen : Option AgentConfigs → AgentContext → Result (ℤ × String)
unfolding required default_max_iterations
chosen configs ctx = do
  own ← required configs
  key ← ctx_key ctx
  ok (get_integer_or own "max_iterations" default_max_iterations, key)

-- A message that is counted, or was.
unfoldable pub count_turn : ℤ → String → Counts → AgentContext → AgentValue → Hooked Counts
count_turn limit key counts ctx value =
    let (count, last) = or_new (entry_of counts key) in
    let forward = put_out ctx "message" value ∷ [] in
    let next = saturating_succ count in
    if is_redelivery (message_id value) last
    then (ok tt, counts, if exceeds limit count then [] else forward)
    else (
      ok tt,
      keep_entry counts key (next, message_id value),
      if exceeds limit next
          then put_out ctx "limit_exceeded" (AgentValue.message (limit_notice limit)) ∷ []
          else forward,
    )

process_chosen : Result (ℤ × String) → Counts → AgentContext → AgentValue → Hooked Counts
unfolding count_turn
process_chosen (err e) counts ctx value = (err e, counts, [])
process_chosen (ok (limit, key)) counts ctx value = count_turn limit key counts ctx value

unfoldable pub process : Option AgentConfigs → Counts → AgentContext → AgentValue → Hooked Counts
unfolding process_chosen chosen
process configs counts ctx value =
    if is_countable value
    then process_chosen (chosen configs ctx) counts ctx value
    else (ok tt, counts, put_out ctx "message" value ∷ [])
