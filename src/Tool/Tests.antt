-- ===== src/Tool/Tests.antt =====
-- Three calls of a tool that answers with its arguments, the last of them to a tool that is unknown.
use modular_agent_core.Prelude.{
  ℕ, String, ◌+◌, ◌<◌, ◌≡◌, refl, Bool, true, false, Option, none, some, List, [], ◌∷◌, map, arith,
}
use modular_agent_core.Prelude.Int.{pos}
use modular_agent_core.IndexMap
use modular_agent_core.Decimal.{to_string}
use modular_agent_core.Json.{Json, Fields, pos_int}
use modular_agent_core.Error.{ok}
use modular_agent_core.Llm.{PhotonImage, ToolCall, assistant}
use modular_agent_core.Value.{AgentValue, as_i64}
use modular_agent_core.Context.{AgentContext, ctx_key, map_frame_indices}
use modular_agent_core.Spec.{AgentConfigs, get_integer_or, get_string_or_default}
use modular_agent_core.Tool.{
  parallel, Tool, ToolRegistry, new_info, with_execution_mode, register_tool, matching, Regexes,
}
use modular_agent_core.Tool.Schema.{SchemaLibrary, coerce_by_schema}
use modular_agent_core.Tool.Schema.Strings.{NoText, coerce_by_schema-NoText}
use modular_agent_core.Tool.Call.{Libraries, error_tool_result, execute_tool_call}
use modular_agent_core.Tool.Batch.{Turn, call_tools}
use modular_agent_core.Tool.Batch.Answers.{AllAnswer, call_tools-AllAnswer}
use modular_agent_core.Tool.Batch.Complete.{IsFair, call_tools-map}
use modular_agent_core.Decimal.{to_string}
use modular_agent_core.Tool.Tracker.{
  max_tracked_ctx_keys, IsTracked, nothing_tracked, nothing_tracked-IsTracked, track, put_entry,
}
use modular_agent_core.Tool.Tracker.Behind.{behind}
use modular_agent_core.Tool.Tracker.Flows.{others, of_flow}
use modular_agent_core.Tool.Agents.LoopControl
use modular_agent_core.Tool.Agents.LoopControl.Verdict.{no_turns, turns_of, verdict}
use modular_agent_core.Tool.Agents.LoopControl.Turns.{deliver, process-verdict}
use modular_agent_core.Tool.Agents.CallToolMessage
use modular_agent_core.Tool.Agents.CallToolMessage.Marks.{answers}
use modular_agent_core.Tool.Agents.CallToolMessage.Once.{
  Delivery, receive, receive_flows, receive-once,
}
use modular_agent_core.Tool.Agents.CallToolMessage.Bounds.{Queues, receive_flows-IsTracked}

abbrev picture : PhotonImage
picture = record { raw_pixels = []; width = 0; height = 0 }

abbrev library : SchemaLibrary
library = record { validator_for = λ schema. none; parse_f64 = λ s. none }

abbrev libraries : Libraries
libraries = record {
  schemas = library;
  print = λ value. "{}";
  new_from_base64 = λ s. picture;
  get_base64 = λ image. "data";
}

-- {"n": 3} against {"type": "integer"}
abbrev arguments : Json
arguments = Json.object (Fields.field "n" (Json.number (pos_int 3)) Fields.end)

coerce_by_schema-NoText_example :
    coerce_by_schema library
      (Json.object (Fields.field "type" (Json.string "integer") Fields.end))
      arguments
    ≡ arguments
unfolding NoText
coerce_by_schema-NoText_example =
    coerce_by_schema-NoText library
      (Json.object (Fields.field "type" (Json.string "integer") Fields.end)) arguments (tt, tt)

abbrev echo : Tool
echo = record {
  info = with_execution_mode (new_info "echo" "answers with its arguments" none) parallel;
  call = λ ctx args. ok args;
}

abbrev registry : ToolRegistry
registry = register_tool echo IndexMap.empty

abbrev ctx : AgentContext
ctx = record { id = 7; vars = none; frames = none; cancel = some 1 }

abbrev call : String → String → ToolCall
call name id = record {
  function = record { name = name; parameters = arguments; id = some id; parse_error = none };
}

abbrev calls : List ToolCall
calls = call "echo" "a" ∷ call "echo" "b" ∷ call "other" "c" ∷ []

abbrev nothing_fired : ℕ → Bool
nothing_fired token = false

-- The second call is the first to complete; the token fires before the first does.
abbrev cut_short : ℕ → Turn
cut_short n = record { order = 1 ∷ []; fires = true }

abbrev whole : ℕ → Turn
whole n = record { order = 2 ∷ 1 ∷ 0 ∷ []; fires = false }

call_tools-AllAnswer_example :
    AllAnswer calls (call_tools libraries nothing_fired registry ctx cut_short calls)
call_tools-AllAnswer_example =
    call_tools-AllAnswer libraries nothing_fired registry ctx cut_short calls

whole-IsFair : (m : ℕ) → IsFair 3 (whole m)
whole-IsFair m = record { quiet = refl; covers = λ i small. ground (arith, small) }

call_tools-map_example :
    call_tools libraries nothing_fired registry ctx whole calls
    ≡ map (execute_tool_call libraries nothing_fired registry ctx) calls
call_tools-map_example =
    call_tools-map libraries nothing_fired registry ctx whole calls whole-IsFair

abbrev asking : String → AgentValue
asking id = AgentValue.message (record (assistant "") { id = some id; tool_calls = some calls })

abbrev configs : AgentConfigs
configs = IndexMap.insert IndexMap.empty "max_iterations" (AgentValue.integer (pos 2))

limited : get_integer_or configs "max_iterations" (pos 25) ≡ pos 2
unfolding get_integer_or IndexMap.get IndexMap.insert IndexMap.empty as_i64
limited = refl

keyed : ctx_key ctx ≡ ok "7"
unfolding ctx_key map_frame_indices to_string
keyed = refl

new : IndexMap.get (nothing_tracked {V = ℕ × Option String}).entries "7" ≡ none
unfolding nothing_tracked IndexMap.get IndexMap.empty
new = refl

abbrev inputs : List (AgentContext × AgentValue)
inputs = (ctx, asking "x") ∷ (record ctx { id = 8 }, asking "x") ∷ (ctx, asking "y") ∷ []

others_fit : others "7" inputs < max_tracked_ctx_keys
unfolding ctx_key map_frame_indices to_string
others_fit = omega arith

-- The third turn of the flow is one too many.
process-verdict_example :
    (LoopControl.process
      (some configs)
      (deliver (some configs) nothing_tracked inputs)
      ctx
      (asking "z")).2
    ≡ verdict 2 ctx (turns_of no_turns (of_flow "7" inputs)) (asking "z")
process-verdict_example =
    process-verdict 2 "7" ctx configs nothing_tracked inputs (asking "z") (omega arith)
      (omega arith) limited keyed nothing_tracked-IsTracked new others_fit

abbrev compile : List String → Regexes
compile patterns = matching (λ name. true)

abbrev delivery : AgentValue → Delivery
delivery value = record {
  fired = nothing_fired;
  turns = whole;
  configs = some configs;
  value = value;
}

-- A message cut by the token limit: its calls are answered without running them.
abbrev truncated : AgentValue
truncated =
    AgentValue.message (record (assistant "") {
      id = some "x";
      tool_calls = some calls;
      stop_reason = some "length";
    })

answered :
    answers "b" (receive libraries compile registry ctx nothing_tracked (delivery truncated)).2
    ≡ true
unfolding CallToolMessage.process CallToolMessage.skip_executed CallToolMessage.is_executed
    get_string_or_default IndexMap.get IndexMap.insert IndexMap.empty ctx_key map_frame_indices
    nothing_tracked error_tool_result assistant
answered = refl

abbrev others_come : List (AgentContext × Delivery)
others_come = (record ctx { id = 8 }, delivery truncated) ∷ []

few_behind :
    behind
        (receive libraries compile registry ctx nothing_tracked
          (delivery truncated)).1.ctx_key_order
        "7"
      + others "7" others_come
    < max_tracked_ctx_keys
unfolding CallToolMessage.process CallToolMessage.skip_executed CallToolMessage.is_executed
    CallToolMessage.mark_all CallToolMessage.mark_executed track get_string_or_default IndexMap.get
    IndexMap.insert IndexMap.empty ctx_key map_frame_indices nothing_tracked error_tool_result
    assistant put_entry to_string
few_behind = omega arith

receive-once_example :
    answers "b"
      (receive libraries compile registry ctx
        (receive_flows libraries compile registry
          (receive libraries compile registry ctx nothing_tracked (delivery truncated)).1
          others_come)
        (delivery (asking "x"))).2
    ≡ false
receive-once_example =
    receive-once libraries compile registry "7" "b" nothing_tracked ctx (delivery truncated)
      others_come ctx (delivery (asking "x")) keyed keyed few_behind answered

receive_flows-IsTracked_example :
    IsTracked
      (receive_flows libraries compile registry nothing_tracked ((ctx, delivery (asking "x")) ∷ []))
    × Queues libraries compile registry ctx
        (receive_flows libraries compile registry nothing_tracked
          ((ctx, delivery (asking "x")) ∷ [])).ctx_key_order
        (receive libraries compile registry ctx
          (receive_flows libraries compile registry nothing_tracked
            ((ctx, delivery (asking "x")) ∷ []))
          (delivery truncated)).1.ctx_key_order
receive_flows-IsTracked_example =
    receive_flows-IsTracked libraries compile registry ((ctx, delivery (asking "x")) ∷ []) ctx
      (delivery truncated)
