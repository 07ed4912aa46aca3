-- ===== src/Tool/Call/Answers.antt =====
-- What executing a call gives: a message of the tool, under the id of the call.
use modular_agent_core.Prelude.{ℕ, String, ◌≡◌, refl, Bool, Option, none, some}
use modular_agent_core.Json.{Json}
use modular_agent_core.Error.{Result, ok, err}
use modular_agent_core.Llm.{ToolCall, Message, tool, tool_with_content, new}
use modular_agent_core.Value.{AgentValue}
use modular_agent_core.Value.Serial.{from_json}
use modular_agent_core.Context.{AgentContext}
use modular_agent_core.Tool.{ToolRegistry, get_tool}
use modular_agent_core.Tool.Call.{
  Libraries, error_tool_result, answer, run_with, run_checked, checked, unless_unparsed,
  execute_tool_call,
}

pub record Answers (call : ToolCall) (message : Message) : Type 0 where
  pub role : message.role ≡ "tool"
  pub id : message.id ≡ call.function.id
  pub name : message.tool_name ≡ some call.function.name

pub error_tool_result-Answers :
    (call : ToolCall) (e : String) → Answers call (error_tool_result call e)
unfolding error_tool_result tool new
error_tool_result-Answers call e = record { role = refl; id = refl; name = refl }

module _ (libraries : Libraries) where
  answer-Answers :
      (call : ToolCall) (r : Result AgentValue) → Answers call (answer libraries call r)
  unfolding answer tool_with_content new
  answer-Answers call (ok value) = record { role = refl; id = refl; name = refl }
  answer-Answers call (err e) = error_tool_result-Answers call _

  run_with-Answers :
      (fired : ℕ → Bool) (registry : ToolRegistry) (ctx : AgentContext) (call : ToolCall)
      (r : Result AgentValue)
      → Answers call (run_with libraries fired registry ctx call r)
  unfolding run_with
  run_with-Answers fired registry ctx call (err e) = error_tool_result-Answers call _
  run_with-Answers fired registry ctx call (ok args) = answer-Answers call _

  run_checked-Answers :
      (fired : ℕ → Bool) (registry : ToolRegistry) (ctx : AgentContext) (call : ToolCall)
      (r : Option String × Json)
      → Answers call (run_checked libraries fired registry ctx call r)
  unfolding run_checked
  run_checked-Answers fired registry ctx call (some e, parameters) =
      error_tool_result-Answers call _
  run_checked-Answers fired registry ctx call (none, parameters) =
      run_with-Answers fired registry ctx call (from_json libraries.new_from_base64 parameters)

  unless_unparsed-Answers :
      (o : Option String) (fired : ℕ → Bool) (registry : ToolRegistry) (ctx : AgentContext)
      (call : ToolCall)
      → Answers call (unless_unparsed libraries o fired registry ctx call)
  unfolding unless_unparsed
  unless_unparsed-Answers (some e) fired registry ctx call = error_tool_result-Answers call _
  unless_unparsed-Answers none fired registry ctx call =
      run_checked-Answers fired registry ctx call
        (checked libraries (get_tool call.function.name registry) call.function.parameters)

  pub execute_tool_call-Answers :
      (fired : ℕ → Bool) (registry : ToolRegistry) (ctx : AgentContext) (call : ToolCall)
      → Answers call (execute_tool_call libraries fired registry ctx call)
  unfolding execute_tool_call
  execute_tool_call-Answers fired registry ctx call =
      unless_unparsed-Answers call.function.parse_error fired registry ctx call
