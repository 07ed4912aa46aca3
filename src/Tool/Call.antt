-- ===== src/Tool/Call.antt =====
-- tool.rs: the execution of one tool call, whose every failure is a message.
pub mod Answers
use Prim.Native.String.{◌++◌ as append}
use modular_agent_core.Prelude.{
  ℕ, String, Bool, true, false, ◌||◌, Option, none, some, List, [], ◌∷◌, if◌then◌else◌,
}
use modular_agent_core.Json.{Json}
use modular_agent_core.Error.{AgentError, Result, ok, err, display}
use modular_agent_core.Llm.{
  PhotonImage, ContentBlock, MessageContent, plain, blocks, ToolCall, Message, tool,
  tool_with_content,
}
use modular_agent_core.Value.{AgentValue, Values}
use modular_agent_core.Value.Serial.{from_json, to_json, strip_image_prefix}
use modular_agent_core.Context.{AgentContext}
use modular_agent_core.Tool.{Tool, ToolRegistry, get_tool, call_tool}
use modular_agent_core.Tool.Schema.{SchemaLibrary, validate_tool_args}

-- Code outside the crate: `jsonschema`, `serde_json`'s print, and the image library.
pub record Libraries : Type 0 where
  pub schemas : SchemaLibrary
  pub print : Json → String
  pub new_from_base64 : String → PhotonImage
  pub get_base64 : PhotonImage → String

unfoldable pub error_tool_result : ToolCall → String → Message
error_tool_result call e = record (tool call.function.name e) {
  id = call.function.id;
  is_error = some true;
}

module _ (libraries : Libraries) where
  image_block : PhotonImage → ContentBlock
  image_block image =
      ContentBlock.image (strip_image_prefix (libraries.get_base64 image)) "image/png"

  json_text : AgentValue → String
  json_text value = libraries.print (to_json libraries.get_base64 value)

  has_image : Values → Bool
  has_image Values.nil = false
  has_image (Values.cons (AgentValue.image i) vs) = true
  has_image (Values.cons _ vs) = has_image vs

  value_block : AgentValue → ContentBlock
  unfolding image_block json_text
  value_block (AgentValue.image i) = image_block i
  value_block value = ContentBlock.text (json_text value)

  value_blocks : Values → List ContentBlock
  unfolding value_block
  value_blocks Values.nil = []
  value_blocks (Values.cons v vs) = value_block v ∷ value_blocks vs

  unfoldable pub tool_result_content : AgentValue → MessageContent
  unfolding image_block json_text has_image value_blocks
  tool_result_content (AgentValue.image i) = blocks (image_block i ∷ [])
  tool_result_content (AgentValue.array vs) =
      if has_image vs then blocks (value_blocks vs) else plain (json_text (AgentValue.array vs))
  tool_result_content value = plain (json_text value)

  answer : ToolCall → Result AgentValue → Message
  unfolding tool_result_content
  answer call (ok value) =
      record (tool_with_content call.function.name (tool_result_content value)) {
        id = call.function.id;
      }
  answer call (err e) = error_tool_result call (display e)

  run_with : (ℕ → Bool) → ToolRegistry → AgentContext → ToolCall → Result AgentValue → Message
  unfolding answer
  run_with fired registry ctx call (err e) =
      error_tool_result call (append "Failed to parse tool call parameters: " (display e))
  run_with fired registry ctx call (ok args) =
      answer call (call_tool fired registry ctx call.function.name args)

  -- An unknown tool goes on to `call_tool`, which reports it.
  checked : Option Tool → Json → Option String × Json
  checked none parameters = (none, parameters)
  checked (some t) parameters = validate_tool_args libraries.schemas t.info.parameters parameters

  run_checked : (ℕ → Bool) → ToolRegistry → AgentContext → ToolCall → Option String × Json → Message
  unfolding run_with
  run_checked fired registry ctx call (some errors, parameters) = error_tool_result call (
      append
        "Tool call arguments failed schema validation; the call was not executed. Re-issue the call with corrected arguments. Errors: "
        errors)
  run_checked fired registry ctx call (none, parameters) =
      run_with fired registry ctx call (from_json libraries.new_from_base64 parameters)

  unless_unparsed : Option String → (ℕ → Bool) → ToolRegistry → AgentContext → ToolCall → Message
  unfolding checked run_checked
  unless_unparsed (some e) fired registry ctx call = error_tool_result call (
      append
        "Tool call arguments could not be parsed as JSON; the call was not executed. Re-issue the call with valid JSON arguments. "
        e)
  unless_unparsed none fired registry ctx call =
      run_checked fired registry ctx call
        (checked (get_tool call.function.name registry) call.function.parameters)

  unfoldable pub execute_tool_call : (ℕ → Bool) → ToolRegistry → AgentContext → ToolCall → Message
  unfolding unless_unparsed
  execute_tool_call fired registry ctx call =
      unless_unparsed call.function.parse_error fired registry ctx call
