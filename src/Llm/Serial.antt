-- ===== src/Llm/Serial.antt =====
-- `Serialize` of a message in llm.rs, as a JSON value. `image` is `get_base64` of the image library.
use modular_agent_core.Prelude.{ℕ, String, Bool, true, false, List, [], ◌∷◌, all, if◌then◌else◌}
use modular_agent_core.Json.{Json, Items, Fields, pos_int, insert_field, insert_if}
use modular_agent_core.Llm.{
  PhotonImage, ContentBlock, text, thinking, MessageContent, plain, blocks, Usage, ToolCall,
  Message, content_text,
}

-- The derived serialisation of a block, with its tag.
block_json : ContentBlock → Json
block_json (text s) =
    Json.object
      (insert_field (insert_field Fields.end "type" (Json.string "text")) "text" (Json.string s))
block_json (thinking s signature redacted) =
    let tagged =
      insert_field (insert_field Fields.end "type" (Json.string "thinking")) "thinking"
        (Json.string s) in
    let signed = insert_if signature "signature" Json.string tagged in
    Json.object (if redacted then insert_field signed "redacted" (Json.boolean true) else signed)
block_json (ContentBlock.image contents mime_type) = Json.object (
    insert_field
      (insert_field (insert_field Fields.end "type" (Json.string "image")) "data"
        (Json.string contents))
      "mime_type" (Json.string mime_type))

items : {A : Type 0} → (A → Json) → List A → Items
items f [] = Items.nil
items f (x ∷ xs) = Items.cons (f x) (items f xs)

is_text : ContentBlock → Bool
is_text (text s) = true
is_text _ = false

-- Blocks that are all text are written as one text.
content_json : MessageContent → Json
unfolding block_json items is_text
content_json (plain s) = Json.string s
content_json (blocks bs) =
    if all is_text bs
    then Json.string (content_text (blocks bs))
    else Json.array (items block_json bs)

count : ℕ → Json
count n = Json.number (pos_int n)

usage_json : Usage → Json
unfolding count
usage_json u = Json.object (
    insert_field
      (insert_field
        (insert_field (insert_field Fields.end "input_tokens" (count u.input_tokens))
          "output_tokens" (count u.output_tokens))
        "cache_read_tokens" (count u.cache_read_tokens))
      "cache_write_tokens" (count u.cache_write_tokens))

call_json : ToolCall → Json
call_json call =
    let f = call.function in
    let named = insert_field Fields.end "name" (Json.string f.name) in
    let given = insert_field named "parameters" f.parameters in
    let marked = insert_if f.id "id" Json.string given in
    Json.object (
      insert_field Fields.end "function"
        (Json.object (insert_if f.parse_error "parse_error" Json.string marked)))

unfoldable pub message_json : (PhotonImage → String) → Message → Json
unfolding content_json usage_json call_json items count
message_json image m =
    let with_id = insert_if m.id "id" Json.string Fields.end in
    let with_role = insert_field with_id "role" (Json.string m.role) in
    let with_content = insert_field with_role "content" (content_json m.content) in
    let with_tokens = insert_if m.tokens "tokens" count with_content in
    let with_streaming =
      (if m.streaming
        then insert_field with_tokens "streaming" (Json.boolean true)
        else with_tokens) in
    let with_calls =
      insert_if m.tool_calls "tool_calls" (λ calls. Json.array (items call_json calls))
        with_streaming in
    let with_tool = insert_if m.tool_name "tool_name" Json.string with_calls in
    let with_error = insert_if m.is_error "is_error" Json.boolean with_tool in
    let with_reason = insert_if m.stop_reason "stop_reason" Json.string with_error in
    let with_usage = insert_if m.usage "usage" usage_json with_reason in
    Json.object (insert_if m.image "image" (λ i. Json.string (image i)) with_usage)
