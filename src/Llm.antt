-- ===== src/Llm.antt =====
-- llm.rs: chat messages as data. The `image` feature is on.
pub mod Serial
pub mod Tokens
use modular_agent_core.Prelude.{ℕ, String, Bool, false, Option, none, some, List, [], ◌∷◌}
use Prim.Native.String
use modular_agent_core.Json.{Json}

-- `photon_rs::PhotonImage`, by what the source reads of it.
pub record PhotonImage : Type 0 where
  pub width : ℕ
  pub height : ℕ
  pub raw_pixels : List ℕ

pub data ContentBlock : Type 0 where
  text : String → ContentBlock
  thinking : String → (signature : Option String) → (redacted : Bool) → ContentBlock
  image : (contents mime_type : String) → ContentBlock

pub data MessageContent : Type 0 where
  plain : String → MessageContent
  blocks : List ContentBlock → MessageContent

pub record Usage : Type 0 where
  pub input_tokens : ℕ
  pub output_tokens : ℕ
  pub cache_read_tokens : ℕ
  pub cache_write_tokens : ℕ

pub record ToolCallFunction : Type 0 where
  pub name : String
  pub parameters : Json
  pub id : Option String
  pub parse_error : Option String

pub record ToolCall : Type 0 where
  pub function : ToolCallFunction

pub record Message : Type 0 where
  pub id : Option String
  pub role : String
  pub content : MessageContent
  pub tokens : Option ℕ
  pub streaming : Bool
  pub tool_calls : Option (List ToolCall)
  pub tool_name : Option String
  pub is_error : Option Bool
  pub stop_reason : Option String
  pub usage : Option Usage
  pub image : Option PhotonImage

-- Message::new
unfoldable pub new : String → String → Message
new role content = record {
  id = none;
  role = role;
  content = plain content;
  tokens = none;
  streaming = false;
  tool_calls = none;
  tool_name = none;
  is_error = none;
  stop_reason = none;
  usage = none;
  image = none;
}

-- Message::user
unfoldable pub user : String → Message
unfolding new
user content = new "user" content

-- Message::assistant
unfoldable pub assistant : String → Message
unfolding new
assistant content = new "assistant" content

-- Message::tool
unfoldable pub tool : String → String → Message
unfolding new
tool tool_name content = record (new "tool" content) { tool_name = some tool_name }

-- Message::tool_with_content
unfoldable pub tool_with_content : String → MessageContent → Message
unfolding new
tool_with_content tool_name content = record (new "tool" "") {
  content = content;
  tool_name = some tool_name;
}

text_of_blocks : List ContentBlock → String
text_of_blocks [] = ""
text_of_blocks (text s ∷ rest) = String.◌++◌ s (text_of_blocks rest)
text_of_blocks (_ ∷ rest) = text_of_blocks rest

-- MessageContent::text
unfoldable pub content_text : MessageContent → String
unfolding text_of_blocks
content_text (plain s) = s
content_text (blocks bs) = text_of_blocks bs
