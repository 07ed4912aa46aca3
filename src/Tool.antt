-- ===== src/Tool.antt =====
-- tool.rs: tools, their registry, and the execution of the tool calls of a message.
pub mod Schema
pub mod Call
pub mod Batch
pub mod Tracker
pub mod Agents
mod Tests
use Prim.Native.Char.{Char, code}
use Prim.Native.String.{◌++◌ as append, ◌∷◌ as char_in_front, [] as no_text, len}
use modular_agent_core.Prelude.{
  ℕ, zero, suc, ◌+◌, String, Bool, true, false, not, ◌&&◌, ◌||◌, Option, none, some, List, [], ◌∷◌,
  map, retain, ◌==◌, leb, ltb, nat_eq, if◌then◌else◌,
}
use modular_agent_core.Text.{trim, is_empty, lines}
use modular_agent_core.IndexMap
use modular_agent_core.IndexMap.{IndexMap}
use modular_agent_core.Json.{Json, Fields}
use modular_agent_core.Error.{AgentError, other, cancelled, invalid_value, Result, ok, err}
use modular_agent_core.Value.{AgentValue}
use modular_agent_core.Context.{AgentContext, is_cancelled}

pub data ExecutionMode : Type 0 where
  sequential parallel : ExecutionMode

pub record ToolInfo : Type 0 where
  pub name : String
  pub description : String
  pub parameters : Json
  pub execution_mode : ExecutionMode

or_empty_schema : Option Json → Json
or_empty_schema (some schema) = schema
or_empty_schema none = Json.object (
    Fields.field "properties" (Json.object Fields.end)
      (Fields.field "type" (Json.string "object") Fields.end))

-- ToolInfo::new
unfoldable pub new_info : String → String → Option Json → ToolInfo
unfolding or_empty_schema
new_info name description parameters = record {
  name = name;
  description = description;
  parameters = or_empty_schema parameters;
  execution_mode = sequential;
}

unfoldable pub with_execution_mode : ToolInfo → ExecutionMode → ToolInfo
with_execution_mode info mode = record info { execution_mode = mode }

-- A tool: code outside this crate, as a function of the context and the arguments.
pub record Tool : Type 0 where
  pub info : ToolInfo
  pub call : AgentContext → AgentValue → Result AgentValue

-- `ToolEntry` keeps the information of the time of the registration.
pub record ToolEntry : Type 0 where
  pub info : ToolInfo
  pub tool : Tool

-- The order of the map is not read.
abbrev pub ToolRegistry : Type 0
ToolRegistry = IndexMap ToolEntry

-- The name of a tool is that of its information.
unfoldable pub register_tool : Tool → ToolRegistry → ToolRegistry
register_tool tool registry =
    IndexMap.insert registry tool.info.name (record { info = tool.info; tool = tool })

unfoldable pub unregister_tool : String → ToolRegistry → ToolRegistry
unregister_tool name registry = IndexMap.swap_remove registry name

abbrev pub tool_of : Option ToolEntry → Option Tool
tool_of none = none
tool_of (some entry) = some entry.tool

unfoldable pub get_tool : String → ToolRegistry → Option Tool
get_tool name registry = tool_of (IndexMap.get registry name)

count_chars : String → ℕ
count_chars no_text = 0
count_chars (char_in_front c s) = suc (count_chars s)

abbrev min_description_chars : ℕ
min_description_chars = 10

-- `description_warning`, by its cases
pub data Warning : Type 0 where
  missing short : Warning

unfoldable pub description_warning : String → Option Warning
unfolding count_chars
description_warning description =
    if is_empty (trim description)
    then some missing
    else if ltb (count_chars (trim description)) min_description_chars
    then some short
    else none

is_name_char : Char → Bool
is_name_char c =
    let n = code c in
    (leb b'a' n && leb n b'z')
    || (leb b'A' n && leb n b'Z')
    || (leb b'0' n && leb n b'9')
    || nat_eq n b'_'
    || nat_eq n b'-'

all_chars : (Char → Bool) → String → Bool
all_chars p no_text = true
all_chars p (char_in_front c s) = p c && all_chars p s

-- `len` counts bytes.
unfoldable pub is_valid_tool_name : String → Bool
unfolding is_name_char all_chars
is_valid_tool_name name = leb 1 (len name) && leb (len name) 64 && all_chars is_name_char name

abbrev infos : List (String × ToolEntry) → List ToolInfo
infos [] = []
infos ((name, entry) ∷ rest) = entry.info ∷ infos rest

unfoldable pub list_tool_infos : ToolRegistry → List ToolInfo
list_tool_infos registry = infos registry.entries

patterns_of : List String → List String
patterns_of [] = []
patterns_of (line ∷ rest) =
    let later = patterns_of rest in if is_empty (trim line) then later else trim line ∷ later

-- What `RegexSet::new` makes of some patterns: an error, or a test of names.
pub data Regexes : Type 0 where
  invalid : String → Regexes
  matching : (String → Bool) → Regexes

-- The infos that match, or the error of the patterns.
pub data Listed : Type 0 where
  bad_patterns : String → Listed
  listed : List ToolInfo → Listed

select : Regexes → List ToolInfo → Listed
select (invalid e) tools = bad_patterns e
select (matching p) tools = listed (retain (λ (tool : ToolInfo). p tool.name) tools)

unfoldable pub list_tool_infos_patterns :
    (compile : List String → Regexes) → String → ToolRegistry → Listed
unfolding patterns_of select list_tool_infos
list_tool_infos_patterns compile patterns registry =
    select (compile (patterns_of (lines patterns))) (list_tool_infos registry)

call_found : Option Tool → AgentContext → String → AgentValue → Result AgentValue
call_found none ctx name args = err (other (append "Tool '" (append name "' not found")))
call_found (some tool) ctx name args = tool.call ctx args

-- `fired` tells the cancellation tokens that have fired.
unfoldable pub call_tool :
    (fired : ℕ → Bool) → ToolRegistry → AgentContext → String → AgentValue → Result AgentValue
unfolding call_found get_tool
call_tool fired registry ctx name args =
    if is_cancelled fired ctx
    then err cancelled
    else call_found (get_tool name registry) ctx name args
