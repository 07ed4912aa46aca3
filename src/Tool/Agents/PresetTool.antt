-- ===== src/Tool/Agents/PresetTool.antt =====
-- `PresetToolAgent` and `PresetTool` of tool.rs: a workflow as a tool, and the calls that wait for it.
-- A call is known by the number of its channel. Time is not modelled: how a wait ends is an argument.
pub mod Names
pub mod Waiting
mod Tests
use Prim.Native.String.{◌++◌ as append}
use modular_agent_core.Prelude.{
  ℕ, String, Bool, true, false, not, ◌&&◌, Option, none, some, List, [], ◌∷◌, ◌==◌, nat_eq,
  if◌then◌else◌,
}
use modular_agent_core.Prelude.Int.{ℤ, pos, negsuc}
use modular_agent_core.Text.Integers.{show_integer}
use modular_agent_core.IndexMap
use modular_agent_core.Json.{Json}
use modular_agent_core.Error.{
  AgentError, agent_not_found, no_config, other, cancelled, timeout, Result, ok, err,
}
use modular_agent_core.Llm.{PhotonImage}
use modular_agent_core.Value.{AgentValue}
use modular_agent_core.Value.Serial.Serialize.{serialize}
use modular_agent_core.Context.{AgentContext, is_cancelled}
use modular_agent_core.Spec.{AgentConfigs, get_string, get_string_or_default, get_integer_or}
use modular_agent_core.Agent.{strip_stale}
use modular_agent_core.Tool.{Tool, ToolRegistry, new_info, register_tool, unregister_tool}

-- The calls that wait, under the ids of their contexts.
abbrev pub Pending : Type 0
Pending = List (ℕ × ℕ)

unfoldable pub waiting : Pending → ℕ → Option ℕ
waiting [] ctx_id = none
waiting ((id, call) ∷ rest) ctx_id =
    let later = waiting rest ctx_id in if nat_eq id ctx_id then some call else later

unfoldable pub remove_waiting : Pending → ℕ → Pending
remove_waiting [] ctx_id = []
remove_waiting ((id, call) ∷ rest) ctx_id =
    let later = remove_waiting rest ctx_id in if nat_eq id ctx_id then later else (id, call) ∷ later

unfoldable pub insert_waiting : Pending → ℕ → ℕ → Pending
insert_waiting pending ctx_id call = (ctx_id, call) ∷ remove_waiting pending ctx_id

pub record PresetToolAgent : Type 0 where
  pub id : String
  pub configs : Option AgentConfigs
  pub is_started : Bool
  pub name : String
  pub description : String
  pub parameters : Option Json
  pub pending : Pending

abbrev or_text {ℓ} : {A : Type ℓ} → Result A → A → A
or_text (ok s) default = s
or_text (err e) default = default

name_in : Option AgentConfigs → String → String
name_in none def_name = def_name
name_in (some c) def_name = or_text (get_string c "name") def_name

description_in : Option AgentConfigs → String
description_in none = ""
description_in (some c) = or_text (get_string c "description") ""

serialized : (PhotonImage → String) → Option AgentValue → Option Json
serialized encode none = none
serialized encode (some v) = some (serialize encode v)

parameters_in : (PhotonImage → String) → Option AgentConfigs → Option Json
unfolding serialized
parameters_in encode none = none
parameters_in encode (some c) = serialized encode (IndexMap.get c "parameters")

-- PresetToolAgent::new. The configs that are kept go through AgentData::new; the name, the description
-- and the parameters are read from those that came.
unfoldable pub new :
    (PhotonImage → String) → String → (def_name : String) → Option AgentConfigs → PresetToolAgent
unfolding name_in description_in parameters_in
new encode id def_name configs = record {
  id = id;
  configs = strip_stale configs;
  is_started = false;
  name = name_in configs def_name;
  description = description_in configs;
  parameters = parameters_in encode configs;
  pending = [];
}

-- What a call of the tool comes to is up to the workflow; whether the agent is in the map of agents is
-- an argument.
module _ (encode : PhotonImage → String) (answer : AgentContext → AgentValue → Result AgentValue)
    (found : Bool) where
  -- PresetTool::new
  unfoldable pub preset_tool : PresetToolAgent → Tool
  preset_tool agent = record {
    info = new_info agent.name agent.description agent.parameters;
    call = answer;
  }

  read_configs : AgentConfigs → PresetToolAgent → PresetToolAgent
  unfolding serialized
  read_configs c agent = record agent {
    name = get_string_or_default c "name";
    description = get_string_or_default c "description";
    parameters = serialized encode (IndexMap.get c "parameters");
  }

  drop_old : String → String → ToolRegistry → ToolRegistry
  drop_old old_name name registry =
      if old_name == name then registry else unregister_tool old_name registry

  -- The registration is refreshed while the agent runs.
  refresh :
      String → PresetToolAgent → ToolRegistry → Result (Unit {0}) × PresetToolAgent × ToolRegistry
  unfolding drop_old
  refresh old_name agent registry =
      if not agent.is_started
      then (ok tt, agent, registry)
      else if found
      then (ok tt, agent, drop_old old_name agent.name (register_tool (preset_tool agent) registry))
      else (err (agent_not_found agent.id), agent, registry)

  changed :
      Option AgentConfigs
      → PresetToolAgent
      → ToolRegistry
      → Result (Unit {0}) × PresetToolAgent × ToolRegistry
  unfolding refresh read_configs
  changed none agent registry = (err no_config, agent, registry)
  changed (some c) agent registry = refresh agent.name (read_configs c agent) registry

  unfoldable pub configs_changed :
      PresetToolAgent → ToolRegistry → Result (Unit {0}) × PresetToolAgent × ToolRegistry
  unfolding changed
  configs_changed agent registry = changed agent.configs agent registry

  unfoldable pub start : PresetToolAgent → ToolRegistry → Result (Unit {0}) × ToolRegistry
  start agent registry =
      if found
      then (ok tt, register_tool (preset_tool agent) registry)
      else (err (agent_not_found agent.id), registry)

unfoldable pub stop : PresetToolAgent → ToolRegistry → PresetToolAgent × ToolRegistry
stop agent registry = (record agent { pending = [] }, unregister_tool agent.name registry)

-- The call that the value of the context goes to, if one waits.
unfoldable pub process : AgentContext → PresetToolAgent → Option ℕ × PresetToolAgent
process ctx agent =
    (waiting agent.pending ctx.id, record agent { pending = remove_waiting agent.pending ctx.id })

started_call :
    AgentContext → ℕ → Result (Unit {0}) → PresetToolAgent → Result (Unit {0}) × PresetToolAgent
started_call ctx call (ok u) agent =
    (ok tt, record agent { pending = insert_waiting agent.pending ctx.id call })
started_call ctx call (err e) agent = (
  err e,
  record agent { pending = remove_waiting (insert_waiting agent.pending ctx.id call) ctx.id },
)

-- `start_tool_call`: what `try_output` gives is an argument.
unfoldable pub start_tool_call :
    AgentContext
    → (call : ℕ) → (sent : Result (Unit {0})) → PresetToolAgent
    → Result (Unit {0}) × PresetToolAgent
unfolding started_call
start_tool_call ctx call sent agent = started_call ctx call sent agent

-- The first half of `tool_call`, up to the wait: the token may fire while it waits for the agent.
unfoldable pub begin_tool_call :
    (fired fired_later : ℕ → Bool)
    → AgentContext
    → (call : ℕ) → (sent : Result (Unit {0})) → PresetToolAgent
    → Result (Unit {0}) × PresetToolAgent
begin_tool_call fired fired_later ctx call sent agent =
    if is_cancelled fired ctx
    then (err cancelled, agent)
    else if is_cancelled fired_later ctx
    then (err cancelled, agent)
    else start_tool_call ctx call sent agent

abbrev default_timeout_secs : ℤ
default_timeout_secs = pos 60

secs_in : Option AgentConfigs → ℤ
secs_in none = default_timeout_secs
secs_in (some c) = get_integer_or c "timeout_secs" default_timeout_secs

-- The seconds that a call waits, read when it begins.
unfoldable pub timeout_secs : PresetToolAgent → ℤ
unfolding secs_in
timeout_secs agent = secs_in agent.configs

-- How a wait ends. It elapses only if the seconds are positive.
pub data Wait : Type 0 where
  received : AgentValue → Wait
  sender_dropped : Wait
  elapsed : Wait
  token_fired : Wait

unfoldable pub wait_result : ℤ → Wait → Result AgentValue
wait_result secs (received value) = ok value
wait_result secs sender_dropped = err (other "tool_out dropped")
wait_result secs elapsed =
    err (timeout (append "Tool call timed out after " (append (show_integer secs) " seconds")))
wait_result secs token_fired = err cancelled

-- The second half: the guard takes the entry of the context out, however the wait ends.
unfoldable pub end_tool_call :
    AgentContext → (secs : ℤ) → Wait → PresetToolAgent → Result AgentValue × PresetToolAgent
end_tool_call ctx secs wait agent =
    (wait_result secs wait, record agent { pending = remove_waiting agent.pending ctx.id })
