-- ===== src/Runtime.antt =====
-- modular_agent.rs: the state of a runtime. Each lock of the source guards one field; an operation is
-- a function from a state to its result and the state that it leaves.
pub mod Exec
pub mod Tokens
pub mod Channels
pub mod Agents
pub mod Lifecycle
pub mod Presets
pub mod Edit
pub mod Routing
pub mod Process
pub mod Globals
pub mod Registry
pub mod Contexts
pub mod Steps
mod Tests
use modular_agent_core.Prelude.{ℕ, String, Bool, Option, none, List, [], ◌∷◌, ◌++◌}
use modular_agent_core.IndexMap
use modular_agent_core.IndexMap.{IndexMap}
use modular_agent_core.Error.{AgentError}
use modular_agent_core.Value.{AgentValue}
use modular_agent_core.Context.{AgentContext}
use modular_agent_core.Spec.{AgentConfigs}
use modular_agent_core.Network.{Connections}
use modular_agent_core.Agent.{Agent, AgentMessage, AgentDefinitions}
use modular_agent_core.Preset.{Preset}
use modular_agent_core.Cancel

-- message.rs
pub data AgentEventMessage : Type 0 where
  agent_out_message :
      (agent : String) → AgentContext → (port : String) → AgentValue → AgentEventMessage
  external_output_message : (name : String) → AgentContext → AgentValue → AgentEventMessage

pub data ModularAgentEvent : Type 0 where
  agent_config_updated : String → String → AgentValue → ModularAgentEvent
  agent_error : String → String → ModularAgentEvent
  agent_in : String → String → ModularAgentEvent
  agent_spec_updated : String → ModularAgentEvent
  preset_structure_changed : (preset_id : String) → ModularAgentEvent
  preset_added : (preset_id : String) → (name : Option String) → ModularAgentEvent
  preset_removed : (preset_id : String) → (name : Option String) → ModularAgentEvent
  preset_renamed :
      (preset_id : String) → (old_name : Option String) → (new_name : String) → ModularAgentEvent
  preset_saved : (preset_id name : String) → ModularAgentEvent
  external_output_event : String → AgentValue → ModularAgentEvent

-- The task that `start_agent` spawns, before it runs.
pub record AgentLoop : Type 0 where
  pub agent_id : String
  pub preset_id : String
  pub generation : ℕ
  pub token : ℕ
  pub native_thread : Bool
  pub channel : ℕ

-- A bounded channel to an agent: what waits in it, and whether its receiver is closed.
pub record Channel : Type 0 where
  pub queue : List AgentMessage
  pub closed : Bool

pub record ModularAgent : Type 0 where
  -- ID_COUNTER of id.rs, CONTEXT_ID_COUNTER of context.rs and AGENT_TOKEN_GENERATION
  pub id_counter : ℕ
  pub context_counter : ℕ
  pub token_generation : ℕ
  pub agents : IndexMap Agent
  -- agent id -> number of its channel
  pub agent_txs : IndexMap ℕ
  pub channels : List Channel
  pub loops : List AgentLoop
  pub external_input_agents : IndexMap (List String)
  pub external_values : IndexMap AgentValue
  pub connections : Connections
  pub defs : AgentDefinitions
  pub presets : IndexMap Preset
  pub preset_names : IndexMap String
  pub global_configs_map : IndexMap AgentConfigs
  pub preset_tokens : IndexMap ℕ
  -- agent id -> (loop generation, token)
  pub agent_tokens : IndexMap (ℕ × ℕ)
  -- context id -> token, a weak reference
  pub context_tokens : List (ℕ × ℕ)
  pub tokens : Cancel.Tokens
  -- the queue that `tx` sends to, none before `ready` and after `quit`
  pub tx : Option ℕ
  -- the queues of the message loops that were spawned
  pub event_queues : List (List AgentEventMessage)
  -- the events sent to the observers, the oldest first
  pub events : List ModularAgentEvent

-- ModularAgent::new
unfoldable pub new : ModularAgent
new = record {
  id_counter = 1;
  context_counter = 1;
  token_generation = 1;
  agents = IndexMap.empty;
  agent_txs = IndexMap.empty;
  channels = [];
  loops = [];
  external_input_agents = IndexMap.empty;
  external_values = IndexMap.empty;
  connections = IndexMap.empty;
  defs = IndexMap.empty;
  presets = IndexMap.empty;
  preset_names = IndexMap.empty;
  global_configs_map = IndexMap.empty;
  preset_tokens = IndexMap.empty;
  agent_tokens = IndexMap.empty;
  context_tokens = [];
  tokens = Cancel.no_tokens;
  tx = none;
  event_queues = [];
  events = [];
}

-- `notify_observers`: an event is sent whether or not somebody observes.
unfoldable pub emit : ModularAgentEvent → ModularAgent → ModularAgent
emit event ma = record ma { events = ma.events ++ event ∷ [] }
