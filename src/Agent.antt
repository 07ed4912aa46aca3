-- ===== src/Agent.antt =====
-- agent.rs and the definitions of definition.rs: agents as data. An agent of this crate is told by
-- its kind and its own field; any other is given by functions, which stand for code outside it.
use text.Mathlib.Text.{starts_with}
use modular_agent_core.Prelude.{ℕ, String, Bool, not, Option, none, some, List}
use modular_agent_core.IndexMap
use modular_agent_core.IndexMap.{IndexMap}
use modular_agent_core.Json.{Json}
use modular_agent_core.Error.{Result}
use modular_agent_core.Value.{AgentValue}
use modular_agent_core.Context.{AgentContext}
use modular_agent_core.Spec.{AgentConfigs, AgentConfigSpecs, AgentSpec}

pub data AgentStatus : Type 0 where
  init start stop : AgentStatus

pub data AgentMessage : Type 0 where
  input : AgentContext → (port : String) → AgentValue → AgentMessage
  config : (key : String) → AgentValue → AgentMessage
  configs : AgentConfigs → AgentMessage
  stop : AgentMessage

-- A value that an agent puts out on one of its ports.
pub record Output : Type 0 where
  pub ctx : AgentContext
  pub port : String
  pub value : AgentValue

-- The hooks of an agent outside this crate, over a number that stands for its private state. They
-- change the specification and that state, and put values out; they change nothing else of the runtime.
pub record Custom : Type 0 where
  pub state : ℕ
  pub on_start : ℕ → AgentSpec → Result (Unit {0}) × ℕ × AgentSpec
  pub on_stop : ℕ → AgentSpec → Result (Unit {0}) × ℕ × AgentSpec
  pub on_configs_changed : ℕ → AgentSpec → Result (Unit {0}) × ℕ × AgentSpec
  -- with what it puts out
  pub on_process :
      ℕ
      → AgentSpec
      → AgentContext
      → String
      → AgentValue
      → (Result (Unit {0}) × ℕ × AgentSpec) × List Output

pub data Behaviour : Type 0 where
  external_output : (channel_name : Option String) → Behaviour
  external_input : (channel_name : Option String) → Behaviour
  local_output : (var_name : Option String) → Behaviour
  local_input : (var_name : Option String) → Behaviour
  custom : Custom → Behaviour

-- `AgentData`, with what the agent's own type adds.
pub record Agent : Type 0 where
  pub id : String
  pub spec : AgentSpec
  pub preset_id : String
  pub status : AgentStatus
  pub behaviour : Behaviour

pub record AgentDefinition : Type 0 where
  pub kind : String
  pub name : String
  pub title : Option String
  pub hide_title : Bool
  pub description : Option String
  pub category : Option String
  pub inputs : Option (List String)
  pub outputs : Option (List String)
  pub configs : Option AgentConfigSpecs
  pub global_configs : Option AgentConfigSpecs
  pub hints : IndexMap Json
  pub native_thread : Bool
  pub new_boxed : Option (String → AgentSpec → Result Agent)

abbrev pub AgentDefinitions : Type 0
AgentDefinitions = IndexMap AgentDefinition

-- The keys that begin with `_` do not stay.
pub strip_stale : Option AgentConfigs → Option AgentConfigs
strip_stale none = none
strip_stale (some c) = some (IndexMap.retain_entries (λ key _. not (starts_with key "_")) c)

-- AgentData::new, and the type's own field.
unfoldable pub agent_data_new : String → AgentSpec → Behaviour → Agent
unfolding strip_stale
agent_data_new id spec behaviour = record {
  id = id;
  spec = record spec { configs = strip_stale spec.configs };
  preset_id = "";
  status = init;
  behaviour = behaviour;
}
