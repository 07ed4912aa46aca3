-- ===== src/Runtime/Agents.antt =====
-- The methods of `Agent` in agent.rs, and the agents of external_agent.rs. A method works on the agent
-- and on the table of named channels, and returns both.
pub mod Listeners
pub mod Stopped
use modular_agent_core.Prelude.{
  String, Bool, true, false, Option, none, some, List, ◌==◌, if◌then◌else◌,
}
use modular_agent_core.IndexMap
use modular_agent_core.IndexMap.{IndexMap}
use modular_agent_core.Error.{no_config, Result, ok, err}
use modular_agent_core.Value.{AgentValue}
use modular_agent_core.Spec.{AgentConfigs, AgentSpec, get_string}
use modular_agent_core.Agent.{
  Agent, AgentStatus, init, start, stop, Custom, Behaviour, external_output, external_input,
  local_output, local_input, custom, agent_data_new,
}
use modular_agent_core.Runtime.Channels.{channel_name_for_local, register, unregister}

abbrev pub config_name : String
config_name = "name"

abbrev pub Channels : Type 0
Channels = IndexMap (List String)

abbrev ok_value : Result String → Option String
ok_value (ok s) = some s
ok_value (err e) = none

name_config : Option AgentConfigs → Option String
name_config none = none
name_config (some c) = ok_value (get_string c config_name)

-- The four `new`s.
unfoldable pub new_external : (Option String → Behaviour) → String → AgentSpec → Result Agent
unfolding name_config
new_external behaviour id spec = ok (agent_data_new id spec (behaviour (name_config spec.configs)))

-- The channel that a listening agent is registered under.
unfoldable pub listens_to : Agent → Option String
listens_to agent = elim agent.behaviour [
  | external_input name ↦ name
  | local_input (some name) ↦ some (channel_name_for_local agent.preset_id name)
  | _ ↦ none
]

join : Option String → String → Channels → Channels
join none id m = m
join (some channel) id m = register channel id m

leave : Option String → String → Channels → Channels
leave none id m = m
leave (some channel) id m = unregister channel id m

abbrev Outcome : Type 0
Outcome = Result (Unit {0}) × Agent × Channels

after_hook : Agent → Custom → Channels → Result (Unit {0}) × Prim.Native.Nat.ℕ × AgentSpec → Outcome
after_hook agent c m (r, state, spec) =
    (r, record agent { spec = spec; behaviour = custom (record c { state = state }) }, m)

-- `AsAgent::start` of the agent's type.
start_hook : Behaviour → Agent → Channels → Outcome
unfolding join listens_to after_hook
start_hook (custom c) agent m = after_hook agent c m (c.on_start c.state agent.spec)
start_hook _ agent m = (ok tt, agent, join (listens_to agent) agent.id m)

stop_hook : Behaviour → Agent → Channels → Outcome
unfolding leave listens_to after_hook
stop_hook (custom c) agent m = after_hook agent c m (c.on_stop c.state agent.spec)
stop_hook _ agent m = (ok tt, agent, leave (listens_to agent) agent.id m)

-- Agent::start: the status is set first, and stays on an error.
unfoldable pub agent_start : Agent → Channels → Outcome
unfolding start_hook
agent_start agent m = start_hook agent.behaviour (record agent { status = start }) m

finish_stop : Outcome → Outcome
finish_stop (ok u, agent, m) = (ok u, record agent { status = init }, m)
finish_stop (err e, agent, m) = (err e, agent, m)

-- Agent::stop: on an error the status stays `Stop`.
unfoldable pub agent_stop : Agent → Channels → Outcome
unfolding stop_hook finish_stop
agent_stop agent m = finish_stop (stop_hook agent.behaviour (record agent { status = stop }) m)

same_name : Option String → Option String → Bool
same_name none none = true
same_name (some a) (some b) = a == b
same_name _ _ = false

is_started : AgentStatus → Bool
is_started start = true
is_started _ = false

-- The registration follows a new name only while the agent runs.
repoint :
    Agent
    → Option String
    → (Option String → Behaviour)
    → Option String
    → Channels
    → Agent × Channels
unfolding same_name is_started join leave listens_to
repoint agent old behaviour name m =
    let renamed = record agent { behaviour = behaviour name } in
    let moved = join (listens_to renamed) agent.id (leave (listens_to agent) agent.id m) in
    if same_name old name
    then (agent, m)
    else (renamed, if is_started agent.status then moved else m)

changed : Behaviour → AgentConfigs → Agent → Channels → Outcome
unfolding repoint after_hook
changed (external_output _) c agent m =
    (ok tt, record agent { behaviour = external_output (ok_value (get_string c config_name)) }, m)
changed (local_output _) c agent m =
    (ok tt, record agent { behaviour = local_output (ok_value (get_string c config_name)) }, m)
changed (external_input old) c agent m =
    let (agent', m') = repoint agent old external_input (ok_value (get_string c config_name)) m in
    (ok tt, agent', m')
changed (local_input old) c agent m =
    let (agent', m') = repoint agent old local_input (ok_value (get_string c config_name)) m in
    (ok tt, agent', m')
changed (custom h) c agent m = after_hook agent h m (h.on_configs_changed h.state agent.spec)

-- `configs_changed`. The agents of external_agent.rs ask for their configs first.
changed_if : Option AgentConfigs → Behaviour → Agent → Channels → Outcome
unfolding changed
changed_if (some c) b agent m = changed b c agent m
changed_if none (custom h) agent m = after_hook agent h m (h.on_configs_changed h.state agent.spec)
changed_if none b agent m = (err no_config, agent, m)

unfoldable pub configs_changed : Agent → Channels → Outcome
unfolding changed_if after_hook
configs_changed agent m = changed_if agent.spec.configs agent.behaviour agent m

set_in : Option AgentConfigs → String → AgentValue → Agent → Channels → Outcome
set_in none key value agent m = (ok tt, agent, m)
set_in (some c) key value agent m =
    configs_changed
      (record agent { spec = record agent.spec { configs = some (IndexMap.insert c key value) } }) m

unfoldable pub set_config : String → AgentValue → Agent → Channels → Outcome
unfolding set_in
set_config key value agent m = set_in agent.spec.configs key value agent m

unfoldable pub set_configs : AgentConfigs → Agent → Channels → Outcome
set_configs c agent m =
    configs_changed (record agent { spec = record agent.spec { configs = some c } }) m
