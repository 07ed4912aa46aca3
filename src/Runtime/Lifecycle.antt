-- ===== src/Runtime/Lifecycle.antt =====
-- The operations of modular_agent.rs on one agent: it is added, started, stopped, configured and
-- removed. Preset ids and agent ids are checked by the callers.
pub mod Frame
pub mod Closing
pub mod Removing
mod Tests
pub mod Configs
use modular_agent_core.Prelude.{
  ℕ, zero, suc, String, Bool, true, false, not, Option, none, some, List, [], ◌∷◌, ◌++◌, length,
  if◌then◌else◌,
}
use modular_agent_core.IndexMap
use modular_agent_core.IndexMap.{IndexMap}
use modular_agent_core.Error.{
  AgentError, agent_already_exists, agent_not_found, agent_definition_not_found,
  send_message_failed, Result, ok, err, display,
}
use modular_agent_core.Value.{AgentValue}
use modular_agent_core.Spec.{AgentConfigs, AgentSpec}
use modular_agent_core.Network.{remove_agent_edges}
use modular_agent_core.Agent.{Agent, AgentStatus, init, start, stop, AgentMessage, AgentDefinition}
use modular_agent_core.Definition.{agent_new}
use modular_agent_core.Runtime.{
  ModularAgent, AgentLoop, Channel, agent_config_updated, agent_error, emit,
}
use modular_agent_core.Runtime.Exec.{Action, pure, fail, lift, gets, find, modify, ◌>>=◌, ◌>>◌}
use modular_agent_core.Runtime.Tokens.{create_agent_token, take_agent_token}
use modular_agent_core.Runtime.Channels.{try_send, send}
use modular_agent_core.Runtime.Agents
use modular_agent_core.Runtime.Agents.{Channels, agent_start, agent_stop, set_configs}

unfoldable pub put_agent : String → Agent → ModularAgent → ModularAgent
put_agent id agent ma = record ma { agents = IndexMap.insert ma.agents id agent }

-- The agent under an id, or `AgentNotFound`.
abbrev pub find_agent : String → Action Agent
find_agent id = find (λ ma. IndexMap.get ma.agents id) (agent_not_found id)

-- A method of the agent under the id is run, and what it leaves is stored.
abbrev pub store : String → Result (Unit {0}) × Agent × Channels → Action (Unit {0})
store id (r, agent, m) ma = (r, put_agent id agent (record ma { external_input_agents = m }))

-- add_agent_internal
unfoldable pub add_agent_internal : String → AgentSpec → Action AgentSpec
unfolding put_agent
add_agent_internal preset_id spec ma =
    if IndexMap.contains_key ma.agents spec.id
    then (err (agent_already_exists spec.id), ma)
    else (do
      agent ← lift (agent_new ma.defs spec.id spec)
      modify (put_agent spec.id (record agent { preset_id = preset_id }))
      pure agent.spec)
        ma

is_init : AgentStatus → Bool
is_init init = true
is_init _ = false

is_started : AgentStatus → Bool
is_started start = true
is_started _ = false

-- The channel, the token and the task of a new loop.
spawn : String → Agent → AgentDefinition → ModularAgent → ModularAgent
spawn agent_id agent def ma =
    let channel = length ma.channels in
    let opened = record ma {
      channels = ma.channels ++ record { queue = []; closed = false } ∷ [];
      agent_txs = IndexMap.insert ma.agent_txs agent_id channel;
    } in
    let ((generation, token), ma') = create_agent_token agent.preset_id agent_id opened in
    record ma' {
      loops =
          ma'.loops
          ++ record {
            agent_id = agent_id;
            preset_id = agent.preset_id;
            generation = generation;
            token = token;
            native_thread = def.native_thread;
            channel = channel;
          }
            ∷ [];
    }

-- The part of `start_agent` that the caller runs; the loop is spawned and runs on its own.
unfoldable pub start_agent : String → Action (Unit {0})
unfolding is_init spawn
start_agent agent_id = do
  agent ← find_agent agent_id
  def ← find (λ ma. IndexMap.get ma.defs agent.spec.def_name) (agent_definition_not_found agent_id)
  modify (λ ma. if is_init agent.status then spawn agent_id agent def ma else ma)

-- The sender is taken out and `Stop` is sent; a failure to send is only logged.
close_sender : String → ModularAgent → ModularAgent
close_sender agent_id ma =
    let left = record ma { agent_txs = IndexMap.swap_remove ma.agent_txs agent_id } in
    elim (IndexMap.get ma.agent_txs agent_id) [
      | none ↦ left
      | some n ↦ record left { channels = (try_send n AgentMessage.stop ma.channels).1 }
    ]

stop_if_started : String → Agent → Action (Unit {0})
unfolding is_started
stop_if_started agent_id agent ma =
    if is_started agent.status
    then store agent_id (agent_stop agent ma.external_input_agents) ma
    else (ok tt, ma)

unfoldable pub stop_agent : String → Action (Unit {0})
unfolding close_sender stop_if_started
stop_agent agent_id = do
  modify (close_sender agent_id)
  modify (take_agent_token agent_id)
  agent ← find_agent agent_id
  stop_if_started agent_id agent

unfoldable pub remove_agent_internal : String → Action (Unit {0})
remove_agent_internal agent_id = do
  stop_agent agent_id
  modify (λ ma. record ma { connections = remove_agent_edges agent_id ma.connections })
  modify (λ ma. record ma { agents = IndexMap.swap_remove ma.agents agent_id })

pub report : String → Result (Unit {0}) → ModularAgent → ModularAgent
report agent_id (ok u) ma = ma
report agent_id (err e) ma = emit (agent_error agent_id (display e)) ma

-- The start of the spawned loop, when its token was not fired: `Agent::start` with its report.
unfoldable pub run_start : String → Action (Unit {0})
unfolding report
run_start agent_id = do
  agent ← find_agent agent_id
  λ ma.
      let (r, agent', m) = agent_start agent ma.external_input_agents in
      (r, report agent_id r (put_agent agent_id agent' (record ma { external_input_agents = m })))

pub announce_configs : String → List (String × AgentValue) → ModularAgent → ModularAgent
announce_configs agent_id [] ma = ma
announce_configs agent_id ((key, v) ∷ rest) ma =
    announce_configs agent_id rest (emit (agent_config_updated agent_id key v) ma)

pub set_directly : String → AgentConfigs → Action (Unit {0})
set_directly agent_id c = do
  agent ← find_agent agent_id
  λ ma. store agent_id (set_configs c agent ma.external_input_agents) ma

pub send_configs : ℕ → AgentConfigs → Action (Unit {0})
send_configs n c ma =
    let (sent, channels) = send n (AgentMessage.configs c) ma.channels in
    (
      if sent then ok tt else err (send_message_failed "Failed to send config message"),
      record ma { channels = channels },
    )

unfoldable pub set_agent_configs : String → AgentConfigs → Action (Unit {0})
unfolding announce_configs set_directly send_configs
set_agent_configs agent_id c = do
  tx ← gets (λ ma. IndexMap.get ma.agent_txs agent_id)
  elim tx [ none ↦ set_directly agent_id c | some n ↦ send_configs n c ]
  modify (announce_configs agent_id c.entries)
