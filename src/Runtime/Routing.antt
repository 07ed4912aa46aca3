-- ===== src/Runtime/Routing.antt =====
-- message.rs and the message loop of modular_agent.rs: what an agent puts out goes to the agents that
-- its connections name, and what is written to a named channel to those that listen to it.
pub mod Delivery
pub mod Frame
use Prim.Native.String.{◌++◌ as append, len, slice}
use text.Mathlib.Text.{starts_with, when}
use modular_agent_core.Prelude.{
  ℕ, String, Bool, true, false, not, ◌&&◌, Option, none, some, List, [], ◌∷◌, ◌++◌, ◌==◌, length,
  get_elem?, set_elem, ltb, if◌then◌else◌,
}
use modular_agent_core.IndexMap
use modular_agent_core.IndexMap.{IndexMap}
use modular_agent_core.Error.{
  AgentError, agent_not_found, send_message_failed, tx_not_initialized, Result, ok, err,
}
use modular_agent_core.Value.{AgentValue}
use modular_agent_core.Context
use modular_agent_core.Context.{AgentContext}
use modular_agent_core.Agent.{AgentMessage}
use modular_agent_core.Network.{ConnectionTarget, targets_of}
use modular_agent_core.Runtime.{
  ModularAgent, AgentEventMessage, agent_out_message, external_output_message, agent_in,
  external_output_event, emit,
}
use modular_agent_core.Runtime.Exec.{
  Action, pure, fail, lift, gets, require, modify, announce, log_error, ◌>>=◌, ◌>>◌,
}
use modular_agent_core.Runtime.Channels.{send, channel_name_for_local}
use modular_agent_core.Runtime.Agents.{set_config}
use modular_agent_core.Runtime.Lifecycle.{find_agent, store}

abbrev pub config_prefix : String
config_prefix = "config:"

-- `s.strip_prefix(prefix)`
unfoldable pub strip_prefix : String → String → Option String
strip_prefix prefix s = when (starts_with s prefix) (slice s (len prefix) (len s))

pub message_on : Option String → AgentContext → String → AgentValue → AgentMessage
message_on (some key) ctx port value = AgentMessage.config key value
message_on none ctx port value = AgentMessage.input ctx port value

-- The message for a port: a config if the port's name begins with `config:`.
unfoldable pub message_for : AgentContext → String → AgentValue → AgentMessage
unfolding message_on strip_prefix
message_for ctx port value = message_on (strip_prefix config_prefix port) ctx port value

-- The agent is not running: a config is set directly, any other input is dropped.
pub apply_message : AgentMessage → String → Action (Unit {0})
apply_message (AgentMessage.config key value) agent_id = do
  agent ← find_agent agent_id
  λ ma. store agent_id (set_config key value agent ma.external_input_agents) ma
apply_message _ agent_id = do agent ← find_agent agent_id; pure tt

pub hand_over : ℕ → AgentMessage → Action (Unit {0})
hand_over n message ma =
    let (sent, channels) = send n message ma.channels in
    (
      if sent then ok tt else err (send_message_failed "Failed to send input message"),
      record ma { channels = channels },
    )

pub deliver : Option ℕ → String → String → AgentMessage → Action (Unit {0})
unfolding apply_message hand_over
deliver none agent_id port message = apply_message message agent_id
deliver (some n) agent_id port message = do hand_over n message; announce (agent_in agent_id port)

unfoldable pub agent_input : String → AgentContext → String → AgentValue → Action (Unit {0})
unfolding deliver message_for
agent_input agent_id ctx port value ma =
    deliver (IndexMap.get ma.agent_txs agent_id) agent_id port (message_for ctx port value) ma

-- message.rs: agent_out. A failure at one target is logged.
pub route : List ConnectionTarget → AgentContext → String → AgentValue → ModularAgent → ModularAgent
route [] ctx port value ma = ma
route ((target, source_port, target_port) ∷ targets) ctx port value ma =
    let reached = source_port == port && IndexMap.contains_key ma.agents target in
    route targets ctx port value
      (if reached then (agent_input target ctx target_port value ma).1 else ma)

unfoldable pub agent_out : String → AgentContext → String → AgentValue → ModularAgent → ModularAgent
unfolding route
agent_out source_agent ctx port value ma =
    route (targets_of ma.connections source_agent) ctx port value ma

-- The targets of a listening agent, whatever the source port.
pub fan_out : List ConnectionTarget → AgentContext → AgentValue → ModularAgent → ModularAgent
fan_out [] ctx value ma = ma
fan_out ((target, source_port, target_port) ∷ targets) ctx value ma =
    fan_out targets ctx value (agent_input target ctx target_port value ma).1

pub to_nodes : List String → AgentContext → AgentValue → ModularAgent → ModularAgent
unfolding fan_out
to_nodes [] ctx value ma = ma
to_nodes (node ∷ nodes) ctx value ma =
    to_nodes nodes ctx value (fan_out (targets_of ma.connections node) ctx value ma)

pub nodes_of : Option (List String) → List String
nodes_of none = []
nodes_of (some nodes) = nodes

-- message.rs: external_input
unfoldable pub external_input : String → AgentContext → AgentValue → ModularAgent → ModularAgent
unfolding to_nodes nodes_of
external_input name ctx value ma =
    let ma' = record ma { external_values = IndexMap.insert ma.external_values name value } in
    emit (external_output_event name value)
      (to_nodes (nodes_of (IndexMap.get ma.external_input_agents name)) ctx value ma')

abbrev pub event_limit : ℕ
event_limit = 4096

-- The message loop takes the oldest message.
pub handle : AgentEventMessage → ModularAgent → ModularAgent
handle (agent_out_message agent ctx port value) ma = agent_out agent ctx port value ma
handle (external_output_message name ctx value) ma = external_input name ctx value ma

pub take_from : Option (List AgentEventMessage) → ℕ → ModularAgent → ModularAgent
unfolding handle
take_from (some (message ∷ rest)) n ma =
    handle message (record ma { event_queues = set_elem ma.event_queues n rest })
take_from _ n ma = ma

-- The `n`-th message loop, which goes on with what waits after `tx` was dropped.
unfoldable pub loop_step : ℕ → ModularAgent → ModularAgent
unfolding take_from
loop_step n ma = take_from (get_elem? ma.event_queues n) n ma

waiting : List (List AgentEventMessage) → ℕ → List AgentEventMessage
waiting queues n = elim (get_elem? queues n) [ none ↦ [] | some queue ↦ queue ]

pub push_event : ℕ → AgentEventMessage → ModularAgent → ModularAgent
unfolding waiting
push_event n message ma = record ma {
  event_queues = set_elem ma.event_queues n (waiting ma.event_queues n ++ message ∷ []);
}

-- `tx.send(message).await`, which waits while the channel is full; the model appends at once.
pub queue_event : Option ℕ → AgentEventMessage → Action (Unit {0})
unfolding push_event
queue_event none message ma = (err tx_not_initialized, ma)
queue_event (some n) message ma = (ok tt, push_event n message ma)

pub try_queue_event : Option ℕ → AgentEventMessage → Action (Unit {0})
unfolding push_event waiting
try_queue_event none message ma = (err tx_not_initialized, ma)
try_queue_event (some n) message ma =
    if ltb (length (waiting ma.event_queues n)) event_limit
    then (ok tt, push_event n message ma)
    else (err (send_message_failed "Failed to try_send AgentOut message"), ma)

unfoldable pub send_agent_out : String → AgentContext → String → AgentValue → Action (Unit {0})
unfolding queue_event
send_agent_out agent ctx port value ma =
    queue_event ma.tx (agent_out_message agent ctx port value) ma

unfoldable pub try_send_agent_out : String → AgentContext → String → AgentValue → Action (Unit {0})
unfolding try_queue_event
try_send_agent_out agent ctx port value ma =
    try_queue_event ma.tx (agent_out_message agent ctx port value) ma

unfoldable pub send_external_output : String → AgentContext → AgentValue → Action (Unit {0})
unfolding queue_event
send_external_output name ctx value ma =
    queue_event ma.tx (external_output_message name ctx value) ma

pub new_context : Action AgentContext
new_context ma =
    let (ctx, counter) = Context.new ma.context_counter in
    (ok ctx, record ma { context_counter = counter })

unfoldable pub write_external_input : String → AgentValue → Action (Unit {0})
unfolding new_context
write_external_input name value = do ctx ← new_context; send_external_output name ctx value

unfoldable pub write_local_input : String → String → AgentValue → Action (Unit {0})
write_local_input preset_id name value =
    write_external_input (channel_name_for_local preset_id name) value

-- spawn_message_loop and quit
unfoldable pub ready : ModularAgent → ModularAgent
ready ma = record ma {
  tx = some (length ma.event_queues);
  event_queues = ma.event_queues ++ [] ∷ [];
}

unfoldable pub quit : ModularAgent → ModularAgent
quit ma = record ma { tx = none }
