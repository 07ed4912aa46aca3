-- ===== src/Runtime/Routing/Frame.antt =====
-- The routing of messages leaves the presets and the routing table alone.
use modular_agent_core.Prelude.{ℕ, String, ◌≡◌, refl, ◌∙◌, Option, none, some, List, [], ◌∷◌, arith}
use modular_agent_core.IndexMap
use modular_agent_core.Value.{AgentValue}
use modular_agent_core.Context.{AgentContext}
use modular_agent_core.Agent.{AgentMessage, input, config}
use modular_agent_core.Network.{ConnectionTarget, targets_of}
use modular_agent_core.Runtime.{
  ModularAgent, AgentEventMessage, agent_out_message, external_output_message, emit,
}
use modular_agent_core.Runtime.Exec.{◌>>=◌}
use modular_agent_core.Runtime.Exec.Keeps.{Keeps}
use modular_agent_core.Runtime.Lifecycle.{put_agent}
use modular_agent_core.Runtime.Lifecycle.Frame.{tables}
use modular_agent_core.Runtime.Routing.{
  apply_message, hand_over, deliver, agent_input, route, agent_out, fan_out, to_nodes, nodes_of,
  external_input, handle, take_from, loop_step, push_event, queue_event, try_queue_event,
  send_agent_out, try_send_agent_out, send_external_output, new_context, write_external_input,
}

apply_message-Keeps :
    (message : AgentMessage) (id : String) → Keeps tables (apply_message message id)
unfolding apply_message ◌>>=◌ put_agent
apply_message-Keeps (config key value) id = record { at = λ ma. ground arith }
apply_message-Keeps (input ctx port value) id = record { at = λ ma. ground arith }
apply_message-Keeps (AgentMessage.configs c) id = record { at = λ ma. ground arith }
apply_message-Keeps AgentMessage.stop id = record { at = λ ma. ground arith }

deliver-Keeps :
    (tx : Option ℕ) (id port : String) (message : AgentMessage)
    → Keeps tables (deliver tx id port message)
unfolding deliver hand_over ◌>>=◌ emit
deliver-Keeps none id port message = apply_message-Keeps message id
deliver-Keeps (some n) id port message = record { at = λ ma. ground arith }

agent_input-Keeps :
    (id : String) (ctx : AgentContext) (port : String) (value : AgentValue)
    → Keeps tables (agent_input id ctx port value)
unfolding agent_input
agent_input-Keeps id ctx port value = record { at = λ ma. (deliver-Keeps _ id port _).at ma }

tables-route :
    (targets : List ConnectionTarget) (ctx : AgentContext) (port : String) (value : AgentValue)
    (ma : ModularAgent)
    → tables (route targets ctx port value ma) ≡ tables ma
unfolding route
tables-route [] ctx port value ma = refl
tables-route ((target, source_port, target_port) ∷ targets) ctx port value ma =
    tables-route targets ctx port value _
    ∙ ground (arith, (agent_input-Keeps target ctx target_port value).at ma)

tables-fan_out :
    (targets : List ConnectionTarget) (ctx : AgentContext) (value : AgentValue) (ma : ModularAgent)
    → tables (fan_out targets ctx value ma) ≡ tables ma
unfolding fan_out
tables-fan_out [] ctx value ma = refl
tables-fan_out ((target, source_port, target_port) ∷ targets) ctx value ma =
    tables-fan_out targets ctx value _ ∙ (agent_input-Keeps target ctx target_port value).at ma

tables-to_nodes :
    (nodes : List String) (ctx : AgentContext) (value : AgentValue) (ma : ModularAgent)
    → tables (to_nodes nodes ctx value ma) ≡ tables ma
unfolding to_nodes
tables-to_nodes [] ctx value ma = refl
tables-to_nodes (node ∷ nodes) ctx value ma =
    tables-to_nodes nodes ctx value _ ∙ tables-fan_out (targets_of ma.connections node) ctx value ma

tables-handle :
    (message : AgentEventMessage) (ma : ModularAgent) → tables (handle message ma) ≡ tables ma
unfolding handle agent_out external_input emit
tables-handle (agent_out_message agent ctx port value) ma =
    tables-route (targets_of ma.connections agent) ctx port value ma
tables-handle (external_output_message name ctx value) ma =
    tables-to_nodes (nodes_of (IndexMap.get ma.external_input_agents name)) ctx value _

tables-take_from :
    (queue : Option (List AgentEventMessage)) (n : ℕ) (ma : ModularAgent)
    → tables (take_from queue n ma) ≡ tables ma
unfolding take_from
tables-take_from none n ma = refl
tables-take_from (some []) n ma = refl
tables-take_from (some (message ∷ rest)) n ma = tables-handle message _

pub tables-loop_step : (n : ℕ) (ma : ModularAgent) → tables (loop_step n ma) ≡ tables ma
unfolding loop_step
tables-loop_step n ma = tables-take_from _ n ma

pub send_agent_out-Keeps :
    (agent : String) (ctx : AgentContext) (port : String) (value : AgentValue)
    → Keeps tables (send_agent_out agent ctx port value)
unfolding send_agent_out queue_event push_event
send_agent_out-Keeps agent ctx port value = record { at = λ ma. ground arith }

pub try_send_agent_out-Keeps :
    (agent : String) (ctx : AgentContext) (port : String) (value : AgentValue)
    → Keeps tables (try_send_agent_out agent ctx port value)
unfolding try_send_agent_out try_queue_event push_event
try_send_agent_out-Keeps agent ctx port value = record { at = λ ma. ground arith }

pub send_external_output-Keeps :
    (name : String) (ctx : AgentContext) (value : AgentValue)
    → Keeps tables (send_external_output name ctx value)
unfolding send_external_output queue_event push_event
send_external_output-Keeps name ctx value = record { at = λ ma. ground arith }

pub write_external_input-Keeps :
    (name : String) (value : AgentValue) → Keeps tables (write_external_input name value)
unfolding write_external_input ◌>>=◌ new_context send_external_output queue_event push_event
write_external_input-Keeps name value = record { at = λ ma. ground arith }
