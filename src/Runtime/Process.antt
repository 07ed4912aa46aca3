-- ===== src/Runtime/Process.antt =====
-- `Agent::process` of agent.rs with the `process` of external_agent.rs: what an agent does with a value.
pub mod Frame
use modular_agent_core.Prelude.{
  String, Bool, Option, none, some, List, [], ◌∷◌, ◌==◌, if◌then◌else◌,
}
use modular_agent_core.Error.{AgentError, Result, ok, err, display}
use modular_agent_core.Value.{AgentValue}
use modular_agent_core.Context.{AgentContext}
use modular_agent_core.Spec.{AgentSpec}
use modular_agent_core.Agent.{
  Agent, Custom, Behaviour, Output, external_output, external_input, local_output, local_input,
  custom,
}
use modular_agent_core.Runtime.{ModularAgent, agent_error, emit}
use modular_agent_core.Runtime.Exec.{Action, log_error, ◌>>=◌}
use modular_agent_core.Runtime.Channels.{channel_name_for_local}
use modular_agent_core.Runtime.Lifecycle.{put_agent, find_agent}
use modular_agent_core.Runtime.Routing.{send_agent_out, send_external_output}

-- `unwrap_or_default`
or_empty : Option String → String
or_empty none = ""
or_empty (some s) = s

-- An agent without a channel name drops the value.
forward : String → String → AgentContext → AgentValue → Action (Unit {0})
forward name channel ctx value ma =
    if name == "" then (ok tt, ma) else send_external_output channel ctx value ma

-- A failure to send is the agent's affair; it is dropped here.
send_all : String → List Output → ModularAgent → ModularAgent
send_all agent_id [] ma = ma
send_all agent_id (out ∷ outs) ma =
    send_all agent_id outs (log_error (send_agent_out agent_id out.ctx out.port out.value ma))

store_custom :
    Agent
    → Custom
    → (Result (Unit {0}) × Prim.Native.Nat.ℕ × AgentSpec) × List Output
    → Action (Unit {0})
unfolding send_all
store_custom agent c ((r, state, spec), outs) ma = (
  r,
  send_all agent.id outs (
      put_agent agent.id
        (record agent { spec = spec; behaviour = custom (record c { state = state }) }) ma),
)

-- `AsAgent::process` of the agent's type. The listening agents have the empty default.
process_hook : Behaviour → Agent → AgentContext → String → AgentValue → Action (Unit {0})
unfolding or_empty forward store_custom
process_hook (external_output name) agent ctx port value ma =
    forward (or_empty name) (or_empty name) ctx value ma
process_hook (local_output name) agent ctx port value ma =
    forward (or_empty name) (channel_name_for_local agent.preset_id (or_empty name)) ctx value ma
process_hook (external_input name) agent ctx port value ma = (ok tt, ma)
process_hook (local_input name) agent ctx port value ma = (ok tt, ma)
process_hook (custom c) agent ctx port value ma =
    store_custom agent c (c.on_process c.state agent.spec ctx port value) ma

-- An error is announced, and put out on the port `err`.
report_failure :
    String → AgentContext → Result (Unit {0}) × ModularAgent → Result (Unit {0}) × ModularAgent
report_failure id ctx (ok u, ma) = (ok u, ma)
report_failure id ctx (err e, ma) = (
  err e,
  log_error
      (send_agent_out id ctx "err" (AgentValue.error e) (emit (agent_error id (display e)) ma)),
)

unfoldable pub process : String → AgentContext → String → AgentValue → Action (Unit {0})
unfolding process_hook report_failure
process id ctx port value = do
  agent ← find_agent id
  λ ma. report_failure agent.id ctx (process_hook agent.behaviour agent ctx port value ma)
