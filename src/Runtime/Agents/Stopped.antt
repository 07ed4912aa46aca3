-- ===== src/Runtime/Agents/Stopped.antt =====
-- `Agent::stop` of agent.rs leaves no agent that is started, whether its hook succeeds or fails.
use modular_agent_core.Prelude.{◌≡◌, refl, Bool, true, false}
use modular_agent_core.Error.{Result, ok, err}
use modular_agent_core.Agent.{
  Agent, AgentStatus, start, stop, Behaviour, external_output, external_input, local_output,
  local_input, custom,
}
use modular_agent_core.Runtime.Agents.{Channels, after_hook, stop_hook, finish_stop, agent_stop}

abbrev pub is_stopped : AgentStatus → Bool
is_stopped start = false
is_stopped _ = true

finish_stop-stopped :
    (r : Result (Unit {0})) (agent : Agent) (m : Channels)
    → is_stopped agent.status ≡ true
    → is_stopped (finish_stop (r, agent, m)).1.status ≡ true
unfolding finish_stop
finish_stop-stopped (ok u) agent m h = refl
finish_stop-stopped (err e) agent m h = h

stop_hook-stopped :
    (b : Behaviour) (agent : Agent) (m : Channels)
    → is_stopped agent.status ≡ true
    → is_stopped (finish_stop (stop_hook b agent m)).1.status ≡ true
unfolding stop_hook after_hook
stop_hook-stopped (external_output name) agent m h = finish_stop-stopped _ agent _ h
stop_hook-stopped (external_input name) agent m h = finish_stop-stopped _ agent _ h
stop_hook-stopped (local_output name) agent m h = finish_stop-stopped _ agent _ h
stop_hook-stopped (local_input name) agent m h = finish_stop-stopped _ agent _ h
stop_hook-stopped (custom c) agent m h =
    let (r, state, spec) = c.on_stop c.state agent.spec in
    finish_stop-stopped r
      (record agent { spec = spec; behaviour = custom (record c { state = state }) }) m h

pub agent_stop-stopped :
    (agent : Agent) (m : Channels) → is_stopped (agent_stop agent m).1.status ≡ true
unfolding agent_stop
agent_stop-stopped agent m =
    stop_hook-stopped agent.behaviour (record agent { status = stop }) m refl
