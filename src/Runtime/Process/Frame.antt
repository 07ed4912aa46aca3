-- ===== src/Runtime/Process/Frame.antt =====
-- What an agent does with a value leaves the presets and the routing table alone.
use modular_agent_core.Prelude.{ℕ, String, ◌≡◌, refl, ◌∙◌, List, [], ◌∷◌, arith}
use modular_agent_core.Error.{Result, ok, err, display}
use modular_agent_core.Value.{AgentValue}
use modular_agent_core.Context.{AgentContext}
use modular_agent_core.Spec.{AgentSpec}
use modular_agent_core.Agent.{
  Agent, Custom, Behaviour, Output, external_output, external_input, local_output, local_input,
  custom,
}
use modular_agent_core.Runtime.{ModularAgent, agent_error, emit}
use modular_agent_core.Runtime.Exec.Keeps.{Keeps, Keeps-bind, Keeps-find}
use modular_agent_core.Runtime.Lifecycle.{put_agent}
use modular_agent_core.Runtime.Lifecycle.Frame.{tables}
use modular_agent_core.Runtime.Channels.{channel_name_for_local}
use modular_agent_core.Runtime.Routing.Frame.{send_agent_out-Keeps, send_external_output-Keeps}
use modular_agent_core.Runtime.Process.{
  or_empty, forward, send_all, store_custom, process_hook, report_failure, process,
}

forward-Keeps :
    (name channel : String) (ctx : AgentContext) (value : AgentValue)
    → Keeps tables (forward name channel ctx value)
unfolding forward
forward-Keeps name channel ctx value = record {
  at = λ ma. ground (arith, (send_external_output-Keeps channel ctx value).at ma);
}

tables-send_all :
    (id : String) (outs : List Output) (ma : ModularAgent)
    → tables (send_all id outs ma) ≡ tables ma
unfolding send_all
tables-send_all id [] ma = refl
tables-send_all id (out ∷ outs) ma =
    tables-send_all id outs _ ∙ (send_agent_out-Keeps id out.ctx out.port out.value).at ma

store_custom-Keeps :
    (agent : Agent) (c : Custom) (left : (Result (Unit {0}) × ℕ × AgentSpec) × List Output)
    → Keeps tables (store_custom agent c left)
unfolding store_custom put_agent
store_custom-Keeps agent c ((r, state, spec), outs) = record {
  at = λ ma. tables-send_all agent.id outs (
      put_agent agent.id
        (record agent { spec = spec; behaviour = custom (record c { state = state }) }) ma);
}

process_hook-Keeps :
    (b : Behaviour) (agent : Agent) (ctx : AgentContext) (port : String) (value : AgentValue)
    → Keeps tables (process_hook b agent ctx port value)
unfolding process_hook
process_hook-Keeps (external_output name) agent ctx port value = record {
  at = λ ma. (forward-Keeps (or_empty name) (or_empty name) ctx value).at ma;
}
process_hook-Keeps (local_output name) agent ctx port value = record {
  at = λ ma.
      (forward-Keeps (or_empty name) (channel_name_for_local agent.preset_id (or_empty name)) ctx
          value).at
        ma;
}
process_hook-Keeps (external_input name) agent ctx port value = record { at = λ ma. refl }
process_hook-Keeps (local_input name) agent ctx port value = record { at = λ ma. refl }
process_hook-Keeps (custom c) agent ctx port value = record {
  at = λ ma. (store_custom-Keeps agent c (c.on_process c.state agent.spec ctx port value)).at ma;
}

tables-report_failure :
    (id : String) (ctx : AgentContext) (r : Result (Unit {0})) (ma : ModularAgent)
    → tables (report_failure id ctx (r, ma)).1 ≡ tables ma
unfolding report_failure emit
tables-report_failure id ctx (ok u) ma = refl
tables-report_failure id ctx (err e) ma =
    (send_agent_out-Keeps id ctx "err" (AgentValue.error e)).at
      (emit (agent_error id (display e)) ma)

pub process-Keeps :
    (id : String) (ctx : AgentContext) (port : String) (value : AgentValue)
    → Keeps tables (process id ctx port value)
unfolding process
process-Keeps id ctx port value = Keeps-bind _ _ (Keeps-find _ _) (λ agent. record {
  at = λ ma.
      let (r, left) = process_hook agent.behaviour agent ctx port value ma in
      tables-report_failure agent.id ctx r left
      ∙ (process_hook-Keeps agent.behaviour agent ctx port value).at ma;
})
