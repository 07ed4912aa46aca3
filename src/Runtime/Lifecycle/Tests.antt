-- ===== src/Runtime/Lifecycle/Tests.antt =====
-- A runtime with two running agents, of which one is stopped.
use modular_agent_core.Prelude.{◌≡◌, ◌==◌, ◌++◌, false, none, some, [], ◌∷◌, if◌then◌else◌}
use modular_agent_core.IndexMap
use modular_agent_core.Spec.{AgentSpec}
use modular_agent_core.Agent.{Agent, external_output, agent_data_new, start}
use modular_agent_core.Runtime.{Channel, ModularAgent, new}
use modular_agent_core.Runtime.Tokens.{create_agent_token}
use modular_agent_core.Runtime.Lifecycle.{stop_agent}
use modular_agent_core.Runtime.Lifecycle.Closing.{token_in, stop_agent-slots}

abbrev spec : AgentSpec
spec = record {
  id = "a";
  def_name = "output";
  inputs = none;
  outputs = none;
  configs = none;
  config_specs = none;
  disabled = false;
  extensions = IndexMap.empty;
}

abbrev running : Agent
running = record (agent_data_new "a" spec (external_output (some "channel"))) {
  status = start;
  preset_id = "p";
}

abbrev channel : Channel
channel = record { queue = []; closed = false }

abbrev runtime : ModularAgent
runtime =
    let ma = (create_agent_token "p" "b" (create_agent_token "p" "a" new).1).1 in
    record ma {
      agents = IndexMap.insert IndexMap.empty "a" running;
      channels = channel ∷ channel ∷ [];
      agent_txs = IndexMap.insert (IndexMap.insert IndexMap.empty "a" 0) "b" 1;
    }

stop_agent-slots_example :
    (IndexMap.get (stop_agent "a" runtime).1.agent_txs "b"
      ≡ (if "a" == "b" then none else IndexMap.get runtime.agent_txs "b"))
    × (IndexMap.get (stop_agent "a" runtime).1.agent_tokens "b"
        ≡ (if "a" == "b" then none else IndexMap.get runtime.agent_tokens "b"))
    × ((stop_agent "a" runtime).1.tokens.fired
        ≡ runtime.tokens.fired ++ token_in (IndexMap.get runtime.agent_tokens "a"))
stop_agent-slots_example = stop_agent-slots "a" "b" runtime
