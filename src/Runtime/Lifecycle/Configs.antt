-- ===== src/Runtime/Lifecycle/Configs.antt =====
-- Starting and configuring an agent leaves the presets and the routing table alone.
use modular_agent_core.Prelude.{ℕ, String, ◌≡◌, refl, Option, none, some, List, [], ◌∷◌, arith}
use modular_agent_core.Value.{AgentValue}
use modular_agent_core.Spec.{AgentConfigs}
use modular_agent_core.Runtime.{ModularAgent, emit}
use modular_agent_core.Runtime.Exec.{◌>>=◌}
use modular_agent_core.Runtime.Exec.Keeps.{Keeps, Keeps-bind, Keeps-gets, Keeps-modify}
use modular_agent_core.Runtime.Lifecycle.{
  put_agent, run_start, report, set_agent_configs, announce_configs, set_directly, send_configs,
}
use modular_agent_core.Runtime.Lifecycle.Frame.{tables}

pub run_start-Keeps : (id : String) → Keeps tables (run_start id)
unfolding run_start ◌>>=◌ put_agent report emit
run_start-Keeps id = record { at = λ ma. ground arith }

tables-announce_configs :
    (id : String) (l : List (String × AgentValue)) (ma : ModularAgent)
    → tables (announce_configs id l ma) ≡ tables ma
unfolding announce_configs emit
tables-announce_configs id [] ma = refl
tables-announce_configs id ((key, v) ∷ l) ma = tables-announce_configs id l _

set_directly-Keeps : (id : String) (c : AgentConfigs) → Keeps tables (set_directly id c)
unfolding set_directly ◌>>=◌ put_agent
set_directly-Keeps id c = record { at = λ ma. ground arith }

send_configs-Keeps : (n : ℕ) (c : AgentConfigs) → Keeps tables (send_configs n c)
unfolding send_configs
send_configs-Keeps n c = record { at = λ ma. refl }

pub set_agent_configs-Keeps :
    (id : String) (c : AgentConfigs) → Keeps tables (set_agent_configs id c)
unfolding set_agent_configs
set_agent_configs-Keeps id c =
    Keeps-bind _ _ (Keeps-gets _) (λ tx.
      Keeps-bind _ _ (chosen tx) (λ _. Keeps-modify _ (tables-announce_configs id c.entries)))
  where
    chosen :
        (tx : Option ℕ)
        → Keeps tables (elim tx [ none ↦ set_directly id c | some n ↦ send_configs n c ])
    chosen none = set_directly-Keeps id c
    chosen (some n) = send_configs-Keeps n c
