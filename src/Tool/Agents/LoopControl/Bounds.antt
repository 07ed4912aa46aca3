-- ===== src/Tool/Agents/LoopControl/Bounds.antt =====
-- `LoopControlAgent` counts 1024 flows at most, each of them once.
use modular_agent_core.Prelude.{String, Bool-cases, inl, inr, Option, List, [], ◌∷◌}
use modular_agent_core.Prelude.Int.{ℤ}
use modular_agent_core.Error.{Result, ok, err}
use modular_agent_core.Value.{AgentValue}
use modular_agent_core.Context.{AgentContext}
use modular_agent_core.Spec.{AgentConfigs}
use modular_agent_core.Tool.Tracker.{
  IsTracked, nothing_tracked, nothing_tracked-IsTracked, entry_of, keep_entry-IsTracked,
}
use modular_agent_core.Tool.Agents.LoopControl.{
  Counts, or_new, is_countable, message_id, is_redelivery, chosen, count_turn, process_chosen,
  process,
}

count_turn-IsTracked :
    (limit : ℤ) (key : String) (counts : Counts) (ctx : AgentContext) (value : AgentValue)
    → IsTracked counts
    → IsTracked (count_turn limit key counts ctx value).1
unfolding count_turn
count_turn-IsTracked limit key counts ctx value h =
    elim (Bool-cases (is_redelivery (message_id value) (or_new (entry_of counts key)).1)) [
      | inl again ↦ rw again h
      | inr fresh ↦ rw fresh (keep_entry-IsTracked counts key _ h)
    ]

process_chosen-counts :
    (r : Result (ℤ × String)) (counts : Counts) (ctx : AgentContext) (value : AgentValue)
    → IsTracked counts
    → IsTracked (process_chosen r counts ctx value).1
unfolding process_chosen
process_chosen-counts (err e) counts ctx value h = h
process_chosen-counts (ok (limit, key)) counts ctx value h =
    count_turn-IsTracked limit key counts ctx value h

pub process-counts :
    (configs : Option AgentConfigs) (counts : Counts) (ctx : AgentContext) (value : AgentValue)
    → IsTracked counts
    → IsTracked (process configs counts ctx value).1
unfolding process
process-counts configs counts ctx value h = elim (Bool-cases (is_countable value)) [
  | inl c ↦ rw c (process_chosen-counts (chosen configs ctx) counts ctx value h)
  | inr c ↦ rw c h
]

abbrev pub count_flows : Counts → List (Option AgentConfigs × AgentContext × AgentValue) → Counts
count_flows counts [] = counts
count_flows counts ((configs, ctx, value) ∷ inputs) =
    count_flows (process configs counts ctx value).1 inputs

count_flows-keeps :
    (counts : Counts) (inputs : List (Option AgentConfigs × AgentContext × AgentValue))
    → IsTracked counts
    → IsTracked (count_flows counts inputs)
count_flows-keeps counts [] h = h
count_flows-keeps counts ((configs, ctx, value) ∷ inputs) h =
    count_flows-keeps (process configs counts ctx value).1 inputs
      (process-counts configs counts ctx value h)

-- After any inputs of any flows the agent counts 1024 flows at most, and its order names each of these
-- once and no other.
pub count_flows-IsTracked :
    (inputs : List (Option AgentConfigs × AgentContext × AgentValue))
    → IsTracked (count_flows nothing_tracked inputs)
count_flows-IsTracked inputs = count_flows-keeps nothing_tracked inputs nothing_tracked-IsTracked
