-- ===== src/Runtime/Tokens/Tests.antt =====
-- The token of agent `1` in preset `2`, which has token 0.
use modular_agent_core.Prelude.{◌≡◌, none, ◌&&◌, ◌==◌, some, if◌then◌else◌}
use modular_agent_core.IndexMap
use modular_agent_core.IndexMap.{is_some}
use modular_agent_core.Runtime.{ModularAgent, new}
use modular_agent_core.Runtime.Tokens.{create_agent_token, renew_agent_token}
use modular_agent_core.Runtime.Tokens.Slots.{owns, get-renew_agent_token}

abbrev with_parent : ModularAgent
with_parent = record new { preset_tokens = IndexMap.insert IndexMap.empty "2" 0 }

abbrev running : ModularAgent
running = (create_agent_token "2" "1" with_parent).1

get-renew_agent_token_example :
    ((renew_agent_token "2" "1" 5 running).0 ≡ (
      if owns 5 (IndexMap.get running.agent_tokens "1")
        && is_some (IndexMap.get running.preset_tokens "2")
      then some running.tokens.next
      else none))
    × (IndexMap.get (renew_agent_token "2" "1" 5 running).1.agent_tokens "1" ≡ (
        if "1" == "1"
          && (owns 5 (IndexMap.get running.agent_tokens "1")
              && is_some (IndexMap.get running.preset_tokens "2"))
        then some (5, running.tokens.next)
        else IndexMap.get running.agent_tokens "1"))
get-renew_agent_token_example = get-renew_agent_token "2" "1" 5 "1" running
