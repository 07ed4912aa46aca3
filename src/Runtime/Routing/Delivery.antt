-- ===== src/Runtime/Routing/Delivery.antt =====
-- What the routing of messages puts into the channels of the agents.
use modular_agent_core.Prelude.{
  ℕ, String, ◌≡◌, refl, ◌∙◌, sym, ap, Bool, false, ◌&&◌, Option, none, some, Option-cases,
  Bool-cases, inl, inr, List, [], ◌∷◌, ◌++◌, arith, ◌==◌, eq_iff, nat_eq, get_elem?,
  get_elem?-set_elem, get_elem?-bound, append_assoc, append-nil, if◌then◌else◌,
}
use modular_agent_core.IndexMap
use modular_agent_core.IndexMap.{IndexMap}
use modular_agent_core.Value.{AgentValue}
use modular_agent_core.Context.{AgentContext}
use modular_agent_core.Agent.{Agent, AgentMessage, input, config}
use modular_agent_core.Network.{ConnectionTarget, targets_of}
use modular_agent_core.Runtime.{ModularAgent, Channel, emit}
use modular_agent_core.Runtime.Exec.{◌>>=◌}
use modular_agent_core.Runtime.Channels.{send}
use modular_agent_core.Runtime.Agents.{set_config}
use modular_agent_core.Runtime.Lifecycle.{put_agent}
use modular_agent_core.Runtime.Routing.{
  message_for, apply_message, hand_over, deliver, agent_input, route, agent_out,
}

-- Who can be reached and where: what the routing reads of the runtime.
pub record Reaches (present : String → Bool) (tx_of : String → Option ℕ) (ma : ModularAgent)
    : Type 0 where
  pub agents : (id : String) → IndexMap.contains_key ma.agents id ≡ present id
  pub txs : (id : String) → IndexMap.get ma.agent_txs id ≡ tx_of id

contains_key-insert :
    (m : IndexMap Agent) (id : String) (agent agent' : Agent) (j : String)
    → IndexMap.get m id ≡ some agent
    → IndexMap.contains_key (IndexMap.insert m id agent') j ≡ IndexMap.contains_key m j
contains_key-insert m id agent agent' j h =
    ground (arith, IndexMap.get-insert m id j agent', eq_iff id j)

apply_message-agents :
    (message : AgentMessage) (id : String) (ma : ModularAgent) (j : String)
    → IndexMap.contains_key (apply_message message id ma).1.agents j
      ≡ IndexMap.contains_key ma.agents j
unfolding apply_message ◌>>=◌ put_agent
apply_message-agents (config key value) id ma j = elim (Option-cases (IndexMap.get ma.agents id)) [
  | inl e ↦ rw e refl
  | inr (agent, e) ↦ rw e (
      contains_key-insert ma.agents id agent (set_config key value agent ma.external_input_agents).1
        j e)
]
apply_message-agents (input ctx port value) id ma j = ground arith
apply_message-agents (AgentMessage.configs c) id ma j = ground arith
apply_message-agents AgentMessage.stop id ma j = ground arith

apply_message-tables :
    (message : AgentMessage) (id : String) (ma : ModularAgent)
    → ((apply_message message id ma).1.channels ≡ ma.channels)
      × ((apply_message message id ma).1.agent_txs ≡ ma.agent_txs)
unfolding apply_message ◌>>=◌ put_agent
apply_message-tables (config key value) id ma = ground arith
apply_message-tables (input ctx port value) id ma = ground arith
apply_message-tables (AgentMessage.configs c) id ma = ground arith
apply_message-tables AgentMessage.stop id ma = ground arith

deliver-tables :
    (tx : Option ℕ) (id port : String) (message : AgentMessage) (ma : ModularAgent) (j : String)
    → (IndexMap.contains_key (deliver tx id port message ma).1.agents j
        ≡ IndexMap.contains_key ma.agents j)
      × ((deliver tx id port message ma).1.agent_txs ≡ ma.agent_txs)
unfolding deliver hand_over ◌>>=◌ emit
deliver-tables none id port message ma j =
    (apply_message-agents message id ma j, (apply_message-tables message id ma).1)
deliver-tables (some n) id port message ma j = ground arith

-- The message that a call puts into the channel, if it is the agent's.
for_channel : Option ℕ → ℕ → AgentMessage → List AgentMessage
for_channel none n message = []
for_channel (some k) n message = if nat_eq k n then message ∷ [] else []

-- The channel is open and holds these messages.
Holds : ModularAgent → ℕ → List AgentMessage → Type 0
Holds ma n queue = get_elem? ma.channels n ≡ some (record { queue = queue; closed = false })

send-get_elem? :
    (k n : ℕ) (message : AgentMessage) (cs : List Channel) (queue : List AgentMessage)
    → get_elem? cs n ≡ some (record { queue = queue; closed = false })
    → get_elem? (send k message cs).1 n
      ≡ some (record { queue = queue ++ for_channel (some k) n message; closed = false })
unfolding send for_channel
send-get_elem? k n message cs queue h = elim (Bool-cases (nat_eq k n)) [
  | inl here ↦ ground (
    arith,
    get_elem?-bound cs n (record { queue = queue; closed = false }),
    get_elem?-set_elem cs k n (record { queue = queue ++ message ∷ []; closed = false }),
  )
  | inr there ↦ elim (Option-cases (get_elem? cs k)) [
    | inl e ↦ rw e (ground (arith, append-nil queue))
    | inr (c, e) ↦ ground (
      arith,
      append-nil queue,
      get_elem?-set_elem cs k n (record { queue = c.queue ++ message ∷ []; closed = false }),
    )
  ]
]

deliver-Holds :
    (tx : Option ℕ) (id port : String) (message : AgentMessage) (ma : ModularAgent) (n : ℕ)
    (queue : List AgentMessage)
    → Holds ma n queue
    → Holds (deliver tx id port message ma).1 n (queue ++ for_channel tx n message)
unfolding deliver hand_over ◌>>=◌ emit for_channel Holds
deliver-Holds none id port message ma n queue h =
    ground (arith, append-nil queue, apply_message-tables message id ma)
deliver-Holds (some k) id port message ma n queue h =
    ground (arith, send-get_elem? k n message ma.channels queue h)

-- The messages that go into a channel, in the order of the targets.
unfoldable pub sent :
    (String → Bool)
    → (String → Option ℕ)
    → ℕ
    → AgentContext
    → String
    → AgentValue
    → List ConnectionTarget
    → List AgentMessage
unfolding for_channel
sent present tx_of n ctx port value [] = []
sent present tx_of n ctx port value ((target, source_port, target_port) ∷ targets) =
    let rest = sent present tx_of n ctx port value targets in
    if source_port == port && present target
    then for_channel (tx_of target) n (message_for ctx target_port value) ++ rest
    else rest

module _ {present : String → Bool} {tx_of : String → Option ℕ} where
  agent_input-Reaches :
      (id : String) (ctx : AgentContext) (port : String) (value : AgentValue) (ma : ModularAgent)
      → Reaches present tx_of ma
      → Reaches present tx_of (agent_input id ctx port value ma).1
  unfolding agent_input
  agent_input-Reaches id ctx port value ma h =
      let tx = IndexMap.get ma.agent_txs id in
      let message = message_for ctx port value in
      record {
        agents = λ j. (deliver-tables tx id port message ma j).0 ∙ h.agents j;
        txs = λ j. ap (λ t. IndexMap.get t j) (deliver-tables tx id port message ma j).1 ∙ h.txs j;
      }

  route-Holds :
      (targets : List ConnectionTarget) (ctx : AgentContext) (port : String) (value : AgentValue)
      (ma : ModularAgent) (n : ℕ) (queue : List AgentMessage)
      → Reaches present tx_of ma
      → Holds ma n queue
      → Holds
          (route targets ctx port value ma)
          n
          (queue ++ sent present tx_of n ctx port value targets)
  unfolding route sent agent_input
  route-Holds [] ctx port value ma n queue r h = rw (append-nil queue) h
  route-Holds ((target, source_port, target_port) ∷ targets) ctx port value ma n queue r h =
      elim (Bool-cases (source_port == port && present target)) [
        | inl reached ↦
            let message = message_for ctx target_port value in
            let tx = IndexMap.get ma.agent_txs target in
            let put = for_channel tx n message in
            rw
              (
                r.agents target,
                reached,
                sym (r.txs target),
                sym (append_assoc queue put (sent present tx_of n ctx port value targets)),
              )
              (route-Holds targets ctx port value (agent_input target ctx target_port value ma).1 n
                (queue ++ put) (agent_input-Reaches target ctx target_port value ma r)
                (deliver-Holds tx target target_port message ma n queue h))
        | inr skipped ↦
            rw (r.agents target, skipped) (route-Holds targets ctx port value ma n queue r h)
      ]

-- An output puts into an open channel one message for each connection of its port to the channel's
-- agent, behind what waits there and in the order of the connections.
pub agent_out-queue :
    (source : String) (ctx : AgentContext) (port : String) (value : AgentValue) (ma : ModularAgent)
    (n : ℕ) (queue : List AgentMessage)
    → get_elem? ma.channels n ≡ some (record { queue = queue; closed = false })
    → get_elem? (agent_out source ctx port value ma).channels n
      ≡ some (record {
        queue =
            queue
            ++ sent
                (IndexMap.contains_key ma.agents)
                (IndexMap.get ma.agent_txs)
                n
                ctx
                port
                value
                (targets_of ma.connections source);
        closed = false;
      })
unfolding agent_out Holds
agent_out-queue source ctx port value ma n queue h =
    route-Holds (targets_of ma.connections source) ctx port value ma n queue
      (record { agents = λ j. refl; txs = λ j. refl }) h
