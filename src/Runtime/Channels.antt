-- ===== src/Runtime/Channels.antt =====
-- The channels to agents in modular_agent.rs, and the named channels of external_agent.rs.
use Prim.Native.String.{◌++◌ as append}
use modular_agent_core.Prelude.{
  ℕ, String, Bool, true, false, not, ◌||◌, Option, none, some, List, [], ◌∷◌, ◌++◌, ◌==◌, leb,
  length, get_elem?, set_elem, retain, if◌then◌else◌,
}
use modular_agent_core.IndexMap
use modular_agent_core.IndexMap.{IndexMap}
use modular_agent_core.Agent.{AgentMessage}
use modular_agent_core.Runtime.{Channel}

abbrev pub message_limit : ℕ
message_limit = 1024

enqueue : AgentMessage → Channel → Channel
enqueue message c = record c { queue = c.queue ++ message ∷ [] }

send_to : Bool → Option Channel → ℕ → AgentMessage → List Channel → Bool × List Channel
unfolding enqueue
send_to full none n message cs = (false, cs)
send_to full (some c) n message cs =
    if c.closed || full then (false, cs) else (true, set_elem cs n (enqueue message c))

is_full : Option Channel → Bool
is_full none = false
is_full (some c) = leb message_limit (length c.queue)

-- `tx.try_send(message)`: fails if the channel is full or closed.
unfoldable pub try_send : ℕ → AgentMessage → List Channel → Bool × List Channel
unfolding send_to is_full
try_send n message cs = send_to (is_full (get_elem? cs n)) (get_elem? cs n) n message cs

-- `tx.send(message).await`: fails if the channel is closed. While the channel is full the call waits
-- for the agent to take a message; the model puts the message in the queue at once.
unfoldable pub send : ℕ → AgentMessage → List Channel → Bool × List Channel
unfolding send_to
send n message cs = send_to false (get_elem? cs n) n message cs

-- channel_name_for_local
unfoldable pub channel_name_for_local : String → String → String
channel_name_for_local flow_id var_name = append "%" (append flow_id (append "/" var_name))

-- `nodes.push(id)`, in a new list if the channel has none.
unfoldable pub register : String → String → IndexMap (List String) → IndexMap (List String)
register channel id m = elim (IndexMap.get m channel) [
  | some nodes ↦ IndexMap.insert m channel (nodes ++ id ∷ [])
  | none ↦ IndexMap.insert m channel (id ∷ [])
]

unfoldable pub unregister : String → String → IndexMap (List String) → IndexMap (List String)
unregister channel id m = elim (IndexMap.get m channel) [
  | some nodes ↦ IndexMap.insert m channel (retain (λ x. not (x == id)) nodes)
  | none ↦ m
]
