-- ===== src/Tool/Agents/LoopControl/Verdict.antt =====
-- What `LoopControlAgent` promises: the turns of a flow that ask for tools, and what passes of them.
use Prim.Native.String.{◌++◌ as append}
use modular_agent_core.Prelude.{
  ℕ, suc, String, ◌≡◌, refl, Bool, true, false, not, ◌&&◌, ◌||◌, Option, none, some, List, [], ◌∷◌,
  leb, nat_eq, arith, ◌==◌, if◌then◌else◌,
}
use modular_agent_core.Prelude.Int.{pos}
use modular_agent_core.Text.Integers.{show_integer}
use modular_agent_core.Llm.{ToolCall, assistant}
use modular_agent_core.Value.{AgentValue}
use modular_agent_core.Context.{AgentContext}
use modular_agent_core.Agent.{Output}
use modular_agent_core.Tool.Agents.{put_out}
use modular_agent_core.Tool.Agents.LoopControl.{has_calls, is_countable, message_id, is_redelivery}

-- How many turns have asked for tools, and the id of the last of them.
abbrev pub Turns : Type 0
Turns = ℕ × Option String

abbrev pub no_turns : Turns
no_turns = (0, none)

abbrev some_call : Option (List ToolCall) → Bool
some_call none = false
some_call (some []) = false
some_call (some (call ∷ calls)) = true

-- A whole message of the assistant with at least one call.
abbrev pub asks_for_tools : AgentValue → Bool
asks_for_tools (AgentValue.message m) =
    if m.streaming then false else (m.role == "assistant" && some_call m.tool_calls)
asks_for_tools _ = false

abbrev pub id_of : AgentValue → Option String
id_of (AgentValue.message m) = m.id
id_of _ = none

-- Without an id a message is of no turn but its own.
abbrev pub same_turn : Option String → Option String → Bool
same_turn none last = false
same_turn (some id) none = false
same_turn (some id) (some last) = last == id

abbrev pub notice : ℕ → AgentValue
notice limit = AgentValue.message (
    assistant (
      append "Loop limit reached: the tool-call cycle exceeded the configured max_iterations of "
        (append (show_integer (pos limit)) " and has been stopped.")))

-- A message with the id of the last turn is no new turn.
abbrev pub add_turn : Turns → AgentValue → Turns
add_turn seen value =
    if asks_for_tools value && not (same_turn (id_of value) seen.1)
    then (suc seen.0, id_of value)
    else seen

abbrev pub turns_of : Turns → List AgentValue → Turns
turns_of seen [] = seen
turns_of seen (value ∷ values) = turns_of (add_turn seen value) values

-- What passes: every value of the turns up to the limit, and all that asks for no tools. The first
-- message of a turn beyond the limit is answered by the notice.
abbrev pub verdict : ℕ → AgentContext → Turns → AgentValue → List Output
verdict limit ctx seen value =
    let n = (add_turn seen value).0 in
    if not (asks_for_tools value) || leb n limit
    then put_out ctx "message" value ∷ []
    else if nat_eq n seen.0
    then []
    else put_out ctx "limit_exceeded" (notice limit) ∷ []

has_calls-some_call : (calls : Option (List ToolCall)) → has_calls calls ≡ some_call calls
unfolding has_calls
has_calls-some_call none = refl
has_calls-some_call (some []) = refl
has_calls-some_call (some (call ∷ calls)) = refl

pub is_countable-asks : (value : AgentValue) → is_countable value ≡ asks_for_tools value
unfolding is_countable
is_countable-asks AgentValue.unit = refl
is_countable-asks (AgentValue.boolean b) = refl
is_countable-asks (AgentValue.integer i) = refl
is_countable-asks (AgentValue.number n) = refl
is_countable-asks (AgentValue.string s) = refl
is_countable-asks (AgentValue.image i) = refl
is_countable-asks (AgentValue.array vs) = refl
is_countable-asks (AgentValue.object o) = refl
is_countable-asks (AgentValue.tensor t) = refl
is_countable-asks (AgentValue.message m) = ground (arith, has_calls-some_call m.tool_calls)
is_countable-asks (AgentValue.error e) = refl

pub message_id-id_of : (value : AgentValue) → message_id value ≡ id_of value
unfolding message_id
message_id-id_of AgentValue.unit = refl
message_id-id_of (AgentValue.boolean b) = refl
message_id-id_of (AgentValue.integer i) = refl
message_id-id_of (AgentValue.number n) = refl
message_id-id_of (AgentValue.string s) = refl
message_id-id_of (AgentValue.image i) = refl
message_id-id_of (AgentValue.array vs) = refl
message_id-id_of (AgentValue.object o) = refl
message_id-id_of (AgentValue.tensor t) = refl
message_id-id_of (AgentValue.message m) = refl
message_id-id_of (AgentValue.error e) = refl

pub is_redelivery-same : (id last : Option String) → is_redelivery id last ≡ same_turn id last
unfolding is_redelivery
is_redelivery-same none last = refl
is_redelivery-same (some id) none = refl
is_redelivery-same (some id) (some last) = refl
