-- ===== src/Lib.antt =====
-- A model of modular-agent-core, the Rust crate that runs networks of agents.
--
-- A runtime (`ModularAgent`) keeps agents, presets and a routing table. A preset is a specification:
-- agents, and connections between their ports. Adding a preset builds its agents from registered
-- definitions; starting it gives each agent a channel, a cancellation token and a task. What an agent
-- puts out goes through one message loop, which looks up the connections of the port and puts a
-- message into the channel of each target; named channels carry values in from outside.
--
-- All paths are under modular-agent-core/src/ of the repository.
--   Prelude, Decimal, IndexMap    Boolean tests, lists, decimals, and the maps of the crate
--   Error                         error.rs
--   Value, Llm, Json              value.rs, the data of llm.rs, and serde_json's value
--   Value/Serial, Llm/Serial      their conversions from and to JSON
--   Llm/Tokens                    the estimates of tokens of llm.rs
--   Value/Convert                 the conversions between the types of values
--   Text                          the functions of str that the crate calls
--   Context                       context.rs (Context/Frames, Context/Key: its theorems)
--   Id, Spec                      id.rs, spec.rs with config.rs (Spec/Update: AgentSpec::update)
--   Agent, Definition             agent.rs, and reconcile_spec of definition.rs
--   Network                       the routing table of modular_agent.rs
--   Preset                        preset.rs
--   Cancel, Runtime/Tokens        the calls of CancellationToken, and the tokens of modular_agent.rs
--   Runtime/Channels, Agents      external_agent.rs and the channels to agents
--   Runtime/Lifecycle             add, start, stop, remove and configure one agent
--   Runtime/Presets               add, rename, start, stop and remove a preset
--   Runtime/Edit                  edit a preset: agents and connections, one by one and as a batch,
--                                 and its extensions (Edit/Update)
--   Runtime/Routing               message.rs and the message loop
--   Runtime/Process               what an agent does with a value: agent.rs, external_agent.rs
--   Runtime/Contexts              the tokens of contexts: context_token and abort_context
--   Runtime/Globals, Registry     the global configs and the registration of definitions
--   Session, Session/Build        session.rs: the entries, and build_context
--   Session/Spec                  what a store promises: a map from ids to sessions
--   Session/Memory, Jsonl         the two stores; their Refines are against Session/Spec
--   Tool, Tool/Schema             tool.rs: the registry, and the coercion of arguments
--   Tool/Call, Tool/Batch         one tool call, and the calls of a message (call_tools)
--   Tool/Agents                   the agents of tool.rs (Tool/Tracker: what two of them keep)
--   EventRing                     the ring buffer of runtime events of mcp_server.rs
--
-- The state is one record, `Runtime.ModularAgent`, with a field for each lock of the source. An
-- operation maps a state to a result and the state that it leaves (`Runtime.Exec.Action`); what was
-- written before an error stays written. A public call runs as one step: interleavings inside one
-- call are not modelled. Names of functions are those of the source; a helper stands beside the
-- function that it is a part of. The counters wrap round at 2^64, an `i64` is an integer with its
-- conversion from `usize` written out, and lengths are natural numbers. Every loop is a structural
-- recursion on the list that it walks, so that no fuel is needed.
--
-- Runtime/Steps puts the public calls but update_agent_spec, the turns of the message loops and the
-- starts and inputs of spawned agents together into a step relation, with the states that a new runtime
-- can come to.
--
-- The agents of external_agent.rs are told by their kind; any other agent is given by its hooks,
-- functions on its private state and its specification (`Agent.Custom`). A cancellation token is a
-- number, and the calls on it are kept as a log. A full channel never blocks: `send` appends at once.
--
-- Whether a context still holds its token is a parameter, as memory is not modelled.
--
-- The id of a session names its file; ids are taken to hold no path separator, as the UUIDs of the crate.
-- A tool is a function of a context and its arguments. Serialising a value is that into serde_json's
-- value, not into text.
--
-- A session store is a function of its files: a call sees the whole effect of the calls before it, and
-- a crash is a file that ends in the middle of a line. How an entry is written as a line is a parameter,
-- with what it is relied on for as hypotheses on the entries written. In call_tools the order in which
-- the calls of a batch complete, and where the token of the context fires, is an argument (`Turn`). The
-- agents of tool.rs stand beside the runtime: a hook gives its result, its state and its outputs.
-- jsonschema, regex, the print of serde_json and the image library are parameters.
--
-- Not modelled: the receive loop that calls an agent's start and process in turn, the MCP client,
-- the rest of the MCP server, JSON text, time, the errors of files other than a missing or an existing
-- file and a text that is no UTF-8, logging, and the serialisation that serde derives.
pub mod Prelude
pub mod Decimal
pub mod IndexMap
pub mod Error
pub mod Json
pub mod Text
pub mod Llm
pub mod Value
pub mod Context
pub mod Id
pub mod Spec
pub mod Network
pub mod Agent
pub mod Definition
pub mod Cancel
pub mod Preset
pub mod Runtime
pub mod Session
pub mod Tool
pub mod EventRing
