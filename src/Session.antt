-- ===== src/Session.antt =====
-- session.rs: the entries of a session log, and the context that is built from a log.
pub mod Memory
pub mod Jsonl
pub mod Spec
pub mod Build
mod Tests
use Prim.Native.String.{◌++◌ as append}
use modular_agent_core.Prelude.{
  ℕ, suc, String, Bool, true, false, Option, none, some, List, [], ◌∷◌, ◌==◌, if◌then◌else◌,
}
use modular_agent_core.Error.{AgentError, other}
use modular_agent_core.Llm.{Message, user}

pub record SessionMeta : Type 0 where
  pub id : String
  pub version : ℕ
  pub parent_session : Option String
  pub created_at : String

pub data SessionEntry : Type 0 where
  message :
      (id : String) (parent_id : Option String) (timestamp : String) (message : Message)
      → SessionEntry
  compaction :
      (id : String) (parent_id : Option String) (timestamp summary first_kept_id : String)
      (tokens_before : Option ℕ)
      → SessionEntry

-- A fresh uuid and the time are arguments of what takes them.
unfoldable pub new_meta : (uuid now : String) → SessionMeta
new_meta uuid now = record { id = uuid; version = 1; parent_session = none; created_at = now }

-- SessionEntry::message
unfoldable pub message_entry : (uuid now : String) → Message → SessionEntry
message_entry uuid now m = message uuid none now m

-- SessionEntry::compaction
unfoldable pub compaction_entry :
    (uuid now summary first_kept_id : String) → Option ℕ → SessionEntry
compaction_entry uuid now summary first_kept_id tokens_before =
    compaction uuid none now summary first_kept_id tokens_before

unfoldable pub entry_id : SessionEntry → String
entry_id (message id _ _ _) = id
entry_id (compaction id _ _ _ _ _) = id

unfoldable pub session_not_found : String → AgentError
session_not_found session_id = other (append "Session not found: " session_id)

-- `filter_map(entry_message)`
unfoldable pub messages : List SessionEntry → List Message
messages [] = []
messages (message _ _ _ m ∷ entries) = m ∷ messages entries
messages (compaction _ _ _ _ _ _ ∷ entries) = messages entries

-- A compaction by its summary, its `first_kept_id` and the entries behind it.
pub record Compaction : Type 0 where
  pub summary : String
  pub first_kept_id : String
  pub behind : List SessionEntry

-- `enumerate().rev().find_map(..)`: the last compaction of the log.
last_compaction : List SessionEntry → Option Compaction
last_compaction [] = none
last_compaction (message _ _ _ _ ∷ entries) = last_compaction entries
last_compaction (compaction _ _ _ summary first_kept_id _ ∷ entries) =
    elim (last_compaction entries) [
      | none ↦ some (record { summary = summary; first_kept_id = first_kept_id; behind = entries })
      | some later ↦ some later
    ]

-- The log from the first message with the id on, `entries[position..]`.
from_message : String → List SessionEntry → Option (List SessionEntry)
from_message kept [] = none
from_message kept (message id p t m ∷ entries) =
    if id == kept then some (message id p t m ∷ entries) else from_message kept entries
from_message kept (compaction _ _ _ _ _ _ ∷ entries) = from_message kept entries

or_behind : Option (List SessionEntry) → List SessionEntry → List SessionEntry
or_behind none behind = behind
or_behind (some kept) behind = kept

compacted : Option Compaction → List SessionEntry → List Message
unfolding from_message or_behind messages
compacted none entries = messages entries
compacted (some c) entries =
    user (append "[Conversation summary]\n" c.summary)
    ∷ messages (or_behind (from_message c.first_kept_id entries) c.behind)

unfoldable pub build_context : List SessionEntry → List Message
unfolding last_compaction compacted
build_context entries = compacted (last_compaction entries) entries
