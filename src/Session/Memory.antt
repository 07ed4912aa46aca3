-- ===== src/Session/Memory.antt =====
-- `InMemorySessionStore` of session.rs: the sessions in a map that is sorted by their ids.
pub mod Refines
use Prim.Native.String.{compare}
use text.Mathlib.Text.{is_lt}
use modular_agent_core.Prelude.{
  String, Bool, true, false, Option, none, some, List, [], ◌∷◌, ◌++◌, map, ◌==◌, if◌then◌else◌,
}
use modular_agent_core.Error.{Result, ok, err, duplicate_id}
use modular_agent_core.Session.{SessionMeta, SessionEntry, session_not_found}
use modular_agent_core.Session.Spec.{Session}

-- `BTreeMap<String, (SessionMeta, Vec<SessionEntry>)>`, by its entries in order
abbrev pub SessionMap : Type 0
SessionMap = List (String × Session)

unfoldable pub find : String → SessionMap → Option Session
find id [] = none
find id ((j, s) ∷ m) = if j == id then some s else find id m

-- `insert` of a key that is not in the map
insert_new : String → Session → SessionMap → SessionMap
insert_new id s [] = (id, s) ∷ []
insert_new id s ((j, t) ∷ m) =
    let later = insert_new id s m in
    if is_lt (compare id j) then (id, s) ∷ (j, t) ∷ m else (j, t) ∷ later

-- `entries.push(entry)` through `get_mut`
push_entry : String → SessionEntry → SessionMap → SessionMap
push_entry id entry [] = []
push_entry id entry ((j, s) ∷ m) =
    let later = push_entry id entry m in
    if j == id then (j, (s.0, s.1 ++ entry ∷ [])) ∷ m else (j, s) ∷ later

create_unless : Option Session → SessionMeta → SessionMap → Result String × SessionMap
create_unless (some old) meta sessions = (err (duplicate_id meta.id), sessions)
create_unless none meta sessions = (ok meta.id, insert_new meta.id (meta, []) sessions)

unfoldable pub create : SessionMeta → SessionMap → Result String × SessionMap
unfolding create_unless find insert_new
create meta sessions = create_unless (find meta.id sessions) meta sessions

append_if : Option Session → String → SessionEntry → SessionMap → Result (Unit {0}) × SessionMap
append_if none id entry sessions = (err (session_not_found id), sessions)
append_if (some s) id entry sessions = (ok tt, push_entry id entry sessions)

unfoldable pub append : String → SessionEntry → SessionMap → Result (Unit {0}) × SessionMap
unfolding append_if find push_entry
append id entry sessions = append_if (find id sessions) id entry sessions

entries_of : Option Session → String → Result (List SessionEntry)
entries_of none id = err (session_not_found id)
entries_of (some s) id = ok s.1

unfoldable pub load : String → SessionMap → Result (List SessionEntry)
unfolding entries_of find
load id sessions = entries_of (find id sessions) id

unfoldable pub list : SessionMap → List SessionMeta
list sessions = map (λ (e : String × Session). e.1.0) sessions
