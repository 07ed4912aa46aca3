-- ===== src/Session/Memory/Refines.antt =====
-- The store in memory of session.rs answers every sequence of calls as the logs do.
use modular_agent_core.Prelude.{
  String, All, ◌≡◌, refl, Option, none, some, List, [], ◌∷◌, ◌++◌, arith, ◌==◌, eq_iff,
  if◌then◌else◌,
}
use modular_agent_core.Session.{SessionMeta, SessionEntry}
use modular_agent_core.Session.Spec
use modular_agent_core.Session.Spec.{
  Op, create, append, load, Reply, created, appended, loaded, Session, Log, step, update, create_in,
  append_in, load_in, run, Simulates, run-Simulates,
}
use modular_agent_core.Session.Memory
use modular_agent_core.Session.Memory.{
  SessionMap, find, insert_new, push_entry, create_unless, append_if, entries_of,
}

find-insert_new :
    (id j : String) (s : Session) (m : SessionMap)
    → find id m ≡ none
    → find j (insert_new id s m) ≡ (if id == j then some s else find j m)
unfolding find insert_new
find-insert_new id j s [] h = refl
find-insert_new id j s ((i, t) ∷ m) h =
    ground (arith, eq_iff id j, eq_iff i j, eq_iff i id, find-insert_new id j s m)

-- A session with one more entry, if there is one.
abbrev pushed : SessionEntry → Option Session → Option Session
pushed entry none = none
pushed entry (some (meta, entries)) = some (meta, entries ++ entry ∷ [])

find-push_entry :
    (id j : String) (entry : SessionEntry) (m : SessionMap)
    → find j (push_entry id entry m) ≡ (if id == j then pushed entry (find j m) else find j m)
unfolding find push_entry
find-push_entry id j entry [] = ground arith
find-push_entry id j entry ((i, s) ∷ m) =
    ground (arith, eq_iff id j, eq_iff i j, eq_iff i id, find-push_entry id j entry m)

-- One call, as `SessionStore` makes it.
pub call : Op → SessionMap → Reply × SessionMap
call (create meta) m = let (r, m') = Memory.create meta m in (created r, m')
call (append id entry) m = let (r, m') = Memory.append id entry m in (appended r, m')
call (load id) m = (loaded (Memory.load id m), m)

abbrev Views : SessionMap → Log → Type 0
Views m log = (j : String) → find j m ≡ log j

create-Views :
    (o : Option Session) (meta : SessionMeta) (m : SessionMap) (log : Log)
    → find meta.id m ≡ o
    → Views m log
    → Views (create_unless o meta m).1 (create_in o meta log).1
unfolding create_unless
create-Views none meta m log e h j = ground (arith, h j, find-insert_new meta.id j (meta, []) m e)
create-Views (some old) meta m log e h j = h j

append-Views :
    (o : Option Session) (id : String) (entry : SessionEntry) (m : SessionMap) (log : Log)
    → find id m ≡ o
    → Views m log
    → Views (append_if o id entry m).1 (append_in o id entry log).1
unfolding append_if
append-Views none id entry m log e h j = h j
append-Views (some s) id entry m log e h j =
    ground (arith, h j, e, eq_iff id j, find-push_entry id j entry m)

create-reply :
    (o : Option Session) (meta : SessionMeta) (m : SessionMap) (log : Log)
    → created (create_unless o meta m).0 ≡ (create_in o meta log).0
unfolding create_unless
create-reply none meta m log = refl
create-reply (some old) meta m log = refl

append-reply :
    (o : Option Session) (id : String) (entry : SessionEntry) (m : SessionMap) (log : Log)
    → appended (append_if o id entry m).0 ≡ (append_in o id entry log).0
unfolding append_if
append-reply none id entry m log = refl
append-reply (some s) id entry m log = refl

load-reply :
    (o : Option Session) (id : String) (log : Log) → loaded (entries_of o id) ≡ (load_in o id log).0
unfolding entries_of
load-reply none id log = refl
load-reply (some s) id log = refl

load-log : (o : Option Session) (id : String) (log : Log) → (load_in o id log).1 ≡ log
load-log none id log = refl
load-log (some s) id log = refl

call-Simulates : Simulates call (λ _. Unit) Views
unfolding call Memory.create Memory.append Memory.load
call-Simulates = record { at = at }
  where
    at :
        (op : Op) (m : SessionMap) (log : Log)
        → Unit {0}
        → Views m log
        → ((call op m).0 ≡ (step op log).0) × Views (call op m).1 (step op log).1
    at (create meta) m log u h =
        rw (← h meta.id) (
          create-reply (find meta.id m) meta m log,
          create-Views (find meta.id m) meta m log refl h,
        )
    at (append id entry) m log u h =
        rw (← h id)
          (append-reply (find id m) id entry m log, append-Views (find id m) id entry m log refl h)
    at (load id) m log u h =
        rw (← h id) (load-reply (find id m) id log, rw (load-log (find id m) id log) h)

All-Unit : (ops : List Op) → All (λ _. Unit {0}) ops
All-Unit [] = tt
All-Unit (op ∷ ops) = (tt, All-Unit ops)

-- An empty store in memory answers every sequence of calls as the logs do, errors included.
pub memory_refines : (ops : List Op) → run call ops [] ≡ run step ops Spec.empty
unfolding find
memory_refines ops = run-Simulates call-Simulates ops [] Spec.empty (All-Unit ops) (λ j. refl)
