-- ===== src/Session/Spec.antt =====
-- What `SessionStore` of session.rs promises: logs that only grow, one for each id.
use modular_agent_core.Prelude.{
  String, ◌≡◌, refl, ap, All, Option, none, some, List, [], ◌∷◌, ◌++◌, ◌==◌, if◌then◌else◌,
}
use modular_agent_core.Error.{Result, ok, err, duplicate_id}
use modular_agent_core.Session.{SessionMeta, SessionEntry, session_not_found}

-- A call on a store. `list` is apart: it has no order of its own.
pub data Op : Type 0 where
  create : SessionMeta → Op
  append : (session_id : String) → SessionEntry → Op
  load : (session_id : String) → Op

pub data Reply : Type 0 where
  created : Result String → Reply
  appended : Result (Unit {0}) → Reply
  loaded : Result (List SessionEntry) → Reply

abbrev pub Session : Type 0
Session = SessionMeta × List SessionEntry

-- The sessions by their ids.
abbrev pub Log : Type 0
Log = String → Option Session

abbrev pub empty : Log
empty _ = none

abbrev pub update : Log → String → Session → Log
update log id session j = if id == j then some session else log j

abbrev pub create_in : Option Session → SessionMeta → Log → Reply × Log
create_in none meta log = (created (ok meta.id), update log meta.id (meta, []))
create_in (some old) meta log = (created (err (duplicate_id meta.id)), log)

abbrev pub append_in : Option Session → String → SessionEntry → Log → Reply × Log
append_in none id entry log = (appended (err (session_not_found id)), log)
append_in (some (meta, entries)) id entry log =
    (appended (ok tt), update log id (meta, entries ++ entry ∷ []))

abbrev pub load_in : Option Session → String → Log → Reply × Log
load_in none id log = (loaded (err (session_not_found id)), log)
load_in (some (meta, entries)) id log = (loaded (ok entries), log)

abbrev pub step : Op → Log → Reply × Log
step (create meta) log = create_in (log meta.id) meta log
step (append id entry) log = append_in (log id) id entry log
step (load id) log = load_in (log id) id log

-- The replies of a store to some calls.
unfoldable pub run : {S : Type 0} → (Op → S → Reply × S) → List Op → S → List Reply
run call [] s = []
run call (op ∷ ops) s = (call op s).0 ∷ run call ops (call op s).1

-- A store keeps to the logs: on the calls that are allowed it replies as they do, and its state goes
-- on to stand for the log that they come to.
pub record Simulates {S : Type 0} (call : Op → S → Reply × S) (Allowed : Op → Type 0)
    (StandsFor : S → Log → Type 0) : Type 0 where
  pub at :
      (op : Op) (s : S) (log : Log)
      → Allowed op
      → StandsFor s log
      → ((call op s).0 ≡ (step op log).0) × StandsFor (call op s).1 (step op log).1

pub run-Simulates :
    {S : Type 0} {call : Op → S → Reply × S} {Allowed : Op → Type 0} {StandsFor : S → Log → Type 0}
    → Simulates call Allowed StandsFor
    → (ops : List Op) (s : S) (log : Log) → All Allowed ops
    → StandsFor s log
    → run call ops s ≡ run step ops log
unfolding run
run-Simulates sim [] s log a h = refl
run-Simulates {call} sim (op ∷ ops) s log a h =
    let (same, next) = sim.at op s log a.0 h in
    rw same
      (ap (λ r. (step op log).0 ∷ r) (run-Simulates sim ops (call op s).1 (step op log).1 a.1 next))
