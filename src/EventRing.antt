-- ===== src/EventRing.antt =====
-- The ring buffer of runtime events of mcp_server.rs (`EventRing`).
pub mod Ascending
pub mod Paging
mod Tests
use modular_agent_core.Prelude.{
  ℕ, zero, suc, ◌+◌, ◌%◌, ◌^◌, String, Bool, true, false, Option, none, some, List, [], ◌∷◌, ◌++◌,
  length, retain, take, ◌==◌, leb, ltb, if◌then◌else◌,
}
use modular_agent_core.Value.{AgentValue}

abbrev pub ring_capacity : ℕ
ring_capacity = 200

pub record ErrorRecord : Type 0 where
  pub seq : ℕ
  pub time_ms : ℕ
  pub preset_id : Option String
  pub agent_id : String
  pub message : String

pub record OutputRecord : Type 0 where
  pub seq : ℕ
  pub time_ms : ℕ
  pub channel : String
  pub value : AgentValue

-- The counter is an `AtomicU64`, and `fetch_add` wraps round.
pub record EventRing : Type 0 where
  pub seq : ℕ
  pub dropped : ℕ
  pub errors : List ErrorRecord
  pub outputs : List OutputRecord

unfoldable pub new : EventRing
new = record { seq = 0; dropped = 0; errors = []; outputs = [] }

unfoldable pub next_seq : ℕ → ℕ
next_seq seq = (seq + 1) % 2 ^ 64

module _ {R : Type 0} where
  abbrev pub pop_front : List R → List R
  pop_front [] = []
  pop_front (r ∷ records) = records

  unfoldable pub push_back : List R → R → List R
  push_back records r =
      (if leb ring_capacity (length records) then pop_front records else records) ++ r ∷ []

unfoldable pub push_error : EventRing → ℕ → Option String → String → String → EventRing
push_error ring time_ms preset_id agent_id message =
    let seq = next_seq ring.seq in
    record ring {
      seq = seq;
      errors = push_back ring.errors (record {
        seq = seq;
        time_ms = time_ms;
        preset_id = preset_id;
        agent_id = agent_id;
        message = message;
      });
    }

unfoldable pub push_output : EventRing → ℕ → String → AgentValue → EventRing
push_output ring time_ms channel value =
    let seq = next_seq ring.seq in
    record ring {
      seq = seq;
      outputs =
          push_back ring.outputs
            (record { seq = seq; time_ms = time_ms; channel = channel; value = value });
    }

abbrev pub is_name : Option String → String → Bool
is_name none name = false
is_name (some own) name = own == name

abbrev pub of_preset : Option String → ErrorRecord → Bool
of_preset none r = true
of_preset (some p) r = is_name r.preset_id p

abbrev pub of_channel : Option String → OutputRecord → Bool
of_channel none r = true
of_channel (some c) r = r.channel == c

unfoldable pub collect_errors : EventRing → Option String → ℕ → ℕ → List ErrorRecord
collect_errors ring preset_id since_seq limit =
    take limit
      (retain (of_preset preset_id) (retain (λ (r : ErrorRecord). ltb since_seq r.seq) ring.errors))

unfoldable pub collect_outputs : EventRing → Option String → ℕ → ℕ → List OutputRecord
collect_outputs ring channel since_seq limit =
    take limit (
      retain (of_channel channel) (retain (λ (r : OutputRecord). ltb since_seq r.seq) ring.outputs))
