-- ===== src/EventRing/Paging.antt =====
-- Polling the ring buffer page by page.
use modular_agent_core.Prelude.{
  ℕ, suc, ◌+◌, ◌^◌, ◌<◌, String, ◌≡◌, refl, Option, List, [], ◌∷◌, ◌++◌, length, retain, arith,
}
use mathlib.Core.Path.{subst}
use modular_agent_core.Value.{AgentValue}
use modular_agent_core.EventRing.{
  ErrorRecord, OutputRecord, EventRing, new, next_seq, push_error, push_output, of_preset,
  of_channel, collect_errors, collect_outputs,
}
use modular_agent_core.EventRing.Ascending.{
  after, cursor, AtMost-up, IsBuffer, push_back-IsBuffer, page-lem,
}

pub data Event : Type 0 where
  failed : (time_ms : ℕ) → (preset_id : Option String) → (agent_id message : String) → Event
  put_out : (time_ms : ℕ) → (channel : String) → AgentValue → Event

abbrev pub push : EventRing → Event → EventRing
push ring (failed time_ms preset_id agent_id message) =
    push_error ring time_ms preset_id agent_id message
push ring (put_out time_ms channel value) = push_output ring time_ms channel value

abbrev pub push_all : EventRing → List Event → EventRing
push_all ring [] = ring
push_all ring (e ∷ events) = push_all (push ring e) events

abbrev pub error_seq : ErrorRecord → ℕ
error_seq r = r.seq

abbrev pub output_seq : OutputRecord → ℕ
output_seq r = r.seq

-- A ring that has numbered `n` records.
pub record IsRing (n : ℕ) (ring : EventRing) : Type 0 where
  pub counted : ring.seq ≡ n
  pub errors : IsBuffer error_seq n ring.errors
  pub outputs : IsBuffer output_seq n ring.outputs

module _ {R : Type 0} (seq : R → ℕ) where
  later-IsBuffer :
      (n : ℕ) (records : List R) → IsBuffer seq n records → IsBuffer seq (suc n) records
  later-IsBuffer n records h = record {
    ascending = h.ascending;
    at_most = AtMost-up seq n (suc n) records (omega arith) h.at_most;
    bounded = h.bounded;
  }

next_seq-suc : (n : ℕ) → suc n < 2 ^ 64 → next_seq n ≡ suc n
unfolding next_seq
next_seq-suc n small = omega (arith, small)

push-IsRing :
    (n : ℕ) (ring : EventRing) (e : Event)
    → suc n < 2 ^ 64
    → IsRing n ring
    → IsRing (suc n) (push ring e)
unfolding push_error push_output
push-IsRing n ring (failed time_ms preset_id agent_id message) small h =
    rw (h.counted, next_seq-suc n small)
      record {
        counted = refl;
        errors = push_back-IsBuffer error_seq n ring.errors _ h.errors (omega arith);
        outputs = later-IsBuffer output_seq n ring.outputs h.outputs;
      }
push-IsRing n ring (put_out time_ms channel value) small h =
    rw (h.counted, next_seq-suc n small)
      record {
        counted = refl;
        errors = later-IsBuffer error_seq n ring.errors h.errors;
        outputs = push_back-IsBuffer output_seq n ring.outputs _ h.outputs (omega arith);
      }

push_all-grown :
    (n : ℕ) (ring : EventRing) (events : List Event)
    → n + length events < 2 ^ 64
    → IsRing n ring
    → IsRing (n + length events) (push_all ring events)
push_all-grown n ring [] small h = subst (λ k. IsRing k ring) (omega arith) h
push_all-grown n ring (e ∷ events) small h =
    subst (λ k. IsRing k (push_all (push ring e) events)) (omega arith)
      (push_all-grown (suc n) (push ring e) events (omega (arith, small))
        (push-IsRing n ring e (omega (arith, small)) h))

new-IsRing : IsRing 0 new
unfolding new
new-IsRing = record {
  counted = refl;
  errors = record { ascending = tt; at_most = tt; bounded = omega arith };
  outputs = record { ascending = tt; at_most = tt; bounded = omega arith };
}

-- After fewer than 2^64 events in any order, each buffer holds at most 200 records, with ascending
-- numbers that are at most the number of the events.
pub push_all-IsRing :
    (events : List Event) → length events < 2 ^ 64 → IsRing (length events) (push_all new events)
push_all-IsRing events small =
    subst (λ k. IsRing k (push_all new events)) (omega arith)
      (push_all-grown 0 new events (omega (arith, small)) new-IsRing)

-- After fewer than 2^64 events, the errors of a preset behind `since` are a page of them, of whatever
-- length, and then the errors behind the last one of the page: polling with that number as the next
-- `since` loses no record of the buffer and gives none twice.
pub collect_errors-page :
    (events : List Event) (preset_id : Option String) (since limit : ℕ)
    → length events < 2 ^ 64
    → let ring = push_all new events in
      let page = collect_errors ring preset_id since limit in
      retain (of_preset preset_id) (after error_seq since ring.errors)
      ≡ page
        ++ retain (of_preset preset_id) (after error_seq (cursor error_seq since page) ring.errors)
unfolding collect_errors
collect_errors-page events preset_id since limit small =
    page-lem error_seq (of_preset preset_id) limit since 0 (push_all new events).errors
      (push_all-IsRing events small).errors.ascending

-- After fewer than 2^64 events, the outputs of a channel behind `since` are a page of them, of whatever
-- length, and then the outputs behind the last one of the page.
pub collect_outputs-page :
    (events : List Event) (channel : Option String) (since limit : ℕ)
    → length events < 2 ^ 64
    → let ring = push_all new events in
      let page = collect_outputs ring channel since limit in
      retain (of_channel channel) (after output_seq since ring.outputs)
      ≡ page
        ++ retain
            (of_channel channel)
            (after output_seq (cursor output_seq since page) ring.outputs)
unfolding collect_outputs
collect_outputs-page events channel since limit small =
    page-lem output_seq (of_channel channel) limit since 0 (push_all new events).outputs
      (push_all-IsRing events small).outputs.ascending
