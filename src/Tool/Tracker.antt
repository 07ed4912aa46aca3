-- ===== src/Tool/Tracker.antt =====
-- What `CallToolMessageAgent` and `LoopControlAgent` of tool.rs keep for each flow: an entry under the
-- key of the context, and the order in which the keys came, of which the oldest goes.
pub mod Behind
pub mod Flows
use mathlib.Core.Path.{subst}
use modular_agent_core.Prelude.{
  ℕ, suc, ◌≤◌, String, ◌≡◌, refl, sym, ap, ◌∙◌, Bool, true, false, Bool-cases, Option-cases, inl,
  inr, Option, none, some, List, [], ◌∷◌, ◌++◌, length, any, any-append, length-append, leb, arith,
  ◌==◌, eq_iff, if◌then◌else◌,
}
use modular_agent_core.IndexMap
use modular_agent_core.IndexMap.{IndexMap, map_laws}

abbrev pub max_tracked_ctx_keys : ℕ
max_tracked_ctx_keys = 1024

pub record Tracked (V : Type 0) : Type 0 where
  pub entries : IndexMap V
  pub ctx_key_order : List String

abbrev pub in_order : List String → String → Bool
in_order order key = any (λ k. k == key) order

abbrev Distinct : List String → Type 0
Distinct [] = Unit
Distinct (key ∷ order) = (in_order order key ≡ false) × Distinct order

push-Distinct :
    (order : List String) (key : String)
    → Distinct order
    → in_order order key ≡ false
    → Distinct (order ++ key ∷ [])
push-Distinct [] key h e = (refl, tt)
push-Distinct (k ∷ order) key h e =
    let apart : k == key ≡ false = ground arith in
    (
      ground (
        arith,
        any-append (λ j. j == k) order (key ∷ []),
        h.0,
        apart,
        eq_iff k key,
        eq_iff key k,
      ),
      push-Distinct order key h.1 (ground arith),
    )

module _ {V : Type 0} where
  -- `new`, and what `stop` leaves
  unfoldable pub nothing_tracked : Tracked V
  nothing_tracked = record { entries = IndexMap.empty; ctx_key_order = [] }

  abbrev pub entry_of : Tracked V → String → Option V
  entry_of t key = IndexMap.get t.entries key

  abbrev pub has_key : Tracked V → String → Bool
  has_key t key = IndexMap.contains_key t.entries key

  pop_oldest : Tracked V → List String → Tracked V
  pop_oldest t [] = t
  pop_oldest t (oldest ∷ order) = record {
    entries = IndexMap.swap_remove t.entries oldest;
    ctx_key_order = order;
  }

  push_key : Tracked V → String → Tracked V
  push_key t key = record t { ctx_key_order = t.ctx_key_order ++ key ∷ [] }

  add_key : Tracked V → String → Tracked V
  unfolding pop_oldest push_key
  add_key t key =
      push_key
        (if leb max_tracked_ctx_keys (length t.ctx_key_order)
          then pop_oldest t t.ctx_key_order
          else t)
        key

  -- The first halves of `mark_executed` and of `record_count`.
  unfoldable pub track : Tracked V → String → Tracked V
  unfolding add_key
  track t key = if has_key t key then t else add_key t key

  -- Their second halves.
  unfoldable pub put_entry : Tracked V → String → V → Tracked V
  put_entry t key v = record t { entries = IndexMap.insert t.entries key v }

  -- `keep_entry t key v` is a whole `record_count`.
  unfoldable pub keep_entry : Tracked V → String → V → Tracked V
  unfolding track put_entry
  keep_entry t key v = put_entry (track t key) key v

  -- At most 1024 flows are tracked, each once in the order and each with its entry.
  pub record IsTracked (t : Tracked V) : Type 0 where
    pub distinct : Distinct t.ctx_key_order
    pub agrees : (key : String) → has_key t key ≡ in_order t.ctx_key_order key
    pub bounded : length t.ctx_key_order ≤ max_tracked_ctx_keys

  pub nothing_tracked-IsTracked : IsTracked nothing_tracked
  unfolding nothing_tracked
  nothing_tracked-IsTracked = record {
    distinct = tt;
    agrees = λ key. rw (IndexMap.get-empty {V = V} key) refl;
    bounded = omega arith;
  }

  put_entry-IsTracked :
      (t : Tracked V) (key : String) (v : V)
      → IsTracked t
      → has_key t key ≡ true
      → IsTracked (put_entry t key v)
  unfolding put_entry
  put_entry-IsTracked t key v h e = record {
    distinct = h.distinct;
    agrees = λ k.
        ground
          (arith, IndexMap.get-insert t.entries key k v, h.agrees k, h.agrees key, e, eq_iff key k);
    bounded = h.bounded;
  }

  push_key-IsTracked :
      (t : Tracked V) (key : String) (v : V)
      → IsTracked t
      → has_key t key ≡ false
      → suc (length t.ctx_key_order) ≤ max_tracked_ctx_keys
      → IsTracked (put_entry (push_key t key) key v)
  unfolding put_entry push_key
  push_key-IsTracked t key v h e room = record {
    distinct = push-Distinct t.ctx_key_order key h.distinct (sym (h.agrees key) ∙ e);
    agrees = λ k. ground (
      arith,
      IndexMap.get-insert t.entries key k v,
      h.agrees k,
      any-append (λ j. j == k) t.ctx_key_order (key ∷ []),
      eq_iff key k,
    );
    bounded = omega (arith, room, length-append t.ctx_key_order (key ∷ []));
  }

  pop_oldest-IsTracked :
      (t : Tracked V) (oldest : String) (order : List String)
      → IsTracked t
      → t.ctx_key_order ≡ oldest ∷ order
      → IsTracked (pop_oldest t (oldest ∷ order))
  unfolding pop_oldest
  pop_oldest-IsTracked t oldest order h e =
      let whole = subst Distinct e h.distinct in
      record {
        distinct = whole.1;
        agrees = λ k. ground (
          arith,
          IndexMap.get-swap_remove t.entries oldest k,
          h.agrees k,
          ap (λ l. in_order l k) e,
          eq_iff oldest k,
          whole.0,
        );
        bounded = omega (arith, h.bounded, ap length e);
      }

  pop_oldest-absent :
      (t : Tracked V) (oldest : String) (order : List String) (key : String)
      → has_key t key ≡ false
      → has_key (pop_oldest t (oldest ∷ order)) key ≡ false
  unfolding pop_oldest
  pop_oldest-absent t oldest order key absent =
      ground (arith, IndexMap.get-swap_remove t.entries oldest key, absent)

  room :
      (t : Tracked V) (oldest : String) (order : List String)
      → IsTracked t
      → t.ctx_key_order ≡ oldest ∷ order
      → suc (length (pop_oldest t (oldest ∷ order)).ctx_key_order) ≤ max_tracked_ctx_keys
  unfolding pop_oldest
  room t oldest order h e = omega (arith, h.bounded, ap length e)

  popped-IsTracked :
      (t : Tracked V) (key : String) (v : V) (order : List String)
      → IsTracked t
      → has_key t key ≡ false
      → leb max_tracked_ctx_keys (length t.ctx_key_order) ≡ true
      → t.ctx_key_order ≡ order
      → IsTracked (put_entry (push_key (pop_oldest t order) key) key v)
  popped-IsTracked t key v [] h absent full e = absurd (ground (arith, full, ap length e))
  popped-IsTracked t key v (oldest ∷ order) h absent full e =
      push_key-IsTracked (pop_oldest t (oldest ∷ order)) key v
        (pop_oldest-IsTracked t oldest order h e) (pop_oldest-absent t oldest order key absent)
        (room t oldest order h e)

  pub keep_entry-IsTracked :
      (t : Tracked V) (key : String) (v : V) → IsTracked t → IsTracked (keep_entry t key v)
  unfolding keep_entry track add_key
  keep_entry-IsTracked t key v h = elim (Bool-cases (has_key t key)) [
    | inl e ↦ rw e (put_entry-IsTracked t key v h e)
    | inr e ↦ rw e (elim (Bool-cases (leb max_tracked_ctx_keys (length t.ctx_key_order))) [
      | inl full ↦ rw full (popped-IsTracked t key v t.ctx_key_order h e full refl)
      | inr room ↦ rw room (push_key-IsTracked t key v h e (ground arith))
    ])
  ]

  pub entry_of-keep_entry :
      (t : Tracked V) (key : String) (v : V) → entry_of (keep_entry t key v) key ≡ some v
  unfolding keep_entry put_entry
  entry_of-keep_entry t key v =
      ground (arith, IndexMap.get-insert (track t key).entries key key v, eq_iff key key)

  pop_oldest-entry :
      (t : Tracked V) (order : List String) (key : String)
      → entry_of t key ≡ none
      → entry_of (pop_oldest t order) key ≡ none
  unfolding pop_oldest
  pop_oldest-entry t [] key absent = absent
  pop_oldest-entry t (oldest ∷ order) key absent =
      ground (arith, IndexMap.get-swap_remove t.entries oldest key, absent)

  add_key-entry :
      (t : Tracked V) (key : String) → entry_of t key ≡ none → entry_of (add_key t key) key ≡ none
  unfolding add_key push_key
  add_key-entry t key absent =
      elim (Bool-cases (leb max_tracked_ctx_keys (length t.ctx_key_order))) [
        | inl full ↦ rw full (pop_oldest-entry t t.ctx_key_order key absent)
        | inr room ↦ rw room absent
      ]

  -- Tracking a flow leaves what is kept for it.
  pub entry_of-track : (t : Tracked V) (key : String) → entry_of (track t key) key ≡ entry_of t key
  unfolding track
  entry_of-track t key = elim (Option-cases (entry_of t key)) [
    | inl e ↦ rw e (add_key-entry t key e)
    | inr (v, e) ↦ rw e e
  ]
