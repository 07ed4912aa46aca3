-- ===== src/Tool/Tracker/Behind.antt =====
-- The order of the flows in the trackers of tool.rs: a flow goes only after 1024 others came behind it.
use modular_agent_core.Prelude.{
  ℕ, suc, ◌≤◌, ◌<◌, String, ◌≡◌, refl, sym, ap, ◌∙◌, true, false, Bool-cases, inl, inr, List, [],
  ◌∷◌, ◌++◌, length, length-append, leb, arith, ◌==◌, eq_iff, if◌then◌else◌,
}
use modular_agent_core.IndexMap
use modular_agent_core.Tool.Tracker.{
  max_tracked_ctx_keys, Tracked, in_order, entry_of, has_key, pop_oldest, push_key, add_key, track,
  put_entry, keep_entry, entry_of-keep_entry, IsTracked,
}

-- How many flows stand behind this one in the order.
abbrev pub behind : List String → String → ℕ
behind [] key = 0
behind (k ∷ order) key = if k == key then length order else behind order key

abbrev pub without_oldest : List String → List String
without_oldest [] = []
without_oldest (oldest ∷ order) = order

-- First in, first out: a new flow goes to the end, and the oldest goes if there are 1024.
abbrev pub in_line : List String → String → List String
in_line order key =
    (if leb max_tracked_ctx_keys (length order) then without_oldest order else order) ++ key ∷ []

behind-length : (order : List String) (key : String) → behind order key ≤ length order
behind-length [] key = omega arith
behind-length (k ∷ order) key = ground (arith, behind-length order key)

behind-without_oldest :
    (order : List String) (key : String) → behind (without_oldest order) key ≤ behind order key
behind-without_oldest [] key = omega arith
behind-without_oldest (k ∷ order) key = ground (arith, behind-length order key)

behind-push :
    (order : List String) (key k : String)
    → (k == key) ≡ false
    → behind (order ++ k ∷ []) key ≤ suc (behind order key)
behind-push [] key k apart = rw apart (omega arith)
behind-push (j ∷ order) key k apart =
    ground (arith, length-append order (k ∷ []), behind-push order key k apart)

behind-in_line :
    (order : List String) (key k : String)
    → (k == key) ≡ false
    → behind (in_line order k) key ≤ suc (behind order key)
behind-in_line order key k apart = elim (Bool-cases (leb max_tracked_ctx_keys (length order))) [
  | inl full ↦ rw full (
      omega
        (arith, behind-push (without_oldest order) key k apart, behind-without_oldest order key))
  | inr room ↦ rw room (behind-push order key k apart)
]

pub behind-absent :
    (order : List String) (key : String) → in_order order key ≡ false → behind order key ≡ 0
behind-absent [] key absent = refl
behind-absent (k ∷ order) key absent = ground (arith, absent, behind-absent order key)

behind-last :
    (order : List String) (key : String)
    → in_order order key ≡ false
    → behind (order ++ key ∷ []) key ≡ 0
behind-last [] key absent = ground (arith, eq_iff key key)
behind-last (k ∷ order) key absent = ground (arith, absent, behind-last order key)

without_oldest-absent :
    (order : List String) (key : String)
    → in_order order key ≡ false
    → in_order (without_oldest order) key ≡ false
without_oldest-absent [] key absent = refl
without_oldest-absent (k ∷ order) key absent = ground (arith, absent)

in_line-last :
    (order : List String) (key : String)
    → in_order order key ≡ false
    → behind (in_line order key) key ≡ 0
in_line-last order key absent = elim (Bool-cases (leb max_tracked_ctx_keys (length order))) [
  | inl full ↦
      rw full (behind-last (without_oldest order) key (without_oldest-absent order key absent))
  | inr room ↦ rw room (behind-last order key absent)
]

module _ {V : Type 0} where
  pop_oldest-order :
      (t : Tracked V) (order : List String)
      → t.ctx_key_order ≡ order
      → (pop_oldest t order).ctx_key_order ≡ without_oldest order
  unfolding pop_oldest
  pop_oldest-order t [] e = e
  pop_oldest-order t (oldest ∷ order) e = refl

  -- A flow that is tracked keeps its place.
  pub keep_entry-known :
      (t : Tracked V) (key : String) (v : V)
      → has_key t key ≡ true
      → (keep_entry t key v).ctx_key_order ≡ t.ctx_key_order
  unfolding keep_entry put_entry track
  keep_entry-known t key v known = rw known refl

  pub keep_entry-new :
      (t : Tracked V) (key : String) (v : V)
      → has_key t key ≡ false
      → (keep_entry t key v).ctx_key_order ≡ in_line t.ctx_key_order key
  unfolding keep_entry put_entry track add_key push_key
  keep_entry-new t key v new =
      elim (Bool-cases (leb max_tracked_ctx_keys (length t.ctx_key_order))) [
        | inl full ↦
            rw (new, full)
              (ap (λ order. order ++ key ∷ []) (pop_oldest-order t t.ctx_key_order refl))
        | inr room ↦ rw (new, room) refl
      ]

  pop_oldest-others :
      (t : Tracked V) (order : List String) (key : String)
      → leb max_tracked_ctx_keys (length order) ≡ true
      → suc (behind order key) < max_tracked_ctx_keys
      → entry_of (pop_oldest t order) key ≡ entry_of t key
  unfolding pop_oldest
  pop_oldest-others t [] key full near = refl
  pop_oldest-others t (oldest ∷ order) key full near =
      ground (arith, IndexMap.get-swap_remove t.entries oldest key, full, near)

  track-others :
      (t : Tracked V) (key k : String)
      → suc (behind t.ctx_key_order key) < max_tracked_ctx_keys
      → entry_of (track t k) key ≡ entry_of t key
  unfolding track add_key push_key
  track-others t key k near = elim (Bool-cases (has_key t k)) [
    | inl known ↦ rw known refl
    | inr new ↦ elim (Bool-cases (leb max_tracked_ctx_keys (length t.ctx_key_order))) [
      | inl full ↦ rw (new, full) (pop_oldest-others t t.ctx_key_order key full near)
      | inr room ↦ rw (new, room) refl
    ]
  ]

  -- What is kept for one flow stays when another comes, as long as fewer than 1023 are behind it.
  pub keep_entry-others :
      (t : Tracked V) (key k : String) (v : V)
      → (k == key) ≡ false
      → suc (behind t.ctx_key_order key) < max_tracked_ctx_keys
      → entry_of (keep_entry t k v) key ≡ entry_of t key
  unfolding keep_entry put_entry
  keep_entry-others t key k v apart near =
      ground
        (arith, IndexMap.get-insert (track t k).entries k key v, apart, track-others t key k near)

  -- It stays without a condition when the other flow is tracked.
  pub keep_entry-known-others :
      (t : Tracked V) (key k : String) (v : V)
      → (k == key) ≡ false
      → has_key t k ≡ true
      → entry_of (keep_entry t k v) key ≡ entry_of t key
  unfolding keep_entry put_entry track
  keep_entry-known-others t key k v apart known =
      rw (known, IndexMap.get-insert t.entries k key v, apart) refl

  pub has_key-keep_entry :
      (t : Tracked V) (key : String) (v : V) → has_key (keep_entry t key v) key ≡ true
  has_key-keep_entry t key v = rw (entry_of-keep_entry t key v) refl

  pub behind-keep_entry :
      (t : Tracked V) (key k : String) (v : V)
      → (k == key) ≡ false
      → behind (keep_entry t k v).ctx_key_order key ≤ suc (behind t.ctx_key_order key)
  behind-keep_entry t key k v apart = elim (Bool-cases (has_key t k)) [
    | inl known ↦ rw (keep_entry-known t k v known) (omega arith)
    | inr new ↦ rw (keep_entry-new t k v new) (behind-in_line t.ctx_key_order key k apart)
  ]

  -- A flow keeps its entry, and at most one more flow is behind it.
  abbrev pub Kept : String → Tracked V → Tracked V → Type 0
  Kept key t t' =
      (entry_of t' key ≡ entry_of t key)
      × (behind t'.ctx_key_order key ≤ suc (behind t.ctx_key_order key))

  pub keep_entry-Kept :
      (t : Tracked V) (key k : String) (v : V)
      → (k == key) ≡ false
      → suc (behind t.ctx_key_order key) < max_tracked_ctx_keys
      → Kept key t (keep_entry t k v)
  keep_entry-Kept t key k v apart near =
      (keep_entry-others t key k v apart near, behind-keep_entry t key k v apart)

  -- A flow's own entry brings no flow behind it.
  pub behind-own :
      (t : Tracked V) (key : String) (v : V)
      → IsTracked t
      → behind (keep_entry t key v).ctx_key_order key ≤ behind t.ctx_key_order key
  behind-own t key v h = elim (Bool-cases (has_key t key)) [
    | inl known ↦ rw (keep_entry-known t key v known) (omega arith)
    | inr new ↦
        rw (keep_entry-new t key v new, in_line-last t.ctx_key_order key (sym (h.agrees key) ∙ new))
          (omega arith)
  ]
