-- ===== src/Id/Fresh.antt =====
-- The ids that `update_ids` of id.rs gives out are new and all different.
use modular_agent_core.Prelude.{
  ℕ, ◌+◌, ◌%◌, ◌^◌, ◌≤◌, ◌<◌, ◌≡◌, ◌≢◌, refl, String, Bool, false, List, [], ◌∷◌, map, any, length,
  arith, ◌==◌, eq_iff, Bool-cases, inl, inr,
}
use modular_agent_core.Decimal.{to_string, to_string-injective}
use modular_agent_core.IndexMap
use modular_agent_core.IndexMap.{IndexMap}
use modular_agent_core.Spec.{AgentSpec, ConnectionSpec}
use modular_agent_core.Id.{new_id, renumber, update_ids}

abbrev pub ids_of : List AgentSpec → List String
ids_of agents = map (λ (agent : AgentSpec). agent.id) agents

abbrev pub holds_id : String → List String → Bool
holds_id id l = any (λ k. k == id) l

-- No text stands in the list twice.
abbrev pub NoneTwice : List String → Type 0
NoneTwice [] = Unit
NoneTwice (id ∷ l) = (holds_id id l ≡ false) × NoneTwice l

to_string-ne : (n m : ℕ) → n ≢ m → (to_string n == to_string m) ≡ false
to_string-ne n m h = elim (Bool-cases (to_string n == to_string m)) [
  | inl e ↦ elim (h (to_string-injective n m ((eq_iff (to_string n) (to_string m)).0 e))) [ ]
  | inr e ↦ e
]

next_counter : (c : ℕ) → c + 1 < 2 ^ 64 → (c + 1) % 2 ^ 64 ≡ c + 1
next_counter c h = omega arith

-- No id that is given out is that of an earlier number.
renumber-later :
    (agents : List AgentSpec) (ids : IndexMap String) (c k : ℕ)
    → c + length agents ≤ 2 ^ 64
    → k < c
    → holds_id (to_string k) (ids_of (renumber agents ids c).0) ≡ false
unfolding renumber new_id
renumber-later [] ids c k h lt = refl
renumber-later (agent ∷ []) ids c k h lt = ground (arith, to_string-ne c k)
renumber-later (agent ∷ agent' ∷ agents) ids c k h lt =
    let e : (c + 1) % 2 ^ 64 ≡ c + 1 = next_counter c (omega arith) in
    let rest =
      renumber-later (agent' ∷ agents) (IndexMap.insert ids agent.id (to_string c))
        ((c + 1) % 2 ^ 64) k (omega arith) (omega arith) in
    ground (arith, to_string-ne c k, rest)

renumber-NoneTwice :
    (agents : List AgentSpec) (ids : IndexMap String) (c : ℕ)
    → c + length agents ≤ 2 ^ 64
    → NoneTwice (ids_of (renumber agents ids c).0)
unfolding renumber new_id
renumber-NoneTwice [] ids c h = tt
renumber-NoneTwice (agent ∷ []) ids c h = (refl, tt)
renumber-NoneTwice (agent ∷ agent' ∷ agents) ids c h =
    let e : (c + 1) % 2 ^ 64 ≡ c + 1 = next_counter c (omega arith) in
    let ids' = IndexMap.insert ids agent.id (to_string c) in
    (
      renumber-later (agent' ∷ agents) ids' ((c + 1) % 2 ^ 64) c (omega arith) (omega arith),
      renumber-NoneTwice (agent' ∷ agents) ids' ((c + 1) % 2 ^ 64) (omega arith),
    )

-- The agents of a specification get ids that are all different, as long as the counter does not wrap
-- round on the way.
pub update_ids-NoneTwice :
    (agents : List AgentSpec) (connections : List ConnectionSpec) (counter : ℕ)
    → counter + length agents ≤ 2 ^ 64
    → NoneTwice (ids_of (update_ids agents connections counter).0)
unfolding update_ids
update_ids-NoneTwice agents connections counter h =
    renumber-NoneTwice agents IndexMap.empty counter h
