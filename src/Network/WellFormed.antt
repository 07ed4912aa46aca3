-- ===== src/Network/WellFormed.antt =====
-- The routing table of modular_agent.rs stores no empty list and no connection twice.
use modular_agent_core.Prelude.{
  String, ◌≡◌, refl, Bool, true, false, not, ◌&&◌, Option, none, some, List, [], ◌∷◌, ◌++◌, arith,
  ◌==◌, eq_iff, any, any-append, retain, if◌then◌else◌, sym, ◌∙◌, Option-cases, Bool-cases, inl,
  inr,
}
use modular_agent_core.IndexMap
use modular_agent_core.IndexMap.{
  get-empty, get-insert, get-swap_remove, get-map_values, mem-keys_where, get-remove_all, mapped,
  holds,
}
use modular_agent_core.Spec.{ConnectionSpec}
use modular_agent_core.Network.{
  ConnectionTarget, Connections, target_of, matches, is_empty, add_to, add_connection_internal,
  remove_from, remove_connection_internal, without_target, remove_agent_edges,
}

abbrev target_eq : ConnectionTarget → ConnectionTarget → Bool
target_eq (x, y, z) (a, b, c) = a == x && b == y && c == z

abbrev pub NoRepeats : List ConnectionTarget → Type 0
NoRepeats [] = Unit
NoRepeats (t ∷ ts) = (any (target_eq t) ts ≡ false) × NoRepeats ts

-- What is stored under a key: nothing, or a list that is not empty and holds no target twice.
abbrev pub IsEntry : Option (List ConnectionTarget) → Type 0
IsEntry none = Unit
IsEntry (some ts) = (is_empty ts ≡ false) × NoRepeats ts

pub record IsWellFormed (m : Connections) : Type 0 where
  pub entry : (source : String) → IsEntry (IndexMap.get m source)

target_eq_sym : (t u : ConnectionTarget) → target_eq t u ≡ target_eq u t
target_eq_sym (x, y, z) (a, b, c) =
    ground (arith, eq_iff a x, eq_iff b y, eq_iff c z, eq_iff x a, eq_iff y b, eq_iff z c)

NoRepeats-snoc :
    (ts : List ConnectionTarget) (t : ConnectionTarget)
    → NoRepeats ts
    → any (target_eq t) ts ≡ false
    → NoRepeats (ts ++ t ∷ [])
NoRepeats-snoc [] t h k = (refl, tt)
NoRepeats-snoc (u ∷ ts) t h k =
    ground (arith, any-append (target_eq u) ts (t ∷ []), target_eq_sym t u, NoRepeats-snoc ts t h.1)

any-retain-false :
    (q p : ConnectionTarget → Bool) (ts : List ConnectionTarget)
    → any q ts ≡ false
    → any q (retain p ts) ≡ false
any-retain-false q p [] h = refl
any-retain-false q p (t ∷ ts) h = ground (arith, any-retain-false q p ts)

NoRepeats-retain :
    (p : ConnectionTarget → Bool) (ts : List ConnectionTarget)
    → NoRepeats ts
    → NoRepeats (retain p ts)
NoRepeats-retain p [] h = tt
NoRepeats-retain p (t ∷ ts) h =
    ground (arith, any-retain-false (target_eq t) p ts h.0, NoRepeats-retain p ts h.1)

is_empty-snoc :
    (ts : List ConnectionTarget) (t : ConnectionTarget) → is_empty (ts ++ t ∷ []) ≡ false
is_empty-snoc [] t = refl
is_empty-snoc (u ∷ ts) t = refl

IsEntry-if :
    (b : Bool) (o o' : Option (List ConnectionTarget))
    → (b ≡ true → IsEntry o)
    → (b ≡ false → IsEntry o')
    → IsEntry (if b then o else o')
IsEntry-if true o o' h k = h refl
IsEntry-if false o o' h k = k refl

insert-IsWellFormed :
    (m : Connections) (k : String) (ts : List ConnectionTarget)
    → IsWellFormed m
    → IsEntry (some ts)
    → IsWellFormed (IndexMap.insert m k ts)
insert-IsWellFormed m k ts w h = record {
  entry = λ s. rw get-insert (IsEntry-if (k == s) _ _ (λ _. h) (λ _. w.entry s));
}

-- A key that is taken out after it was written.
remove_written-IsWellFormed :
    (m : Connections) (k : String) (ts : List ConnectionTarget)
    → IsWellFormed m
    → IsWellFormed (IndexMap.swap_remove (IndexMap.insert m k ts) k)
remove_written-IsWellFormed m k ts w = record {
  entry = λ s.
      rw get-swap_remove
        (IsEntry-if (k == s) _ _ (λ _. tt) (λ other. rw get-insert (rw other (w.entry s))));
}

-- A routing table without empty lists and repeated connections stays so when a connection is added
-- or refused.
pub add_connection_internal-IsWellFormed :
    (c : ConnectionSpec) (m : Connections)
    → IsWellFormed m
    → IsWellFormed (add_connection_internal c m).1
unfolding add_connection_internal
add_connection_internal-IsWellFormed c m w = elim (Option-cases (IndexMap.get m c.source)) [
  | inl e ↦ rw (e, add_to) (insert-IsWellFormed m c.source (target_of c ∷ []) w (refl, (refl, tt)))
  | inr (targets, e) ↦ elim (Bool-cases (any (matches c) targets)) [
    | inl present ↦ rw (e, add_to) (rw present w)
    | inr absent ↦
        let (_, distinct) : IsEntry (some targets) = rw e at (w.entry c.source) in
        rw (e, add_to)
          (rw absent (
            insert-IsWellFormed m c.source (targets ++ target_of c ∷ []) w (
              is_empty-snoc targets (target_of c),
              NoRepeats-snoc targets (target_of c) distinct absent,
            )))
  ]
]

-- A routing table without empty lists and repeated connections stays so when a connection is
-- removed.
pub remove_connection_internal-IsWellFormed :
    (c : ConnectionSpec) (m : Connections)
    → IsWellFormed m
    → IsWellFormed (remove_connection_internal c m)
unfolding remove_connection_internal
remove_connection_internal-IsWellFormed c m w = elim (Option-cases (IndexMap.get m c.source)) [
  | inl e ↦ rw (e, remove_from) w
  | inr (targets, e) ↦
      let left = retain (λ t. not (matches c t)) targets in
      let (_, distinct) : IsEntry (some targets) = rw e at (w.entry c.source) in
      elim (Bool-cases (is_empty left)) [
        | inl gone ↦ rw (e, remove_from) (rw gone (remove_written-IsWellFormed m c.source left w))
        | inr stays ↦
            rw (e, remove_from)
              (rw stays (
                insert-IsWellFormed m c.source left w
                  (stays, NoRepeats-retain (λ t. not (matches c t)) targets distinct)))
      ]
]

swept-IsEntry :
    (a : String) (o : Option (List ConnectionTarget))
    → IsEntry o
    → holds is_empty (mapped (without_target a) o) ≡ false
    → IsEntry (mapped (without_target a) o)
swept-IsEntry a none h e = tt
swept-IsEntry a (some ts) h e = (e, NoRepeats-retain (λ t. not (t.0 == a)) ts h.1)

-- A routing table without empty lists and repeated connections stays so when an agent is cut off.
pub remove_agent_edges-IsWellFormed :
    (a : String) (m : Connections) → IsWellFormed m → IsWellFormed (remove_agent_edges a m)
unfolding remove_agent_edges
remove_agent_edges-IsWellFormed a m w =
    let swept : Connections = IndexMap.map_values (without_target a) m in
    let emptied : List String = IndexMap.keys_where is_empty swept in
    record {
      entry = λ s. rw get-swap_remove (
          IsEntry-if (a == s) none (IndexMap.get (IndexMap.remove_all emptied swept) s) (λ _. tt)
            (λ _. rw get-remove_all (
              IsEntry-if (any (λ k. k == s) emptied) none (IndexMap.get swept s) (λ _. tt)
                (λ stays. rw get-map_values (
                  swept-IsEntry a (IndexMap.get m s) (w.entry s) (
                    rw (← get-map_values (without_target a) m s)
                      (sym (mem-keys_where is_empty swept s) ∙ stays)))))));
    }

-- The table of a new runtime is well formed.
pub empty-IsWellFormed : IsWellFormed IndexMap.empty
empty-IsWellFormed = record { entry = λ s. rw get-empty tt }
