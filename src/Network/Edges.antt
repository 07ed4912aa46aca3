-- ===== src/Network/Edges.antt =====
-- The routing table of modular_agent.rs as a set of connections: what each operation does to it.
use modular_agent_core.Prelude.{
  String, ◌≡◌, refl, Bool, true, not, ◌&&◌, ◌||◌, [], ◌∷◌, ◌++◌, arith, ◌==◌, eq_iff, any,
  any-append, any-retain, retain, if◌then◌else◌, ap, ◌∙◌, Option-cases, sym, inl, inr,
}
use modular_agent_core.IndexMap
use modular_agent_core.IndexMap.{
  IndexMap, get-insert, get-swap_remove, get-map_values, mem-keys_where, get-remove_all,
}
use modular_agent_core.Error.{connection_already_exists, ok, err}
use modular_agent_core.Spec.{ConnectionSpec, connection_eq, connection_eq→eq}
use modular_agent_core.Network.{
  ConnectionTarget, Connections, target_of, matches, is_empty, add_to, add_connection_internal,
  remove_from, remove_connection_internal, without_target, remove_agent_edges, targets_of,
}

-- A connection is in the table.
unfoldable pub has_edge : Connections → ConnectionSpec → Bool
unfolding targets_of
has_edge m c = any (matches c) (targets_of m c.source)

retain-targets_of :
    (c : ConnectionSpec) (m : Connections) (s : String)
    → targets_of (remove_connection_internal c m) s
      ≡ (if c.source == s then retain (λ t. not (matches c t)) (targets_of m s) else targets_of m s)
unfolding targets_of remove_connection_internal
retain-targets_of c m s = elim (Option-cases (IndexMap.get m c.source)) [
  | inl e ↦ rw (e, remove_from) (ground (arith, eq_iff c.source s))
  | inr (targets, e) ↦
      let kept = retain (λ t. not (matches c t)) targets in
      rw (e, remove_from)
        (ground (
          arith,
          eq_iff c.source s,
          get-swap_remove (IndexMap.insert m c.source kept) c.source s,
          get-insert m c.source s kept,
        ))
]

targets_of-remove_agent_edges :
    (a : String) (m : Connections) (s : String)
    → targets_of (remove_agent_edges a m) s
      ≡ (if a == s then [] else without_target a (targets_of m s))
unfolding targets_of remove_agent_edges
targets_of-remove_agent_edges a m s =
    let swept = IndexMap.map_values (without_target a) m in
    ground (
      arith,
      get-swap_remove (IndexMap.remove_all (IndexMap.keys_where is_empty swept) swept) a s,
      get-remove_all (IndexMap.keys_where is_empty swept) swept s,
      mem-keys_where is_empty swept s,
      get-map_values (without_target a) m s,
    )

-- Adding a connection fails exactly if it is there, and then changes nothing.
pub add_connection_internal-result :
    (c : ConnectionSpec) (m : Connections)
    → (add_connection_internal c m).0
      ≡ (if has_edge m c then err connection_already_exists else ok tt)
unfolding add_connection_internal has_edge
add_connection_internal-result c m = ground arith

targets_of-add_connection_internal :
    (c : ConnectionSpec) (m : Connections) (s : String)
    → targets_of (add_connection_internal c m).1 s ≡ (
        if not (has_edge m c) && c.source == s
        then targets_of m s ++ target_of c ∷ []
        else targets_of m s)
unfolding targets_of has_edge add_connection_internal
targets_of-add_connection_internal c m s = elim (Option-cases (IndexMap.get m c.source)) [
  | inl e ↦
      rw (e, add_to) (ground (arith, eq_iff c.source s, get-insert m c.source s (target_of c ∷ [])))
  | inr (targets, e) ↦
      rw (e, add_to)
        (ground (arith, eq_iff c.source s, get-insert m c.source s (targets ++ target_of c ∷ [])))
]

has_edge_of_eq :
    (c d : ConnectionSpec) (m : Connections)
    → connection_eq c d ≡ true
    → has_edge m d ≡ has_edge m c
has_edge_of_eq c d m h = ap (has_edge m) (sym (connection_eq→eq c d h))

has_edge_lem :
    (m : Connections) (d : ConnectionSpec) → has_edge m d ≡ any (matches d) (targets_of m d.source)
unfolding has_edge
has_edge_lem m d = refl

-- After adding a connection the table holds it and what it held, whether the call succeeds or not.
pub has_edge-add_connection_internal :
    (c d : ConnectionSpec) (m : Connections)
    → has_edge (add_connection_internal c m).1 d ≡ (connection_eq c d || has_edge m d)
has_edge-add_connection_internal c d m = ground (
  arith,
  has_edge_lem (add_connection_internal c m).1 d
      ∙ ap (any (matches d)) (targets_of-add_connection_internal c m d.source),
  has_edge_lem m d,
  any-append (matches d) (targets_of m d.source) (target_of c ∷ []),
  has_edge_of_eq c d m,
)

-- Of a table that holds `d`, whatever passes `matches d` is its target.
matches→eq : (d : ConnectionSpec) (t : ConnectionTarget) → matches d t ≡ true → t ≡ target_of d
matches→eq d (x, y, z) h =
    ground (arith, eq_iff x d.target, eq_iff y d.source_handle, eq_iff z d.target_handle)

-- Removing a connection takes out that one and no other.
pub has_edge-remove_connection_internal :
    (c d : ConnectionSpec) (m : Connections)
    → has_edge (remove_connection_internal c m) d ≡ (not (connection_eq c d) && has_edge m d)
has_edge-remove_connection_internal c d m = ground (
  arith,
  has_edge_lem (remove_connection_internal c m) d
      ∙ ap (any (matches d)) (retain-targets_of c m d.source),
  has_edge_lem m d,
  any-retain (matches d) (λ t. not (matches c t)) (not (matches c (target_of d)))
      (targets_of m d.source) (λ t h. ap (λ u. not (matches c u)) (matches→eq d t h)),
  eq_iff c.target d.target,
  eq_iff d.target c.target,
  eq_iff c.source_handle d.source_handle,
  eq_iff d.source_handle c.source_handle,
  eq_iff c.target_handle d.target_handle,
  eq_iff d.target_handle c.target_handle,
)

-- Removing an agent takes out the connections from it and to it, and no other.
pub has_edge-remove_agent_edges :
    (a : String) (d : ConnectionSpec) (m : Connections)
    → has_edge (remove_agent_edges a m) d
      ≡ (not (a == d.source) && not (d.target == a) && has_edge m d)
has_edge-remove_agent_edges a d m = ground (
  arith,
  has_edge_lem (remove_agent_edges a m) d
      ∙ ap (any (matches d)) (targets_of-remove_agent_edges a m d.source),
  has_edge_lem m d,
  any-retain (matches d) (λ t. not (t.0 == a)) (not (d.target == a)) (targets_of m d.source)
      (λ t h. ap (λ (u : ConnectionTarget). not (u.0 == a)) (matches→eq d t h)),
)
