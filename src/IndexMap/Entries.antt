-- ===== src/IndexMap/Entries.antt =====
-- The entries of a map, in order: the list behind `IndexMap`.
use modular_agent_core.Prelude.{
  String, ◌≡◌, refl, ◌∙◌, Bool, Option, none, some, List, [], ◌∷◌, arith, ◌==◌, eq_iff,
  if◌then◌else◌, any, Bool-cases, inl, inr,
}

abbrev pub Assoc {ℓ} : Type ℓ → Type ℓ
Assoc V = List (String × V)

module _ {ℓ} {V : Type ℓ} where
  abbrev pub lookup : String → Assoc V → Option V
  lookup k [] = none
  lookup k ((j, v) ∷ l) = if j == k then some v else lookup k l

  -- No key stands twice.
  abbrev pub IsDistinct : Assoc V → Type ℓ
  IsDistinct [] = Unit
  IsDistinct ((k, v) ∷ l) = (lookup k l ≡ none) × IsDistinct l

  -- A new key goes to the end, an old one keeps its place.
  abbrev pub put : String → V → Assoc V → Assoc V
  put k v [] = (k, v) ∷ []
  put k v ((j, w) ∷ l) = if j == k then (j, v) ∷ l else (j, w) ∷ put k v l

  abbrev behind_head : String × V → Assoc V → Assoc V
  behind_head e [] = e ∷ []
  behind_head e (x ∷ l) = x ∷ e ∷ l

  -- The last entry in front of the others.
  abbrev last_first : Assoc V → Assoc V
  last_first [] = []
  last_first (e ∷ l) = behind_head e (last_first l)

  -- The last entry fills the place of the one that is removed.
  abbrev pub swap_out : String → Assoc V → Assoc V
  swap_out k [] = []
  swap_out k ((j, v) ∷ l) = if j == k then last_first l else (j, v) ∷ swap_out k l

  -- The others keep their order.
  abbrev pub shift_out : String → Assoc V → Assoc V
  shift_out k [] = []
  shift_out k ((j, v) ∷ l) = if j == k then l else (j, v) ∷ shift_out k l

  abbrev pub keep : (String → V → Bool) → Assoc V → Assoc V
  keep p [] = []
  keep p ((k, v) ∷ l) = let rest = keep p l in if p k v then (k, v) ∷ rest else rest

  pub lookup-put :
      (k j : String) (v : V) (l : Assoc V)
      → lookup j (put k v l) ≡ (if k == j then some v else lookup j l)
  lookup-put k j v [] = refl
  lookup-put k j v ((i, w) ∷ l) =
      ground (arith, eq_iff k j, eq_iff i k, eq_iff i j, lookup-put k j v l)

  pub put-IsDistinct : (k : String) (v : V) (l : Assoc V) → IsDistinct l → IsDistinct (put k v l)
  put-IsDistinct k v [] d = (refl, tt)
  put-IsDistinct k v ((i, w) ∷ l) d =
      ground (arith, eq_iff i k, eq_iff k i, lookup-put k i v l, put-IsDistinct k v l)

  lookup-behind_head :
      (j k : String) (v : V) (l : Assoc V)
      → lookup k l ≡ none
      → lookup j (behind_head (k, v) l) ≡ (if k == j then some v else lookup j l)
  lookup-behind_head j k v [] h = refl
  lookup-behind_head j k v ((i, w) ∷ l) h = ground (arith, eq_iff k j, eq_iff i j, eq_iff i k)

  behind_head-IsDistinct :
      (k : String) (v : V) (l : Assoc V)
      → lookup k l ≡ none
      → IsDistinct l
      → IsDistinct (behind_head (k, v) l)
  behind_head-IsDistinct k v [] h d = (refl, tt)
  behind_head-IsDistinct k v ((i, w) ∷ l) h d = ground (arith, eq_iff k i, eq_iff i k)

  lookup-last_first :
      (j : String) (l : Assoc V) → IsDistinct l → lookup j (last_first l) ≡ lookup j l
  lookup-last_first j [] d = refl
  lookup-last_first j ((k, v) ∷ l) d =
      lookup-behind_head j k v (last_first l) (lookup-last_first k l d.1 ∙ d.0)
      ∙ ground (arith, lookup-last_first j l d.1)

  last_first-IsDistinct : (l : Assoc V) → IsDistinct l → IsDistinct (last_first l)
  last_first-IsDistinct [] d = tt
  last_first-IsDistinct ((k, v) ∷ l) d =
      behind_head-IsDistinct k v (last_first l) (lookup-last_first k l d.1 ∙ d.0)
        (last_first-IsDistinct l d.1)

  pub lookup-swap_out :
      (k j : String) (l : Assoc V)
      → IsDistinct l
      → lookup j (swap_out k l) ≡ (if k == j then none else lookup j l)
  lookup-swap_out k j [] d = ground arith
  lookup-swap_out k j ((i, v) ∷ l) d = ground (
    arith,
    eq_iff i k,
    eq_iff i j,
    eq_iff k j,
    lookup-swap_out k j l d.1,
    lookup-last_first j l d.1,
  )

  pub swap_out-IsDistinct : (k : String) (l : Assoc V) → IsDistinct l → IsDistinct (swap_out k l)
  swap_out-IsDistinct k [] d = tt
  swap_out-IsDistinct k ((i, v) ∷ l) d =
      ground
        (arith, lookup-swap_out k i l d.1, swap_out-IsDistinct k l d.1, last_first-IsDistinct l d.1)

  pub lookup-shift_out :
      (k j : String) (l : Assoc V)
      → IsDistinct l
      → lookup j (shift_out k l) ≡ (if k == j then none else lookup j l)
  lookup-shift_out k j [] d = ground arith
  lookup-shift_out k j ((i, v) ∷ l) d =
      ground (arith, eq_iff i k, eq_iff i j, eq_iff k j, lookup-shift_out k j l d.1)

  pub shift_out-IsDistinct : (k : String) (l : Assoc V) → IsDistinct l → IsDistinct (shift_out k l)
  shift_out-IsDistinct k [] d = tt
  shift_out-IsDistinct k ((i, v) ∷ l) d =
      ground (arith, lookup-shift_out k i l d.1, shift_out-IsDistinct k l d.1)

  abbrev pub kept : (String → V → Bool) → String → Option V → Option V
  kept p k none = none
  kept p k (some v) = if p k v then some v else none

  pub lookup-keep :
      (p : String → V → Bool) (j : String) (l : Assoc V)
      → IsDistinct l
      → lookup j (keep p l) ≡ kept p j (lookup j l)
  lookup-keep p j [] d = refl
  lookup-keep p j ((i, v) ∷ l) d = elim (Bool-cases (i == j)) [
    | inl e ↦ same i v l d.0 (lookup-keep p j l d.1) ((eq_iff i j).0 e) e
    | inr e ↦ ground (arith, lookup-keep p j l d.1)
  ]
    where
      same :
          (i : String) (v : V) (l : Assoc V)
          → lookup i l ≡ none
          → lookup j (keep p l) ≡ kept p j (lookup j l)
          → i ≡ j
          → (i == j) ≡ Bool.true
          → lookup j (keep p ((i, v) ∷ l)) ≡ kept p j (lookup j ((i, v) ∷ l))
      same i v l h ih e t = ground arith

  pub keep-IsDistinct : (p : String → V → Bool) (l : Assoc V) → IsDistinct l → IsDistinct (keep p l)
  keep-IsDistinct p [] d = tt
  keep-IsDistinct p ((i, v) ∷ l) d = ground (arith, lookup-keep p i l d.1, keep-IsDistinct p l d.1)

  abbrev pub map_values : (V → V) → Assoc V → Assoc V
  map_values f [] = []
  map_values f ((k, v) ∷ l) = (k, f v) ∷ map_values f l

  abbrev pub mapped : (V → V) → Option V → Option V
  mapped f none = none
  mapped f (some v) = some (f v)

  pub lookup-map_values :
      (f : V → V) (j : String) (l : Assoc V) → lookup j (map_values f l) ≡ mapped f (lookup j l)
  lookup-map_values f j [] = refl
  lookup-map_values f j ((i, v) ∷ l) = ground (arith, lookup-map_values f j l)

  pub map_values-IsDistinct : (f : V → V) (l : Assoc V) → IsDistinct l → IsDistinct (map_values f l)
  map_values-IsDistinct f [] d = tt
  map_values-IsDistinct f ((i, v) ∷ l) d =
      ground (arith, lookup-map_values f i l, map_values-IsDistinct f l d.1)

  abbrev pub keys_where : (V → Bool) → Assoc V → List String
  keys_where p [] = []
  keys_where p ((k, v) ∷ l) = let rest = keys_where p l in if p v then k ∷ rest else rest

  abbrev pub holds : (V → Bool) → Option V → Bool
  holds p none = Bool.false
  holds p (some v) = p v

  pub mem-keys_where :
      (p : V → Bool) (j : String) (l : Assoc V)
      → IsDistinct l
      → any (λ k. k == j) (keys_where p l) ≡ holds p (lookup j l)
  mem-keys_where p j [] d = refl
  mem-keys_where p j ((i, v) ∷ l) d = elim (Bool-cases (i == j)) [
    | inl e ↦ ground (arith, mem-keys_where p j l d.1, eq_iff i j)
    | inr e ↦ ground (arith, mem-keys_where p j l d.1)
  ]
