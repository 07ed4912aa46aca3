-- ===== src/Definition/Reconcile.antt =====
-- What `reconcile_spec` of definition.rs leaves under a key that is not marked as stale.
use Prim.Native.String.{◌++◌ as append}
use text.Mathlib.Text.{starts_with}
use text.Mathlib.TextPositions.{starts_with-append}
use modular_agent_core.Prelude.{
  String, ◌≡◌, refl, sym, ap, ◌∙◌, Bool, true, false, not, ◌&&◌, Option, none, some, List, [], ◌∷◌,
  map, any, retain, arith, ◌==◌, eq_iff, if◌then◌else◌, Bool-cases, Option-cases, inl, inr,
}
use modular_agent_core.IndexMap
use modular_agent_core.IndexMap.{
  IndexMap, lookup, IsDistinct, get-empty, get-insert, get-shift_remove, get-entries, is_some,
}
use modular_agent_core.Value.{AgentValue}
use modular_agent_core.Spec.{AgentConfigs, AgentConfigSpec, AgentConfigSpecs}
use modular_agent_core.Definition.{
  def_has, is_stale, stale_keys, rename_key, rename_keys, fill_missing, collect_defaults,
  copy_known, copy_remaining, reorder, reconcile_configs,
}

-- The first of two options that holds a value.
abbrev pub or {ℓ} : {A : Type ℓ} → Option A → Option A → Option A
or none o = o
or (some a) o = some a

abbrev pub value_of : Option AgentConfigSpec → Option AgentValue
value_of none = none
value_of (some cs) = some cs.value

get-fill_missing :
    (l : List (String × AgentConfigSpec)) (c : AgentConfigs) (j : String)
    → IndexMap.get (fill_missing l c) j ≡ or (IndexMap.get c j) (value_of (lookup j l))
unfolding fill_missing
get-fill_missing [] c j = ground arith
get-fill_missing ((key, cs) ∷ l) c j = ground (
  arith,
  get-fill_missing l c j,
  get-fill_missing l (IndexMap.insert c key cs.value) j,
  get-insert c key j cs.value,
  eq_iff key j,
)

get-copy_remaining :
    (l : List (String × AgentValue)) (r : AgentConfigs) (j : String)
    → IndexMap.get (copy_remaining l r) j ≡ or (IndexMap.get r j) (lookup j l)
unfolding copy_remaining
get-copy_remaining [] r j = ground arith
get-copy_remaining ((key, v) ∷ l) r j = ground (
  arith,
  get-copy_remaining l r j,
  get-copy_remaining l (IndexMap.insert r key v) j,
  get-insert r key j v,
  eq_iff key j,
)

-- Whatever is copied under a key is the value that it has in `c`.
IsPart : AgentConfigs → AgentConfigs → Type 0
IsPart c r = (j : String) → or (IndexMap.get r j) (IndexMap.get c j) ≡ IndexMap.get c j

copy_known-IsPart :
    (c : AgentConfigs) (l : List (String × AgentConfigSpec)) (r : AgentConfigs)
    → IsPart c r
    → IsPart c (copy_known c l r)
unfolding copy_known IsPart
copy_known-IsPart c [] r h = h
copy_known-IsPart c ((key, cs) ∷ l) r h = elim (Option-cases (IndexMap.get c key)) [
  | inl e ↦ rw e (copy_known-IsPart c l r h)
  | inr (v, e) ↦ rw e (
      copy_known-IsPart c l (IndexMap.insert r key v)
        (λ j. ground (arith, get-insert r key j v, eq_iff key j, h j)))
]

-- Putting the keys in the definition's order changes no value.
get-reorder :
    (specs : AgentConfigSpecs) (c : AgentConfigs) (j : String)
    → IndexMap.get (reorder specs c) j ≡ IndexMap.get c j
unfolding reorder IsPart
get-reorder specs c j =
    get-copy_remaining c.entries (copy_known c specs.entries IndexMap.empty) j
    ∙ ap (or (IndexMap.get (copy_known c specs.entries IndexMap.empty) j)) (sym (get-entries c j))
    ∙ copy_known-IsPart c specs.entries IndexMap.empty (λ i. rw get-empty refl) j

get-rename_key :
    (key : String) (c : AgentConfigs) (j : String)
    → starts_with j "_" ≡ false
    → IndexMap.get (rename_key key c) j ≡ (if key == j then none else IndexMap.get c j)
unfolding rename_key
get-rename_key key c j h = elim (Option-cases (IndexMap.get c key)) [
  | inl e ↦ rw (e, rename_key) (ground (arith, eq_iff key j))
  | inr (v, e) ↦
      rw (e, rename_key)
        (rw (get-insert (IndexMap.shift_remove c key) (append "_" key) j v)
          (rw (marked_ne key j h) (get-shift_remove c key j)))
]
  where
    marked_ne : (key j : String) → starts_with j "_" ≡ false → (append "_" key == j) ≡ false
    marked_ne key j h = elim (Bool-cases (append "_" key == j)) [
      | inl e ↦
          let same : append "_" key ≡ j = (eq_iff (append "_" key) j).0 e in
          let marked : starts_with j "_" ≡ true = rw (← same) (starts_with-append "_" key) in cc
      | inr e ↦ e
    ]

get-rename_keys :
    (keys : List String) (c : AgentConfigs) (j : String)
    → starts_with j "_" ≡ false
    → IndexMap.get (rename_keys keys c) j
      ≡ (if any (λ k. k == j) keys then none else IndexMap.get c j)
unfolding rename_keys
get-rename_keys [] c j h = refl
get-rename_keys (key ∷ keys) c j h =
    ground (arith, get-rename_keys keys (rename_key key c) j h, get-rename_key key c j h)

any-retain_keys :
    (p : String → Bool) (l : List (String × AgentValue)) (j : String)
    → any (λ k. k == j) (retain p (map (λ (e : String × AgentValue). e.0) l))
      ≡ (p j && is_some (lookup j l))
any-retain_keys p [] j = ground arith
any-retain_keys p ((i, v) ∷ l) j = elim (Bool-cases (i == j)) [
  | inl e ↦ let same : p i ≡ p j = ap p ((eq_iff i j).0 e) in ground (arith, any-retain_keys p l j)
  | inr e ↦ ground (arith, any-retain_keys p l j)
]

is_stale_lem :
    (defs : Option AgentConfigSpecs) (j : String)
    → starts_with j "_" ≡ false
    → is_stale defs j ≡ not (def_has defs j)
unfolding is_stale
is_stale_lem defs j h = rw h refl

mem-stale_keys :
    (defs : Option AgentConfigSpecs) (c : AgentConfigs) (j : String)
    → any (λ k. k == j) (stale_keys defs c) ≡ (is_stale defs j && is_some (lookup j c.entries))
unfolding stale_keys IndexMap.keys
mem-stale_keys defs c j = any-retain_keys (is_stale defs) c.entries j

get-rename_stale :
    (defs : Option AgentConfigSpecs) (c : AgentConfigs) (j : String)
    → starts_with j "_" ≡ false
    → IndexMap.get (rename_keys (stale_keys defs c) c) j
      ≡ (if def_has defs j then IndexMap.get c j else none)
get-rename_stale defs c j h = ground (
  arith,
  get-rename_keys (stale_keys defs c) c j h,
  mem-stale_keys defs c j,
  get-entries c j,
  is_stale_lem defs j h,
)

pub get-collect_defaults :
    (l : List (String × AgentConfigSpec)) (c : AgentConfigs) (j : String)
    → IsDistinct l
    → IndexMap.get (collect_defaults l c) j ≡ or (value_of (lookup j l)) (IndexMap.get c j)
unfolding collect_defaults
get-collect_defaults [] c j d = refl
get-collect_defaults ((key, cs) ∷ l) c j d = elim (Bool-cases (key == j)) [
  | inl e ↦
      let same : lookup j l ≡ none = rw (← (eq_iff key j).0 e) d.0 in
      ground (
        arith,
        get-collect_defaults l (IndexMap.insert c key cs.value) j d.1,
        get-insert c key j cs.value,
      )
  | inr e ↦ ground (
    arith,
    get-collect_defaults l (IndexMap.insert c key cs.value) j d.1,
    get-insert c key j cs.value,
  )
]

-- The value of a key, if there are values.
abbrev pub config_of : Option AgentConfigs → String → Option AgentValue
config_of none j = none
config_of (some c) j = IndexMap.get c j

abbrev pub default_of : Option AgentConfigSpecs → String → Option AgentValue
default_of none j = none
default_of (some specs) j = value_of (IndexMap.get specs j)

-- Under a key that does not begin with `_`, a reconciled specification holds nothing if the
-- definition does not have the key; else the value from before, or the default where there was none.
pub reconcile_configs-value :
    (defs : Option AgentConfigSpecs) (configs : Option AgentConfigs) (j : String)
    → starts_with j "_" ≡ false
    → config_of (reconcile_configs defs configs) j
      ≡ (if def_has defs j then or (config_of configs j) (default_of defs j) else none)
unfolding reconcile_configs def_has
reconcile_configs-value none none j h = refl
reconcile_configs-value none (some c) j h = get-rename_stale none c j h
reconcile_configs-value (some specs) none j h =
    get-reorder specs _ j
    ∙ get-collect_defaults specs.entries IndexMap.empty j specs.distinct
    ∙ ground (arith, get-entries specs j, get-empty {V = AgentValue} j)
reconcile_configs-value (some specs) (some c) j h =
    get-reorder specs _ j
    ∙ get-fill_missing specs.entries (rename_keys (stale_keys (some specs) c) c) j
    ∙ ground (arith, get-entries specs j, get-rename_stale (some specs) c j h)
