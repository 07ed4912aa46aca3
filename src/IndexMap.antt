-- ===== src/IndexMap.antt =====
-- Maps with `String` keys: the `FnvIndexMap` of lib.rs (indexmap's `IndexMap`), and the maps of `im`
-- and of the standard library where their order is not read. The entries keep indexmap's order.
-- The representation stays here: clients have `map_laws`.
mod Entries
use Entries.{
  Assoc, put, swap_out, shift_out, keep, lookup-put, put-IsDistinct, lookup-swap_out,
  swap_out-IsDistinct, lookup-shift_out, shift_out-IsDistinct, lookup-keep, keep-IsDistinct,
}
use modular_agent_core.Prelude.{
  String, ◌≡◌, refl, Bool, true, false, Option, none, some, List, [], ◌∷◌, map, any, arith, ◌==◌,
  if◌then◌else◌,
}
pub use Entries.{lookup, IsDistinct, kept, mapped, holds}

pub record IndexMap {ℓ} (V : Type ℓ) : Type ℓ where
  pub entries : Assoc V
  pub distinct : IsDistinct entries

module _ {ℓ} {V : Type ℓ} where
  unfoldable pub empty : IndexMap V
  empty = record { entries = []; distinct = tt }

  unfoldable pub get : IndexMap V → String → Option V
  get m k = lookup k m.entries

  abbrev pub is_some : Option V → Bool
  is_some none = false
  is_some (some v) = true

  unfoldable pub keys : IndexMap V → List String
  keys m = map (λ (e : String × V). e.0) m.entries

  -- m.contains_key(k)
  abbrev pub contains_key : IndexMap V → String → Bool
  contains_key m k = is_some (get m k)

  unfoldable pub insert : IndexMap V → String → V → IndexMap V
  insert m k v = record {
    entries = put k v m.entries;
    distinct = put-IsDistinct k v m.entries m.distinct;
  }

  unfoldable pub swap_remove : IndexMap V → String → IndexMap V
  swap_remove m k = record {
    entries = swap_out k m.entries;
    distinct = swap_out-IsDistinct k m.entries m.distinct;
  }

  unfoldable pub shift_remove : IndexMap V → String → IndexMap V
  shift_remove m k = record {
    entries = shift_out k m.entries;
    distinct = shift_out-IsDistinct k m.entries m.distinct;
  }

  -- m.retain(p)
  unfoldable pub retain_entries : (String → V → Bool) → IndexMap V → IndexMap V
  retain_entries p m = record {
    entries = keep p m.entries;
    distinct = keep-IsDistinct p m.entries m.distinct;
  }

  pub get-insert :
      (m : IndexMap V) (k j : String) (v : V)
      → get (insert m k v) j ≡ (if k == j then some v else get m j)
  unfolding get insert
  get-insert m k j v = lookup-put k j v m.entries

  pub get-swap_remove :
      (m : IndexMap V) (k j : String) → get (swap_remove m k) j ≡ (if k == j then none else get m j)
  unfolding get swap_remove
  get-swap_remove m k j = lookup-swap_out k j m.entries m.distinct

  pub get-shift_remove :
      (m : IndexMap V) (k j : String)
      → get (shift_remove m k) j ≡ (if k == j then none else get m j)
  unfolding get shift_remove
  get-shift_remove m k j = lookup-shift_out k j m.entries m.distinct

  pub get-retain_entries :
      (p : String → V → Bool) (m : IndexMap V) (j : String)
      → get (retain_entries p m) j ≡ kept p j (get m j)
  unfolding get retain_entries
  get-retain_entries p m j = lookup-keep p j m.entries m.distinct

  -- `for v in m.values_mut() { *v = f(v) }`
  unfoldable pub map_values : (V → V) → IndexMap V → IndexMap V
  map_values f m = record {
    entries = Entries.map_values f m.entries;
    distinct = Entries.map_values-IsDistinct f m.entries m.distinct;
  }

  -- The keys whose values pass the test, in order.
  unfoldable pub keys_where : (V → Bool) → IndexMap V → List String
  keys_where p m = Entries.keys_where p m.entries

  unfoldable pub remove_all : List String → IndexMap V → IndexMap V
  remove_all [] m = m
  remove_all (k ∷ ks) m = remove_all ks (swap_remove m k)

  pub get-map_values :
      (f : V → V) (m : IndexMap V) (j : String) → get (map_values f m) j ≡ mapped f (get m j)
  unfolding get map_values
  get-map_values f m j = Entries.lookup-map_values f j m.entries

  pub mem-keys_where :
      (p : V → Bool) (m : IndexMap V) (j : String)
      → any (λ k. k == j) (keys_where p m) ≡ holds p (get m j)
  unfolding get keys_where
  mem-keys_where p m j = Entries.mem-keys_where p j m.entries m.distinct

  pub get-remove_all :
      (ks : List String) (m : IndexMap V) (j : String)
      → get (remove_all ks m) j ≡ (if any (λ k. k == j) ks then none else get m j)
  unfolding remove_all
  get-remove_all [] m j = refl
  get-remove_all (k ∷ ks) m j =
      ground (arith, get-remove_all ks (swap_remove m k) j, get-swap_remove m k j)

  pub get-entries : (m : IndexMap V) (j : String) → get m j ≡ lookup j m.entries
  unfolding get
  get-entries m j = refl

pub get-empty {ℓ} : {V : Type ℓ} (k : String) → get (empty {V = V}) k ≡ none
unfolding get empty
get-empty k = refl

pub ruleset map_laws =
    (get-empty, get-insert, get-swap_remove, get-shift_remove, get-retain_entries, get-map_values)
