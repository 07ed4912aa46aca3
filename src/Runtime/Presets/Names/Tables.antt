-- ===== src/Runtime/Presets/Names/Tables.antt =====
-- The tables `presets` and `preset_names` of modular_agent.rs, and the writes to them.
use modular_agent_core.Prelude.{String, ◌≡◌, not, Option, none, some, arith, ◌==◌, eq_iff}
use modular_agent_core.IndexMap
use modular_agent_core.IndexMap.{IndexMap, map_laws}
use modular_agent_core.Preset.{Preset}

unfoldable pub name_of : Option Preset → Option String
name_of none = none
name_of (some p) = p.name

-- Every name leads to a preset that carries it, and every preset is found under its name.
pub record NamesAgree (presets : IndexMap Preset) (names : IndexMap String) : Type 0 where
  pub carries :
      (name id : String)
      → IndexMap.get names name ≡ some id
      → name_of (IndexMap.get presets id) ≡ some name
  pub found :
      (id name : String)
      → name_of (IndexMap.get presets id) ≡ some name
      → IndexMap.get names name ≡ some id

pub empty-NamesAgree : NamesAgree IndexMap.empty IndexMap.empty
unfolding name_of
empty-NamesAgree = record {
  carries = λ name id e. ground (arith, IndexMap.get-empty {V = String} name);
  found = λ id name e. ground (arith, IndexMap.get-empty {V = Preset} id);
}

module _ (presets : IndexMap Preset) (names : IndexMap String)
    (agree : NamesAgree presets names) where
  -- A preset is written back with the name it had.
  pub put-NamesAgree :
      (id : String) (p q : Preset)
      → IndexMap.get presets id ≡ some p
      → q.name ≡ p.name
      → NamesAgree (IndexMap.insert presets id q) names
  unfolding name_of
  put-NamesAgree id p q at same = record {
    carries = λ name j e.
        ground (arith, IndexMap.get-insert presets id j q, agree.carries name j, eq_iff id j);
    found = λ j name e.
        ground (arith, IndexMap.get-insert presets id j q, agree.found j name, eq_iff id j);
  }

  -- A new preset without a name.
  pub add-NamesAgree :
      (id : String) (q : Preset)
      → IndexMap.get presets id ≡ none
      → q.name ≡ none
      → NamesAgree (IndexMap.insert presets id q) names
  unfolding name_of
  add-NamesAgree id q new bare = record {
    carries = λ name j e.
        ground (arith, IndexMap.get-insert presets id j q, agree.carries name j, eq_iff id j);
    found = λ j name e.
        ground (arith, IndexMap.get-insert presets id j q, agree.found j name, eq_iff id j);
  }

  -- A new preset with a new name.
  pub add_named-NamesAgree :
      (id name : String) (q : Preset)
      → IndexMap.get presets id ≡ none
      → IndexMap.get names name ≡ none
      → q.name ≡ some name
      → NamesAgree (IndexMap.insert presets id q) (IndexMap.insert names name id)
  unfolding name_of
  add_named-NamesAgree id new_name q new free carried = record {
    carries = λ name j e. ground (
      arith,
      IndexMap.get-insert presets id j q,
      IndexMap.get-insert names new_name name id,
      agree.carries name j,
      eq_iff id j,
      eq_iff new_name name,
    );
    found = λ j name e. ground (
      arith,
      IndexMap.get-insert presets id j q,
      IndexMap.get-insert names new_name name id,
      agree.found j name,
      eq_iff id j,
      eq_iff new_name name,
    );
  }

  -- A name is reserved and given back.
  pub release-NamesAgree :
      (name id : String)
      → IndexMap.get names name ≡ none
      → NamesAgree presets (IndexMap.swap_remove (IndexMap.insert names name id) name)
  release-NamesAgree old id free = record {
    carries = λ name j e. ground (
      arith,
      IndexMap.get-swap_remove (IndexMap.insert names old id) old name,
      IndexMap.get-insert names old name id,
      agree.carries name j,
      eq_iff old name,
    );
    found = λ j name e. ground (
      arith,
      IndexMap.get-swap_remove (IndexMap.insert names old id) old name,
      IndexMap.get-insert names old name id,
      agree.found j name,
      eq_iff old name,
    );
  }

  -- The names of a preset are replaced by one that no other preset owns.
  pub rename-NamesAgree :
      (id new_name : String) (q : Preset)
      → ((owner : String) → IndexMap.get names new_name ≡ some owner → owner ≡ id)
      → q.name ≡ some new_name
      → NamesAgree
          (IndexMap.insert presets id q)
          (IndexMap.insert (IndexMap.retain_entries (λ _ v. not (v == id)) names) new_name id)
  unfolding name_of
  rename-NamesAgree id new_name q free carried = record {
    carries = λ name j e. ground (
      arith,
      IndexMap.get-insert presets id j q,
      IndexMap.get-insert (IndexMap.retain_entries (λ _ v. not (v == id)) names) new_name name id,
      IndexMap.get-retain_entries (λ _ v. not (v == id)) names name,
      agree.carries name j,
      eq_iff id j,
      eq_iff j id,
      eq_iff new_name name,
    );
    found = λ j name e. ground (
      arith,
      IndexMap.get-insert presets id j q,
      IndexMap.get-insert (IndexMap.retain_entries (λ _ v. not (v == id)) names) new_name name id,
      IndexMap.get-retain_entries (λ _ v. not (v == id)) names name,
      agree.found j name,
      free j,
      eq_iff id j,
      eq_iff j id,
      eq_iff new_name name,
    );
  }

  -- A preset is taken out with its names.
  pub forget-NamesAgree :
      (id : String)
      → NamesAgree
          (IndexMap.swap_remove presets id)
          (IndexMap.retain_entries (λ _ v. not (v == id)) names)
  unfolding name_of
  forget-NamesAgree id = record {
    carries = λ name j e. ground (
      arith,
      IndexMap.get-swap_remove presets id j,
      IndexMap.get-retain_entries (λ _ v. not (v == id)) names name,
      agree.carries name j,
      eq_iff id j,
      eq_iff j id,
    );
    found = λ j name e. ground (
      arith,
      IndexMap.get-swap_remove presets id j,
      IndexMap.get-retain_entries (λ _ v. not (v == id)) names name,
      agree.found j name,
      eq_iff id j,
      eq_iff j id,
    );
  }
