-- ===== src/Spec/Update.antt =====
-- `AgentSpec::update` of spec.rs: a JSON object as a patch. The text of an error of serde, and the image
-- library's decoder, are arguments.
mod Tests
use modular_agent_core.Prelude.{
  String, ◌≡◌, refl, sym, ap, ◌∙◌, Bool, true, false, Bool-cases, inl, inr, Option, none, some,
  List, [], ◌∷◌, arith, ◌==◌, eq_iff, if◌then◌else◌,
}
use modular_agent_core.IndexMap
use modular_agent_core.IndexMap.{IndexMap}
use modular_agent_core.Json
use modular_agent_core.Json.{Json, Items, Fields, as_str, as_array, as_bool, as_object, is_null}
use modular_agent_core.Error.{AgentError, serialization_error, Result, ok, err, Result-cases}
use modular_agent_core.Llm.{PhotonImage}
use modular_agent_core.Value.{AgentValue}
use modular_agent_core.Value.Serial.{from_json}
use modular_agent_core.Spec.{AgentConfigs, AgentSpec}

or_keep {ℓ} : {A : Type ℓ} → Option A → A → A
or_keep none old = old
or_keep (some new) old = new

with_text : Option String → List String → List String
with_text none rest = rest
with_text (some s) rest = s ∷ rest

-- `filter_map(as_str)`
texts : Items → List String
unfolding with_text
texts Items.nil = []
texts (Items.cons x xs) = with_text (as_str x) (texts xs)

ports : Option Items → Option (List String) → Option (List String)
unfolding texts
ports none old = old
ports (some xs) old = some (texts xs)

-- The patch of the configs: what is no object, and what makes no value, is an error.
module _ (decode : String → PhotonImage) (error_text : Json → String) where
  in_front :
      String
      → Result AgentValue
      → Result (List (String × AgentValue))
      → Result (List (String × AgentValue))
  in_front k (err e) rest = err e
  in_front k (ok v) (err e) = err e
  in_front k (ok v) (ok rest) = ok ((k, v) ∷ rest)

  entries_of : Fields → Result (List (String × AgentValue))
  unfolding in_front
  entries_of Fields.end = ok []
  entries_of (Fields.field k x fs) = in_front k (from_json decode x) (entries_of fs)

  as_patch : Json → Result (List (String × AgentValue)) → Result (List (String × AgentValue))
  as_patch x (ok patch) = ok patch
  as_patch x (err e) = err (serialization_error (error_text x))

  unfoldable pub patch_of : Json → Result (List (String × AgentValue))
  unfolding as_patch entries_of
  patch_of (Json.object fs) = as_patch (Json.object fs) (entries_of fs)
  patch_of x = err (serialization_error (error_text x))

  set_all : List (String × AgentValue) → AgentConfigs → AgentConfigs
  set_all [] configs = configs
  set_all ((k, v) ∷ patch) configs = set_all patch (IndexMap.insert configs k v)

  -- The patch is merged into the configs, if there are some.
  merge : List (String × AgentValue) → Option AgentConfigs → AgentConfigs
  unfolding set_all
  merge patch none = set_all patch IndexMap.empty
  merge patch (some configs) = set_all patch configs

  patch_configs : Result (List (String × AgentValue)) → AgentSpec → Result (Unit {0}) × AgentSpec
  unfolding merge
  patch_configs (err e) spec = (err e, spec)
  patch_configs (ok patch) spec = (ok tt, record spec { configs = some (merge patch spec.configs) })

  extend : IndexMap Json → String → Json → IndexMap Json
  extend extensions k x =
      if is_null x then IndexMap.shift_remove extensions k else IndexMap.insert extensions k x

  update_field : String → Json → AgentSpec → Result (Unit {0}) × AgentSpec
  unfolding or_keep ports patch_configs patch_of extend
  update_field k x spec =
      let patched = patch_configs (patch_of x) spec in
      if k == "id"
      then (ok tt, record spec { id = or_keep (as_str x) spec.id })
      else if k == "def_name"
      then (ok tt, record spec { def_name = or_keep (as_str x) spec.def_name })
      else if k == "inputs"
      then (ok tt, record spec { inputs = ports (as_array x) spec.inputs })
      else if k == "outputs"
      then (ok tt, record spec { outputs = ports (as_array x) spec.outputs })
      else if k == "configs"
      then patched
      else if k == "disabled"
      then (ok tt, record spec { disabled = or_keep (as_bool x) spec.disabled })
      else (ok tt, record spec { extensions = extend spec.extensions k x })

  then_rest :
      Result (Unit {0}) × AgentSpec → Result (Unit {0}) × AgentSpec → Result (Unit {0}) × AgentSpec
  then_rest (err e, patched) rest = (err e, patched)
  then_rest (ok u, patched) rest = rest

  -- The first error ends the update, and what was written before stays.
  update_fields : Fields → AgentSpec → Result (Unit {0}) × AgentSpec
  unfolding update_field then_rest
  update_fields Fields.end spec = (ok tt, spec)
  update_fields (Fields.field k x fs) spec =
      let patched = update_field k x spec in then_rest patched (update_fields fs patched.1)

  update_with : Option Fields → AgentSpec → Result (Unit {0}) × AgentSpec
  unfolding update_fields
  update_with none spec = (err (serialization_error "Expected JSON object"), spec)
  update_with (some fs) spec = update_fields fs spec

  unfoldable pub update : AgentSpec → Json → Result (Unit {0}) × AgentSpec
  unfolding update_with
  update spec value = update_with (as_object value) spec

  -- What is configured under a key.
  abbrev pub config_at : Option AgentConfigs → String → Option AgentValue
  config_at none key = none
  config_at (some configs) key = IndexMap.get configs key

  -- The last value that the patch has for the key, or what was there.
  abbrev pub patched_at :
      List (String × AgentValue) → String → Option AgentValue → Option AgentValue
  patched_at [] key old = old
  patched_at ((k, v) ∷ patch) key old = patched_at patch key (if k == key then some v else old)

  abbrev pub ok_or_nothing : Result (List (String × AgentValue)) → List (String × AgentValue)
  ok_or_nothing (ok patch) = patch
  ok_or_nothing (err e) = []

  -- What the fields of a patch say of the key.
  abbrev pub says : Fields → String → Option AgentValue → Option AgentValue
  says Fields.end key old = old
  says (Fields.field k x fs) key old =
      says fs key (if k == "configs" then patched_at (ok_or_nothing (patch_of x)) key old else old)

  get-set_all :
      (patch : List (String × AgentValue)) (configs : AgentConfigs) (key : String)
      → IndexMap.get (set_all patch configs) key ≡ patched_at patch key (IndexMap.get configs key)
  unfolding set_all
  get-set_all [] configs key = refl
  get-set_all ((k, v) ∷ patch) configs key =
      get-set_all patch (IndexMap.insert configs k v) key
      ∙ ap (λ old. patched_at patch key old) (IndexMap.get-insert configs k key v)

  get-merge :
      (patch : List (String × AgentValue)) (configs : Option AgentConfigs) (key : String)
      → IndexMap.get (merge patch configs) key ≡ patched_at patch key (config_at configs key)
  unfolding merge
  get-merge patch none key =
      get-set_all patch IndexMap.empty key
      ∙ ap (λ old. patched_at patch key old) (IndexMap.get-empty {V = AgentValue} key)
  get-merge patch (some configs) key = get-set_all patch configs key

  patch_configs-says :
      (r : Result (List (String × AgentValue))) (spec : AgentSpec) (key : String)
      → config_at (patch_configs r spec).1.configs key
        ≡ patched_at (ok_or_nothing r) key (config_at spec.configs key)
  unfolding patch_configs
  patch_configs-says (ok patch) spec key = get-merge patch spec.configs key
  patch_configs-says (err e) spec key = refl

  not_configs :
      (k name : String) → k == name ≡ true → name == "configs" ≡ false → k == "configs" ≡ false
  not_configs k name e n = ap (λ s. s == "configs") ((eq_iff k name).0 e) ∙ n

  update_field-says :
      (k : String) (x : Json) (spec : AgentSpec) (key : String)
      → config_at (update_field k x spec).1.configs key ≡ (
          if k == "configs"
          then patched_at (ok_or_nothing (patch_of x)) key (config_at spec.configs key)
          else config_at spec.configs key)
  unfolding update_field
  update_field-says k x spec key = elim (Bool-cases (k == "id")) [
    | inl e0 ↦ rw (e0, not_configs k "id" e0 refl) refl
    | inr e0 ↦ elim (Bool-cases (k == "def_name")) [
      | inl e1 ↦ rw (e0, e1, not_configs k "def_name" e1 refl) refl
      | inr e1 ↦ elim (Bool-cases (k == "inputs")) [
        | inl e2 ↦ rw (e0, e1, e2, not_configs k "inputs" e2 refl) refl
        | inr e2 ↦ elim (Bool-cases (k == "outputs")) [
          | inl e3 ↦ rw (e0, e1, e2, e3, not_configs k "outputs" e3 refl) refl
          | inr e3 ↦ elim (Bool-cases (k == "configs")) [
            | inl c ↦ rw (e0, e1, e2, e3, c) (patch_configs-says (patch_of x) spec key)
            | inr c ↦ elim (Bool-cases (k == "disabled")) [
              | inl e ↦ rw (e0, e1, e2, e3, c, e) refl
              | inr e ↦ rw (e0, e1, e2, e3, c, e) refl
            ]
          ]
        ]
      ]
    ]
  ]

  then_rest-says :
      (r : Result (Unit {0}) × AgentSpec) (fs : Fields) (key : String)
      → ((update_fields fs r.1).0 ≡ ok tt
          → config_at (update_fields fs r.1).1.configs key
            ≡ says fs key (config_at r.1.configs key))
      → (then_rest r (update_fields fs r.1)).0 ≡ ok tt
      → config_at (then_rest r (update_fields fs r.1)).1.configs key
        ≡ says fs key (config_at r.1.configs key)
  unfolding then_rest
  then_rest-says (err e, patched) fs key later fine = absurd (cc)
  then_rest-says (ok u, patched) fs key later fine = later fine

  update_fields-says :
      (fs : Fields) (spec : AgentSpec) (key : String)
      → (update_fields fs spec).0 ≡ ok tt
      → config_at (update_fields fs spec).1.configs key ≡ says fs key (config_at spec.configs key)
  unfolding update_fields
  update_fields-says Fields.end spec key fine = refl
  update_fields-says (Fields.field k x fs) spec key fine =
      then_rest-says (update_field k x spec) fs key
        (update_fields-says fs (update_field k x spec).1 key) fine
      ∙ ap (says fs key) (update_field-says k x spec key)

  -- After an update that succeeds, the configuration has under each key the last value that the patch
  -- gives for it under `configs`, and under the other keys what it had before.
  pub update-says :
      (fs : Fields) (spec : AgentSpec) (key : String)
      → (update spec (Json.object fs)).0 ≡ ok tt
      → config_at (update spec (Json.object fs)).1.configs key
        ≡ says fs key (config_at spec.configs key)
  unfolding update update_with
  update-says fs spec key fine = update_fields-says fs spec key fine
