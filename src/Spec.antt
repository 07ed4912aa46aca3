-- ===== src/Spec.antt =====
-- spec.rs and config.rs: the specifications of presets, agents and connections.
pub mod Update
use modular_agent_core.Prelude.{
  String, ◌≡◌, Bool, true, not, ◌&&◌, Option, none, some, List, [], ◌∷◌, ◌++◌, arith, ◌==◌, eq_iff,
  retain, if◌then◌else◌,
}
use modular_agent_core.IndexMap
use modular_agent_core.IndexMap.{IndexMap}
use modular_agent_core.Json.{Json}
use modular_agent_core.Error.{unknown_config, Result, ok_or}
use modular_agent_core.Prelude.Int.{ℤ}
use modular_agent_core.Value.{AgentValue, as_i64}

abbrev pub AgentConfigs : Type 0
AgentConfigs = IndexMap AgentValue

as_str : Option AgentValue → Option String
as_str (some (AgentValue.string s)) = some s
as_str _ = none

-- `get_string` of config.rs
unfoldable pub get_string : AgentConfigs → String → Result String
unfolding as_str
get_string configs key = ok_or (as_str (IndexMap.get configs key)) (unknown_config key)

or_no_text : Option String → String
or_no_text none = ""
or_no_text (some s) = s

-- `get_string_or_default` of config.rs
unfoldable pub get_string_or_default : AgentConfigs → String → String
unfolding as_str or_no_text
get_string_or_default configs key = or_no_text (as_str (IndexMap.get configs key))

as_integer : Option AgentValue → Option ℤ
as_integer none = none
as_integer (some v) = as_i64 v

or_integer : Option ℤ → ℤ → ℤ
or_integer none default = default
or_integer (some i) default = i

-- `get_integer_or` of config.rs
unfoldable pub get_integer_or : AgentConfigs → String → ℤ → ℤ
unfolding as_integer or_integer
get_integer_or configs key default = or_integer (as_integer (IndexMap.get configs key)) default

pub record AgentConfigSpec : Type 0 where
  pub value : AgentValue
  pub type_ : Option String
  pub title : Option String
  pub hide_title : Bool
  pub description : Option String
  pub hidden : Bool
  pub readonly : Bool
  pub detail : Bool

abbrev pub AgentConfigSpecs : Type 0
AgentConfigSpecs = IndexMap AgentConfigSpec

pub record AgentSpec : Type 0 where
  pub id : String
  pub def_name : String
  pub inputs : Option (List String)
  pub outputs : Option (List String)
  pub configs : Option AgentConfigs
  pub config_specs : Option AgentConfigSpecs
  pub disabled : Bool
  pub extensions : IndexMap Json

pub record ConnectionSpec : Type 0 where
  pub source : String
  pub source_handle : String
  pub target : String
  pub target_handle : String

-- The derived `PartialEq`.
abbrev pub connection_eq : ConnectionSpec → ConnectionSpec → Bool
connection_eq c d =
    c.source == d.source
    && c.source_handle == d.source_handle
    && c.target == d.target
    && c.target_handle == d.target_handle

pub record PresetSpec : Type 0 where
  pub agents : List AgentSpec
  pub connections : List ConnectionSpec
  pub extensions : IndexMap Json

unfoldable pub add_agent : PresetSpec → AgentSpec → PresetSpec
add_agent spec agent = record spec { agents = spec.agents ++ agent ∷ [] }

unfoldable pub remove_agent : PresetSpec → String → PresetSpec
remove_agent spec agent_id = record spec {
  agents = retain (λ agent. not (agent.id == agent_id)) spec.agents;
}

unfoldable pub add_connection : PresetSpec → ConnectionSpec → PresetSpec
add_connection spec connection = record spec { connections = spec.connections ++ connection ∷ [] }

-- The list without its first element that equals the given one, if there is one.
unfoldable pub take_connection :
    ConnectionSpec → List ConnectionSpec → Option (ConnectionSpec × List ConnectionSpec)
take_connection c [] = none
take_connection c (d ∷ ds) =
    let rest = take_connection c ds in
    if connection_eq d c
    then some (d, ds)
    else elim rest [ none ↦ none | some (found, others) ↦ some (found, d ∷ others) ]

unfoldable pub remove_connection : PresetSpec → ConnectionSpec → Option ConnectionSpec × PresetSpec
unfolding take_connection
remove_connection spec connection = elim (take_connection connection spec.connections) [
  | none ↦ (none, spec)
  | some (found, others) ↦ (some found, record spec { connections = others })
]

pub connection_eq→eq : (c d : ConnectionSpec) → connection_eq c d ≡ true → c ≡ d
connection_eq→eq c d h = ground (
  arith,
  eq_iff c.source d.source,
  eq_iff c.source_handle d.source_handle,
  eq_iff c.target d.target,
  eq_iff c.target_handle d.target_handle,
)
