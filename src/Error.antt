-- ===== src/Error.antt =====
-- error.rs: the errors, and the results that carry them.
use Prim.Native.String.{◌++◌ as append}
use modular_agent_core.Prelude.{ℕ, String, ◌≡◌, refl, ◌⊎◌, ◌≢◌, inl, inr, Bool, true, false, Option}

pub data AgentError : Type 0 where
  invalid_array_value : String → AgentError
  invalid_definition : String → String → AgentError
  invalid_pin : String → AgentError
  invalid_preset_name : String → AgentError
  invalid_value : String → AgentError
  missing_definition : String → String → AgentError
  rename_preset_failed : String → AgentError
  unknown_def_kind : String → AgentError
  unknown_def_name : String → AgentError
  not_implemented : String → AgentError
  agent_already_exists : String → AgentError
  agent_creation_failed : String → AgentError
  agent_not_found : String → AgentError
  source_agent_not_found : String → AgentError
  duplicate_id : String → AgentError
  empty_source_handle : AgentError
  empty_target_handle : AgentError
  connection_already_exists : AgentError
  connection_not_found : String → AgentError
  preset_not_found : String → AgentError
  preset_name_exists : String → AgentError
  agent_definition_not_found : String → AgentError
  agent_tx_not_found : String → AgentError
  send_message_failed : String → AgentError
  serialization_error : String → AgentError
  tx_not_initialized : AgentError
  io_error : String → AgentError
  json_parse_error : String → AgentError
  invalid_file_extension : AgentError
  empty_file_name : AgentError
  file_system_error : AgentError
  invalid_config : String → AgentError
  no_config : AgentError
  unknown_config : String → AgentError
  no_global_config : AgentError
  pin_not_found : String → AgentError
  -- the delay in nanoseconds
  rate_limited : String → Option ℕ → AgentError
  overloaded : String → AgentError
  timeout : String → AgentError
  context_overflow : String → AgentError
  cancelled : AgentError
  other : String → AgentError

unfoldable pub is_retryable : AgentError → Bool
is_retryable (rate_limited _ _) = true
is_retryable (overloaded _) = true
is_retryable (timeout _) = true
is_retryable _ = false

-- The messages that `thiserror` derives.
unfoldable pub display : AgentError → String
display (invalid_array_value a) = append "Invalid " (append a " value in array")
display (invalid_definition a b) =
    append a (append ": Agent definition \"" (append b "\" is invalid"))
display (invalid_pin a) = append "Invalid port: " a
display (invalid_preset_name a) = append "Invalid preset name: " a
display (invalid_value a) = append "Invalid " (append a " value")
display (missing_definition a b) =
    append a (append ": Agent definition \"" (append b "\" is missing"))
display (rename_preset_failed a) = append "Failed to rename preset: " a
display (unknown_def_kind a) = append "Unknown agent def kind: " a
display (unknown_def_name a) = append "Unknown agent def name: " a
display (not_implemented a) = append "Agent definition \"" (append a "\" is not implemented")
display (agent_already_exists a) = append "Agent " (append a " already exists")
display (agent_creation_failed a) = append "Failed to create agent " a
display (agent_not_found a) = append "Agent " (append a " not found")
display (source_agent_not_found a) = append "Source agent " (append a " not found")
display (duplicate_id a) = append "Duplicate id: " a
display empty_source_handle = "Source handle is empty"
display empty_target_handle = "Target handle is empty"
display connection_already_exists = "Connection already exists"
display (connection_not_found a) = append "Connection " (append a " not found")
display (preset_not_found a) = append "Preset " (append a " not found")
display (preset_name_exists a) = append "Preset name \"" (append a "\" already exists")
display (agent_definition_not_found a) = append "Agent " (append a " definition not found")
display (agent_tx_not_found a) = append "Agent tx for " (append a " not found")
display (send_message_failed a) = append "Failed to send message: " a
display (serialization_error a) = append "Failed to serialize/deserialize: " a
display tx_not_initialized = "Message sender not initialized"
display (io_error a) = append "IO error: " a
display (json_parse_error a) = append "JSON parsing error: " a
display invalid_file_extension = "Invalid file extension: expected JSON"
display empty_file_name = "Empty file name"
display file_system_error = "Failed to get file stem from path"
display (invalid_config a) = append "Configuration error: " a
display no_config = "No configuration available"
display (unknown_config a) = append "Unknown configuration: " a
display no_global_config = "No global configuration available"
display (pin_not_found a) = append "Pin not found: " a
display (rate_limited a _) = append "Rate limited: " a
display (overloaded a) = append "Provider overloaded: " a
display (timeout a) = append "Request timed out: " a
display (context_overflow a) = append "Context overflow: " a
display cancelled = "Cancelled"
display (other a) = append "Agent error: " a

pub data Result {ℓ} (A : Type ℓ) : Type ℓ where
  ok : A → Result A
  err : AgentError → Result A

-- A condition whose failure returns early.
abbrev pub guard : Bool → AgentError → Result (Unit {0})
guard false e = err e
guard true e = ok tt

infixl 5 ◌>>=◌
-- `?` on a result whose value is used.
abbrev pub ◌>>=◌ {ℓ ℓ'} : {A : Type ℓ} {B : Type ℓ'} → Result A → (A → Result B) → Result B
err e >>= next = err e
ok a >>= next = next a

infixl 5 ◌>>◌
-- `?` on a result that is only a check.
abbrev pub ◌>>◌ {ℓ} : {B : Type ℓ} → Result (Unit {0}) → Result B → Result B
err e >> next = err e
ok u >> next = next

-- `o.ok_or(e)`
abbrev pub ok_or {ℓ} : {A : Type ℓ} → Option A → AgentError → Result A
ok_or Option.none e = err e
ok_or (Option.some a) e = ok a

abbrev pub is_ok {ℓ} : {A : Type ℓ} → Result A → Bool
is_ok (ok a) = true
is_ok (err e) = false

pub ok-injective {ℓ} : {A : Type ℓ} {a b : A} → ok a ≡ ok b → a ≡ b
ok-injective e = cc

pub Result-cases {ℓ} :
    {A : Type ℓ} (r : Result A) → ((e : AgentError) × r ≡ err e) ⊎ ((a : A) × r ≡ ok a)
Result-cases (err e) = inl (e, refl)
Result-cases (ok a) = inr (a, refl)

pub ok≢err {ℓ} : {A : Type ℓ} {a : A} {e : AgentError} → ok a ≢ err e
ok≢err h = cc
