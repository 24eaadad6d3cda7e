-- ===== src/Outbox.antt =====
-- The control outbox: backend/app/models/outbox.py and bindings.py, the values of
-- backend/app/integrations/bifrost/models.py that the worker passes on, and the rows' accessors. A
-- text is the list of its bytes. Items are a list of rows with distinct ids, and bindings a function
-- of the id.
pub mod Binding
pub mod Claim
pub mod Execute
pub mod Process
pub mod Queue
pub mod Rows
pub mod Moves
pub mod History
pub mod Bounds
pub mod Final
pub mod Reopened
pub mod Caught
pub mod Settles
pub mod Retries
pub mod Reached
pub mod Protected
pub mod Trial
mod Examples
use zangpu.Base.{
  ℕ, ◌+◌, Bool, true, false, not, ◌&&◌, ◌||◌, List, [], ◌∷◌, Option, none, some, map, length, ◌==◌,
  if◌then◌else◌,
}
use zangpu.Signing.Canonical.{same_text}

abbrev pub Text : Type 0
Text = List ℕ

pub data Target : Type 0 where
  bifrost openwebui : Target

pub data Action : Type 0 where
  create update disable compensate : Action

pub data ItemStatus : Type 0 where
  pending processing completed failed : ItemStatus

pub data SyncStatus : Type 0 where
  pending active disabled error : SyncStatus

pub record VirtualKeySpec : Type 0 where
  pub name : Text
  pub description : Text
  pub provider : Text
  pub model : Text
  pub provider_key_ids : List Text

pub record VirtualKeyState : Type 0 where
  pub id : Text
  pub name : Text
  pub description : Text
  pub is_active : Bool
  pub provider : Text
  pub model : Text
  pub config_hash : Text

-- A key with its value, which `take_value` reads once.
pub record VirtualKeyCreationResult : Type 0 where
  pub state : VirtualKeyState
  pub value : Text

pub record BifrostOutboxPayload : Type 0 where
  pub config_hash : Text
  pub binding_version : ℕ
  pub desired : Option VirtualKeySpec

-- The JSON of a row's payload: what `model_validate` makes of it, or, when that refuses it, the
-- number under its key `binding_version`, if it is an object with such a number.
pub data Payload : Type 0 where
  valid : BifrostOutboxPayload → Payload
  invalid : Option ℕ → Payload

pub record ApiClientBinding : Type 0 where
  pub id : Text
  pub api_client_id : Text
  pub zangpu_service_user_id : Option Text
  pub bifrost_virtual_key_id : Option Text
  pub bifrost_value_ciphertext : Option Text
  pub bifrost_value_key_version : Option Text
  pub bifrost_config_hash : Text
  pub sync_status : SyncStatus
  pub last_sync_error_code : Option Text
  pub version : ℕ
  pub updated_at : ℕ

-- `aggregate_is_binding` says whether `aggregate_type` is "api_client_binding".
pub record ControlOutbox : Type 0 where
  pub id : Text
  pub aggregate_is_binding : Bool
  pub aggregate_id : Text
  pub target : Target
  pub action : Action
  pub payload : Payload
  pub status : ItemStatus
  pub attempt_count : ℕ
  pub available_at : ℕ
  pub locked_at : Option ℕ
  pub completed_at : Option ℕ
  pub last_error_code : Option Text
  pub updated_at : ℕ

-- The tables that the worker reads and writes.
pub record Control : Type 0 where
  pub items : List ControlOutbox
  pub bindings : Text → Option ApiClientBinding

abbrev pub is_bifrost : Target → Bool
is_bifrost Target.bifrost = true
is_bifrost Target.openwebui = false

abbrev pub is_disable : Action → Bool
is_disable Action.disable = true
is_disable Action.create = false
is_disable Action.update = false
is_disable Action.compensate = false

abbrev pub is_waiting : ItemStatus → Bool
is_waiting ItemStatus.pending = true
is_waiting ItemStatus.failed = true
is_waiting ItemStatus.processing = false
is_waiting ItemStatus.completed = false

abbrev pub is_processing : ItemStatus → Bool
is_processing ItemStatus.processing = true
is_processing ItemStatus.pending = false
is_processing ItemStatus.failed = false
is_processing ItemStatus.completed = false

abbrev pub is_failed : ItemStatus → Bool
is_failed ItemStatus.failed = true
is_failed ItemStatus.pending = false
is_failed ItemStatus.processing = false
is_failed ItemStatus.completed = false

abbrev pub is_completed : ItemStatus → Bool
is_completed ItemStatus.completed = true
is_completed ItemStatus.pending = false
is_completed ItemStatus.failed = false
is_completed ItemStatus.processing = false

-- `session.get(ControlOutbox, item_id)`
unfoldable pub find_item : Text → List ControlOutbox → Option ControlOutbox
find_item id [] = none
find_item id (item ∷ items) =
    let later = find_item id items in if same_text item.id id then some item else later

-- Writes to the row with the id.
abbrev pub change_at : Text → (ControlOutbox → ControlOutbox) → ControlOutbox → ControlOutbox
change_at id change item = if same_text item.id id then change item else item

unfoldable pub change_item :
    Text → (ControlOutbox → ControlOutbox) → List ControlOutbox → List ControlOutbox
change_item id change items = map (change_at id change) items

abbrev pub put_binding :
    Text → ApiClientBinding → (Text → Option ApiClientBinding) → Text → Option ApiClientBinding
put_binding id binding bindings other = if same_text id other then some binding else bindings other

abbrev pub change_stored :
    (ApiClientBinding → ApiClientBinding) → Option ApiClientBinding → Option ApiClientBinding
change_stored change none = none
change_stored change (some binding) = some (change binding)

-- Writes to the binding with the id.
abbrev pub change_binding :
    Text
    → (ApiClientBinding → ApiClientBinding)
    → (Text → Option ApiClientBinding)
    → Text
    → Option ApiClientBinding
change_binding id change bindings other =
    if same_text id other then change_stored change (bindings other) else bindings other
