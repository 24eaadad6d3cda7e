-- ===== src/Outbox/Process.antt =====
-- `_process` of backend/app/workers/outbox.py with `_load`, `_complete` and `_fail`, and `run_once`.
-- `_complete` and `_fail` read their rows without a lock, so they have two tables: the one they read
-- and the one they write, into which other transactions may have been committed in between. The
-- columns that the code assigns are written into the rows of the second one.
use zangpu.Base.{
  ℕ, ◌+◌, ◌-◌, ◌*◌, ◌^◌, min, Bool, true, false, not, ◌||◌, List, [], ◌∷◌, Option, none, some,
  codes, take, ◌==◌, Result, ok, err, ◌>>=◌, ◌>>◌, raise_if, of_option, if◌then◌else◌,
}
use zangpu.Signing.Crypto.{Crypto}
use zangpu.Signing.Keyring.{CredentialKeyring, KeyringError}
use zangpu.Outbox.{
  Text, Action, ItemStatus, SyncStatus, BifrostOutboxPayload, Payload, valid, invalid,
  ApiClientBinding, ControlOutbox, Control, is_bifrost, is_disable, is_processing, find_item,
  change_item, change_binding,
}
use zangpu.Outbox.Binding.{Envelope, persist_created_binding, settle_binding}
use zangpu.Outbox.Execute.{
  Failure, upstream, value_error, uncaught, BifrostBindingClient, WorkResult, created, changed,
  nothing, execute,
}
use zangpu.Outbox.Claim.{WorkerConfig, claim, claimed_ids}

abbrev pub read_payload : Payload → Result Failure BifrostOutboxPayload
read_payload (valid payload) = ok payload
read_payload (invalid version) = err value_error

abbrev pub Loaded : Type 0
Loaded = Action × ApiClientBinding × BifrostOutboxPayload

-- `_load`
unfoldable pub load : Text → Control → Result Failure Loaded
load item_id s = do
  item ← of_option (find_item item_id s.items) value_error
  raise_if (not (is_processing item.status) || not (is_bifrost item.target)) value_error
  binding ← of_option (s.bindings item.aggregate_id) value_error
  raise_if (not item.aggregate_is_binding) value_error
  payload ← read_payload item.payload
  ok (item.action, binding, payload)

abbrev pub completed_item : ℕ → ControlOutbox → ControlOutbox
completed_item now item = record item {
  status = ItemStatus.completed;
  completed_at = some now;
  locked_at = none;
  last_error_code = none;
  updated_at = now;
}

-- What `persist_created_binding` raises.
abbrev pub keyring_failure : KeyringError → Failure
keyring_failure KeyringError.key_version_unavailable = uncaught
keyring_failure e = value_error

abbrev pub kept : Result KeyringError ApiClientBinding → Result Failure ApiClientBinding
kept (ok binding) = ok binding
kept (err e) = err (keyring_failure e)

-- A binding that has changed since the item was written waits for the next item.
abbrev pub await_newer : BifrostOutboxPayload → ApiClientBinding → ApiClientBinding
await_newer payload binding =
    if binding.version == payload.binding_version
    then binding
    else record binding { sync_status = SyncStatus.pending }

module _ (w : WorkerConfig) (crypto : Crypto) (envelope : Envelope) (keyring : CredentialKeyring)
    (client : BifrostBindingClient) where
  -- The binding as `_complete` writes it.
  unfoldable pub completed_binding :
      Action → WorkResult → Text → ℕ → ApiClientBinding → Result Failure ApiClientBinding
  completed_binding action (created result) fresh now binding =
      kept (persist_created_binding crypto envelope keyring binding result fresh now)
  completed_binding action (changed state) fresh now binding = ok (
      settle_binding crypto envelope keyring binding
        (if is_disable action then SyncStatus.disabled else SyncStatus.active) now)
  completed_binding action nothing fresh now binding = ok (
      settle_binding crypto envelope keyring binding
        (if is_disable action then SyncStatus.disabled else SyncStatus.active) now)

  -- The columns of a binding that a result makes `_complete` assign.
  abbrev pub written : WorkResult → ApiClientBinding → ApiClientBinding → ApiClientBinding
  written (created result) next binding = record binding {
    bifrost_virtual_key_id = next.bifrost_virtual_key_id;
    bifrost_value_ciphertext = next.bifrost_value_ciphertext;
    bifrost_value_key_version = next.bifrost_value_key_version;
    sync_status = next.sync_status;
    last_sync_error_code = next.last_sync_error_code;
    updated_at = next.updated_at;
  }
  written result next binding = record binding {
    sync_status = next.sync_status;
    last_sync_error_code = next.last_sync_error_code;
    updated_at = next.updated_at;
  }

  unfoldable pub complete_found :
      ControlOutbox → Text → WorkResult → Text → ℕ → Control → Control → Result Failure Control
  complete_found item item_id result fresh now read s = do
    binding ← of_option (read.bindings item.aggregate_id) value_error
    payload ← read_payload item.payload
    next ← completed_binding item.action result fresh now binding
    ok (record {
      items = change_item item_id (completed_item now) s.items;
      bindings =
          change_binding item.aggregate_id (written result (await_newer payload next)) s.bindings;
    })

  abbrev pub complete_item :
      Option ControlOutbox
      → Text
      → WorkResult
      → Text
      → ℕ
      → Control
      → Control
      → Result Failure Control
  complete_item none item_id result fresh now read s = ok s
  complete_item (some item) item_id result fresh now read s =
      if is_processing item.status
      then complete_found item item_id result fresh now read s
      else ok s

  -- `_complete`
  unfoldable pub complete :
      Text → WorkResult → Text → ℕ → Control → Control → Result Failure Control
  complete item_id result fresh now read s =
      complete_item (find_item item_id read.items) item_id result fresh now read s

  -- `min(base_retry_seconds * 2 ** (attempt_count - 1), max_retry_seconds)`
  abbrev pub retry_delay : ControlOutbox → ℕ
  retry_delay item = min (w.base_retry_seconds * 2 ^ (item.attempt_count - 1)) w.max_retry_seconds

  -- The row as `_fail` writes it, with the delay that the row it read gives.
  abbrev pub failed_item : Text → Bool → ℕ → ControlOutbox → ControlOutbox → ControlOutbox
  failed_item code retryable now read item = record item {
    status = ItemStatus.failed;
    locked_at = none;
    last_error_code = some (take 64 code);
    attempt_count = if retryable then item.attempt_count else w.max_attempts;
    available_at = if retryable then now + retry_delay read else now;
    updated_at = now;
  }

  abbrev pub payload_version : Payload → Option ℕ
  payload_version (valid payload) = some payload.binding_version
  payload_version (invalid version) = version

  abbrev pub is_version_of : ApiClientBinding → Option ℕ → Bool
  is_version_of binding none = false
  is_version_of binding (some version) = binding.version == version

  abbrev pub failed_binding :
      ControlOutbox
      → Text
      → ℕ
      → Option ApiClientBinding
      → (Text → Option ApiClientBinding)
      → Text
      → Option ApiClientBinding
  failed_binding item code now none bindings = bindings
  failed_binding item code now (some binding) bindings =
      if is_version_of binding (payload_version item.payload)
      then change_binding item.aggregate_id
          (λ current. record current {
            sync_status = SyncStatus.error;
            last_sync_error_code = some (take 64 code);
            updated_at = now;
          })
          bindings
      else bindings

  abbrev pub fail_item : Option ControlOutbox → Text → Text → Bool → ℕ → Control → Control → Control
  fail_item none item_id code retryable now read s = s
  fail_item (some item) item_id code retryable now read s =
      if is_processing item.status
      then record {
        items = change_item item_id (failed_item code retryable now item) s.items;
        bindings = failed_binding item code now (read.bindings item.aggregate_id) s.bindings;
      }
      else s

  -- `_fail`
  unfoldable pub fail : Text → Text → Bool → ℕ → Control → Control → Control
  fail item_id code retryable now read s =
      fail_item (find_item item_id read.items) item_id code retryable now read s

  -- The state after the `except` clauses of `_process`, with nothing between its transactions, and
  -- whether the exception goes on.
  abbrev pub caught : Failure → Text → ℕ → Control → Control × Bool
  caught (upstream e) item_id now s = (fail item_id e.code e.retryable now s s, false)
  caught value_error item_id now s =
      (fail item_id (codes "BIFROST_RECONCILIATION_FAILED") false now s s, false)
  caught uncaught item_id now s = (s, true)

  abbrev pub committed : Result Failure Control → Text → ℕ → Control → Control × Bool
  committed (ok s') item_id now s = (s', false)
  committed (err e) item_id now s = caught e item_id now s

  -- `_process` from the outcome of `_load` and `_execute` on.
  unfoldable pub conclude : Result Failure WorkResult → Text → Text → ℕ → Control → Control × Bool
  conclude (ok result) item_id fresh now s =
      committed (complete item_id result fresh now s s) item_id now s
  conclude (err e) item_id fresh now s = caught e item_id now s

  -- The first half of `_process`.
  abbrev pub attempt : Text → Control → Result Failure WorkResult
  attempt item_id s = do loaded ← load item_id s; execute client (loaded.0) (loaded.1) (loaded.2)

  -- `_process` with nothing between its transactions.
  unfoldable pub process : Text → Text → ℕ → Control → Control × Bool
  process item_id fresh now s = conclude (attempt item_id s) item_id fresh now s

  -- The loop of `run_once`: it stops at an exception that `_process` lets through.
  unfoldable pub process_all : List Text → (Text → Text) → ℕ → Control → Control × Bool
  process_all [] fresh now s = (s, false)
  process_all (item_id ∷ item_ids) fresh now s =
      let next = process item_id (fresh item_id) now s in
      let rest = process_all item_ids fresh now (next.0) in if next.1 then next else rest

  -- `run_once`; the nonces that the key ring draws are a function of the item.
  unfoldable pub run_once : (Text → Bool) → (Text → Text) → ℕ → Control → Control × Bool
  run_once held fresh now s = process_all (claimed_ids w now held s) fresh now (claim w now held s)
