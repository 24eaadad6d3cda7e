-- ===== src/Outbox/Queue.antt =====
-- `queue_binding_sync` of backend/app/models/outbox.py, and its callers in
-- backend/app/integrations/bifrost/binding_service.py: `stage_bifrost_binding_sync`. The hash of a
-- specification and the test of its payload for sensitive keys are parameters.
use zangpu.Base.{
  ℕ, ◌+◌, Bool, true, not, List, ◌∷◌, Option, none, some, Result, ok, err, ◌>>◌, raise_if, is_some,
}
use zangpu.Outbox.{
  Text, Target, Action, ItemStatus, SyncStatus, VirtualKeySpec, Payload, valid, ApiClientBinding,
  ControlOutbox, Control, find_item, put_binding,
}

pub data StageError : Type 0 where
  sensitive_key unsupported_action binding_exists binding_missing : StageError

-- The changed binding of `queue_binding_sync`.
abbrev pub pending_binding : Text → ℕ → ApiClientBinding → ApiClientBinding
pending_binding config_hash now binding = record binding {
  bifrost_config_hash = config_hash;
  sync_status = SyncStatus.pending;
  last_sync_error_code = none;
  version = binding.version + 1;
  updated_at = now;
}

-- The item of `queue_binding_sync`; the id is new, and `session.add` refuses one that exists.
abbrev pub pending_item : Text → Text → Target → Action → Payload → ℕ → ControlOutbox
pending_item id aggregate_id target action payload now = record {
  id = id;
  aggregate_is_binding = true;
  aggregate_id = aggregate_id;
  target = target;
  action = action;
  payload = payload;
  status = ItemStatus.pending;
  attempt_count = 0;
  available_at = now;
  locked_at = none;
  completed_at = none;
  last_error_code = none;
  updated_at = now;
}

-- `session.add(item)` and its commit: an id that exists is refused.
abbrev pub add_absent :
    Option ControlOutbox → ControlOutbox → List ControlOutbox → List ControlOutbox
add_absent none item items = item ∷ items
add_absent (some other) item items = items

unfoldable pub add_item : ControlOutbox → List ControlOutbox → List ControlOutbox
add_item item items = add_absent (find_item item.id items) item items

module _ (is_sensitive : Payload → Bool) where
  -- `queue_binding_sync` for a binding that is in the table.
  unfoldable pub queue_binding_sync :
      Text
      → ApiClientBinding
      → Text
      → Target
      → Action
      → Payload
      → ℕ
      → Control
      → Result StageError Control
  queue_binding_sync id binding config_hash target action payload now s = do
    raise_if (is_sensitive payload) StageError.sensitive_key
    ok (record {
      items = add_item (pending_item id binding.id target action payload now) s.items;
      bindings = put_binding binding.id (pending_binding config_hash now binding) s.bindings;
    })

  module _ (desired_config_hash : VirtualKeySpec → Text) where
    abbrev check_action : Action → Bool → Result StageError (Unit {0})
    check_action Action.create exists = raise_if exists StageError.binding_exists
    check_action Action.update exists = raise_if (not exists) StageError.binding_missing
    check_action Action.disable exists = err StageError.unsupported_action
    check_action Action.compensate exists = err StageError.unsupported_action

    -- `stage_bifrost_binding_sync`
    unfoldable pub stage_bifrost_binding_sync :
        Text → ApiClientBinding → VirtualKeySpec → Action → ℕ → Control → Result StageError Control
    stage_bifrost_binding_sync id binding spec action now s = do
      check_action action (is_some binding.bifrost_virtual_key_id)
      queue_binding_sync id binding (desired_config_hash spec) Target.bifrost action
          (valid (record {
            config_hash = desired_config_hash spec;
            binding_version = binding.version + 1;
            desired = some spec;
          }))
          now s
