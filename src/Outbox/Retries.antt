-- ===== src/Outbox/Retries.antt =====
-- When the worker of backend/app/workers/outbox.py tries again: `_fail`.
use zangpu.Base.{ℕ, ◌+◌, ◌≡◌, ◌≤◌, Bool, true, false}
use zangpu.Signing.Crypto.{Crypto}
use zangpu.Signing.Keyring.{CredentialKeyring}
use zangpu.Outbox.{Text, ControlOutbox, Control, change_item}
use zangpu.Outbox.Binding.{Envelope}
use zangpu.Outbox.Claim.{WorkerConfig}
use zangpu.Outbox.Execute.{BifrostBindingClient}
use zangpu.Outbox.Process.{failed_item, failed_binding}

-- After a failure that can be retried, a processing row waits at least the base delay and at most the
-- greatest delay, and keeps its number of attempts; after another failure it has none left.
pub record Rescheduled (w : WorkerConfig) (item after : ControlOutbox) (retryable : Bool) (now : ℕ)
    : Type 0 where
  pub waits : retryable ≡ true → now + w.base_retry_seconds ≤ after.available_at
  pub bounded : retryable ≡ true → after.available_at ≤ now + w.max_retry_seconds
  pub keeps : retryable ≡ true → after.attempt_count ≡ item.attempt_count
  pub ends : retryable ≡ false → after.attempt_count ≡ w.max_attempts

module _ (w : WorkerConfig) (crypto : Crypto) (envelope : Envelope) (keyring : CredentialKeyring)
    (client : BifrostBindingClient) where
  abbrev failed_state : ControlOutbox → Text → Text → Bool → ℕ → Control → Control
  failed_state item id code retryable now s = record {
    items =
        change_item id (failed_item w crypto envelope keyring client code retryable now item)
          s.items;
    bindings =
        failed_binding w crypto envelope keyring client item code now (s.bindings item.aggregate_id)
          s.bindings;
  }
