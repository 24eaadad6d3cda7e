-- ===== src/Outbox/Reopened.antt =====
-- What the unlocked read of `_fail` in backend/app/workers/outbox.py can do to a row that another
-- worker has ended.
use zangpu.Base.{ℕ, ◌≡◌, true}
use zangpu.Signing.Crypto.{Crypto}
use zangpu.Signing.Keyring.{CredentialKeyring}
use zangpu.Outbox.{ItemStatus, ControlOutbox}
use zangpu.Outbox.Binding.{Envelope}
use zangpu.Outbox.Claim.{WorkerConfig, is_claimable}
use zangpu.Outbox.Execute.{BifrostBindingClient}

module _ (w : WorkerConfig) (crypto : Crypto) (envelope : Envelope) (keyring : CredentialKeyring)
    (client : BifrostBindingClient) where
  -- The row has failed, keeps the completion time that it had, and can be claimed at the time.
  pub record Reopened (item after : ControlOutbox) (later : ℕ) : Type 0 where
    pub status : after.status ≡ ItemStatus.failed
    pub completed_at : after.completed_at ≡ item.completed_at
    pub claimable : is_claimable w later after ≡ true
