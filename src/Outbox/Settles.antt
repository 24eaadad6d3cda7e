-- ===== src/Outbox/Settles.antt =====
-- What `run_once` of backend/app/workers/outbox.py leaves of the rows that it claimed.
use zangpu.Base.{◌≡◌, ◌⊎◌, Bool, true, ◌||◌, List, some, any_of}
use zangpu.Signing.Canonical.{same_text}
use zangpu.Signing.Crypto.{Crypto}
use zangpu.Signing.Keyring.{CredentialKeyring}
use zangpu.Outbox.{Text, ControlOutbox, Control, is_processing, is_completed, is_failed, find_item}
use zangpu.Outbox.Binding.{Envelope}
use zangpu.Outbox.Claim.{WorkerConfig}
use zangpu.Outbox.Execute.{BifrostBindingClient}

-- The row has ended: it is completed or failed.
abbrev pub is_ended : ControlOutbox → Bool
is_ended item = is_completed item.status || is_failed item.status

-- Every row stays, or has ended.
abbrev Ends : List ControlOutbox → List ControlOutbox → Type 0
Ends before after =
    (id : Text) (a : ControlOutbox)
    → find_item id before ≡ some a
    → (b : ControlOutbox) × (find_item id after ≡ some b) × ((b ≡ a) ⊎ (is_ended b ≡ true))

-- The row is there, and completed or failed.
abbrev pub Settled : Text → Control → Type 0
Settled id s = (b : ControlOutbox) × (find_item id s.items ≡ some b) × (is_ended b ≡ true)

module _ (w : WorkerConfig) (crypto : Crypto) (envelope : Envelope) (keyring : CredentialKeyring)
    (client : BifrostBindingClient) where
  -- A row of the loop: processing and still to come, or ended.
  abbrev Awaits : List Text → Text → ControlOutbox → Type 0
  Awaits ids id a =
      ((any_of (same_text id) ids ≡ true) × (is_processing a.status ≡ true)) ⊎ (is_ended a ≡ true)
