-- ===== src/Outbox/Moves.antt =====
-- How a step of backend/app/workers/outbox.py changes one row of the outbox.
use zangpu.Base.{
  if-true, if-false, ℕ, ◌≡◌, ap, ◌∙◌, ◌≤◌, Bool, true, false, not, ◌&&◌, List, Option, some, leb,
  is_some, arith, Bool-cases, inl, inr,
}
use zangpu.Signing.Canonical.{same_text}
use zangpu.Signing.Crypto.{Crypto}
use zangpu.Signing.Keyring.{CredentialKeyring}
use zangpu.Outbox.{Text, ItemStatus, ControlOutbox, find_item, change_item, change_at}
use zangpu.Outbox.Binding.{Envelope}
use zangpu.Outbox.Claim.{WorkerConfig, is_claimable, is_chosen, mark, claim_item}
use zangpu.Outbox.Execute.{BifrostBindingClient}
use zangpu.Outbox.Process.{completed_item, failed_item}
use zangpu.Outbox.Rows.{find_item-map, change_at-id}

abbrev lock_fits : ItemStatus → Option ℕ → Option ℕ → Bool
lock_fits ItemStatus.pending locked completed = not (is_some locked) && not (is_some completed)
lock_fits ItemStatus.processing locked completed = is_some locked
lock_fits ItemStatus.completed locked completed = not (is_some locked) && is_some completed
lock_fits ItemStatus.failed locked completed = not (is_some locked)

-- A row's attempts are within the worker's bound, it is locked while it is processed and only then,
-- it has a completion time when it is completed, and none before it leaves its first status.
abbrev pub is_fit : WorkerConfig → ControlOutbox → Bool
is_fit w item =
    leb item.attempt_count w.max_attempts && lock_fits item.status item.locked_at item.completed_at

-- From a fit row to its next version.
pub record Moves (w : WorkerConfig) (a b : ControlOutbox) : Type 0 where
  pub fit : is_fit w b ≡ true
  pub attempts : a.attempt_count ≤ b.attempt_count

pub Moves-refl : (w : WorkerConfig) (a : ControlOutbox) → is_fit w a ≡ true → Moves w a a
Moves-refl w a h = record { fit = h; attempts = omega arith }

pub completed_item-Moves :
    (w : WorkerConfig) (item : ControlOutbox) (now : ℕ)
    → is_fit w item ≡ true
    → Moves w item (completed_item now item)
completed_item-Moves w item now hf = record { fit = ground arith; attempts = omega arith }

-- Whatever row the failing worker has read.
pub failed_item-Moves :
    (w : WorkerConfig) (crypto : Crypto) (envelope : Envelope) (keyring : CredentialKeyring)
    (client : BifrostBindingClient) (read item : ControlOutbox) (code : Text) (retryable : Bool)
    (now : ℕ)
    → is_fit w item ≡ true
    → Moves w item (failed_item w crypto envelope keyring client code retryable now read item)
failed_item-Moves w crypto envelope keyring client read item code true now hf = record {
  fit = ground arith;
  attempts = omega arith;
}
failed_item-Moves w crypto envelope keyring client read item code false now hf = record {
  fit = ground arith;
  attempts = ground arith;
}

mark-Moves :
    (w : WorkerConfig) (item : ControlOutbox) (now : ℕ)
    → is_claimable w now item ≡ true
    → is_fit w item ≡ true
    → Moves w item (mark now item)
mark-Moves w item now hc hf = record { fit = ground arith; attempts = omega arith }

pub claim_item-Moves :
    (w : WorkerConfig) (now : ℕ) (chosen : List Text) (item : ControlOutbox)
    → is_fit w item ≡ true
    → Moves w item (claim_item w now chosen item)
claim_item-Moves w now chosen item hf = elim (Bool-cases (is_chosen w now chosen item)) [
  | inl h ↦ rw h (mark-Moves w item now (ground arith) hf)
  | inr h ↦ rw h (Moves-refl w item hf)
]

-- One row is changed and the others stay.
pub change_item-Moves :
    (w : WorkerConfig) (id : Text) (change : ControlOutbox → ControlOutbox)
    (items : List ControlOutbox)
    → ((one : ControlOutbox) → (change one).id ≡ one.id)
    → ((one : ControlOutbox) → is_fit w one ≡ true → Moves w one (change one))
    → (other : Text) (a : ControlOutbox) → find_item other items ≡ some a
    → is_fit w a ≡ true
    → (b : ControlOutbox) × (find_item other (change_item id change items) ≡ some b) × Moves w a b
unfolding change_item
change_item-Moves w id change items hc m other a ha hf =
    let found = find_item-map (change_at id change) other items a (change_at-id id change hc) ha in
    elim (Bool-cases (same_text a.id id)) [
      | inl e ↦ (change a, found ∙ ap some (if-true _ _ _ e), m a hf)
      | inr e ↦ (a, found ∙ ap some (if-false _ _ _ e), Moves-refl w a hf)
    ]
