-- ===== src/Recovery/Ending.antt =====
-- What a recovery of backend/app/workers/recovery.py leaves in the ledger, and the credit evidence
-- that it stands on.
use zangpu.Base.{
  str_eq, is_some, Bool, true, false, ◌||◌, Option, none, some, Result, ok, err, ◌≡◌, if◌then◌else◌,
}
use zangpu.Models.Database.{Database}
use zangpu.Quota.{QuotaError}
use zangpu.Quota.Finalize.{OperationTerminal, TerminalStatus}
use zangpu.Quota.Outcome.{HasEnded}
use zangpu.Chat.Errors.{UpstreamError}
use zangpu.Chat.Environment.{CreditStatus, CreditOperationSnapshot}
use zangpu.Recovery.{
  RecoveryCandidate, CreditRecoveryClient, Decision, from_ledger, validate_identity, is_succeeded,
  is_cancelled, leave, finish_without_credit, finish,
}

-- What Open WebUI answers when a pending credit is to be settled or cancelled.
abbrev pub Resolved : CreditRecoveryClient → Bool → CreditOperationSnapshot → Type 0
Resolved client true remote =
    (client.settle_operation ≡ ok remote) × (is_succeeded remote.status ≡ true)
Resolved client false remote =
    (client.cancel_operation ≡ ok remote) × (is_cancelled remote.status ≡ true)

-- The snapshot is Open WebUI's answer about the credit, which has ended there; or, where that answer
-- says that the credit is pending, its answer to the settlement if the usage is recorded and to the
-- cancellation otherwise.
pub data Answered (client : CreditRecoveryClient) (c : RecoveryCandidate)
    (remote : CreditOperationSnapshot) : Type 0 where
  ended :
      client.get_operation_status ≡ ok remote
      → (is_succeeded remote.status || is_cancelled remote.status) ≡ true
      → Answered client c remote
  resolved :
      (first : CreditOperationSnapshot)
      → client.get_operation_status ≡ ok first
      → first.status ≡ CreditStatus.pending
      → Resolved client c.provider_usage_recorded remote
      → Answered client c remote

-- Open WebUI does not have the credit, and the candidate has neither a settlement nor a usage.
pub record HasNoCredit (client : CreditRecoveryClient) (c : RecoveryCandidate) : Type 0 where
  pub error : UpstreamError
  pub answered : client.get_operation_status ≡ err error
  pub code : str_eq error.code "OPENWEBUI_CREDIT_NOT_FOUND" ≡ true
  pub unsettled : is_some c.settlement_id ≡ false
  pub unused : c.provider_usage_recorded ≡ false

-- What a decision rests on.
unfoldable pub Rests : CreditRecoveryClient → RecoveryCandidate → Decision → Type 0
Rests client c leave = Unit
Rests client c finish_without_credit = HasNoCredit client c
Rests client c (finish remote) = (validate_identity c remote ≡ ok tt) × Answered client c remote

-- The evidence for a terminal record: no credit and no charge, or a snapshot of the candidate's own
-- credit that Open WebUI answered, with that charge, whose status says whether the operation is
-- completed.
pub data Evidence (client : CreditRecoveryClient) (c : RecoveryCandidate)
    (terminal : OperationTerminal) : Type 0 where
  no_credit :
      HasNoCredit client c
      → terminal.status ≡ TerminalStatus.abandoned
      → terminal.http_status ≡ 499
      → terminal.charged_micro ≡ 0
      → Evidence client c terminal
  credit :
      (remote : CreditOperationSnapshot)
      → validate_identity c remote ≡ ok tt
      → Answered client c remote
      → terminal.charged_micro ≡ remote.charged_micro
      → terminal.status ≡ (
          if is_succeeded remote.status then TerminalStatus.completed else TerminalStatus.abandoned)
      → terminal.http_status ≡ (if is_succeeded remote.status then 200 else 499)
      → Evidence client c terminal

-- A recovery that ends the operation has ended it in the ledger as its terminal record says, on
-- evidence; one that does not has written nothing.
abbrev pub Recovers :
    CreditRecoveryClient
    → RecoveryCandidate
    → Database
    → Option OperationTerminal
    → Database
    → Type 0
Recovers client c db none db' = db' ≡ db
Recovers client c db (some terminal) db' =
    HasEnded c.operation_id terminal db' × Evidence client c terminal

pub from_ledger-ok :
    {A : Type 0} (r : Result QuotaError A) (a : A) → from_ledger r ≡ ok a → r ≡ ok a
from_ledger-ok (ok b) a h = cc
from_ledger-ok (err e) a h = cc
