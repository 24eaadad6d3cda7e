-- ===== src/Recovery.antt =====
-- backend/app/workers/recovery.py: what `ExternalChatRecoveryWorker._process` does with an operation
-- that was left pending. Open WebUI is outside: its three answers are arguments.
pub mod Ending
mod Examples
use zangpu.Base.{
  ℕ, ◌+◌, ◌-◌, ◌*◌, ◌^◌, pos, String, Bool, true, false, not, ◌&&◌, ◌||◌, Option, none, some,
  Result, ok, err, ◌>>=◌, ◌>>◌, raise_if, ltb, max, min, str_eq, ◌==◌, if◌then◌else◌, is_some,
}
use Prim.Native.String.{◌++◌ as str_append}
use zangpu.Models.{Outcome, Stage}
use zangpu.Models.Database.{Database}
use zangpu.Quota.{QuotaError, state_error, signed_bigint_max}
use zangpu.Quota.Record.{holds, record_provider_usage}
use zangpu.Quota.Finalize.{OperationTerminal, TerminalStatus, check_terminal, finalize_operation}
use zangpu.Chat.Errors.{UpstreamError}
use zangpu.Chat.Environment.{CreditStatus, CreditOperationSnapshot}

pub record RecoveryCandidate : Type 0 where
  pub operation_id : String
  pub service_user_id : String
  pub model_id : String
  pub settlement_id : Option String
  pub usage_operation_id : Option String
  pub provider_usage_recorded : Bool
  pub prompt_tokens : ℕ
  pub completion_tokens : ℕ
  pub started_at : ℕ

-- CreditRecoveryClient: what Open WebUI answers about the candidate.
pub record CreditRecoveryClient : Type 0 where
  pub get_operation_status : Result UpstreamError CreditOperationSnapshot
  pub settle_operation : Result UpstreamError CreditOperationSnapshot
  pub cancel_operation : Result UpstreamError CreditOperationSnapshot

-- OpenWebUIUpstreamError, RuntimeError, and an exception of the ledger.
pub data RecoveryError : Type 0 where
  upstream : UpstreamError → RecoveryError
  conflict : RecoveryError
  ledger : QuotaError → RecoveryError

abbrev pub upstream_or : {A : Type 0} → Result UpstreamError A → Result RecoveryError A
upstream_or (ok a) = ok a
upstream_or (err e) = err (upstream e)

-- `expected is None or expected == actual`
abbrev agrees : Option String → String → Bool
agrees none actual = true
agrees (some expected) actual = str_eq actual expected

abbrev agrees_optional : Option String → Option String → Bool
agrees_optional none actual = true
agrees_optional (some expected) actual = holds actual expected

-- `_validate_identity`
unfoldable pub validate_identity :
    RecoveryCandidate → CreditOperationSnapshot → Result RecoveryError (Unit {0})
validate_identity c remote =
    raise_if
      (not (str_eq remote.operation_id c.operation_id)
        || not (str_eq remote.service_user_id c.service_user_id)
        || not (str_eq remote.model_id c.model_id)
        || not (holds remote.provider "bifrost")
        || not (holds remote.usage_operation_id (str_append c.operation_id ":usage"))
        || not (agrees c.settlement_id remote.settlement_id)
        || not (agrees_optional c.usage_operation_id remote.usage_operation_id))
      conflict

abbrev pub is_succeeded : CreditStatus → Bool
is_succeeded CreditStatus.succeeded_charged = true
is_succeeded _ = false

abbrev pub is_cancelled : CreditStatus → Bool
is_cancelled CreditStatus.cancelled_charged = true
is_cancelled CreditStatus.failed_no_charge = true
is_cancelled _ = false

abbrev pub is_free : CreditStatus → Bool
is_free CreditStatus.failed_no_charge = true
is_free _ = false

-- What is left to do once Open WebUI has answered.
pub data Decision : Type 0 where
  leave finish_without_credit : Decision
  finish : CreditOperationSnapshot → Decision

-- The branch for a pending credit: it is settled if the usage is known, and cancelled otherwise.
unfoldable pub resolve_pending :
    CreditRecoveryClient → RecoveryCandidate → Bool → Result RecoveryError Decision
unfolding validate_identity
resolve_pending client c true = do
  remote ← upstream_or client.settle_operation
  validate_identity c remote
  raise_if (not (is_succeeded remote.status)) conflict
  ok (finish remote)
resolve_pending client c false = do
  remote ← upstream_or client.cancel_operation
  validate_identity c remote
  raise_if (not (is_cancelled remote.status)) conflict
  ok (finish remote)

unfoldable pub decide_status :
    CreditRecoveryClient
    → RecoveryCandidate
    → CreditOperationSnapshot
    → CreditStatus
    → Result RecoveryError Decision
unfolding resolve_pending
decide_status client c remote CreditStatus.settlement_error = ok leave
decide_status client c remote CreditStatus.pending =
    resolve_pending client c c.provider_usage_recorded
decide_status client c remote CreditStatus.succeeded_charged = ok (finish remote)
decide_status client c remote CreditStatus.cancelled_charged = ok (finish remote)
decide_status client c remote CreditStatus.failed_no_charge = ok (finish remote)

-- `_process` up to its finalization.
unfoldable pub decide :
    CreditRecoveryClient
    → RecoveryCandidate
    → Result UpstreamError CreditOperationSnapshot
    → Result RecoveryError Decision
unfolding decide_status validate_identity
decide client c (err e) =
    if str_eq e.code "OPENWEBUI_CREDIT_NOT_FOUND"
      && not (is_some c.settlement_id)
      && not c.provider_usage_recorded
    then ok finish_without_credit
    else err (upstream e)
decide client c (ok remote) = do
  validate_identity c remote
  decide_status client c remote remote.status

-- The terminal record of a recovery.
unfoldable pub recovery_terminal : RecoveryCandidate → ℕ → Bool → String → ℕ → OperationTerminal
recovery_terminal c now succeeded code charged_micro = record {
  status = if succeeded then TerminalStatus.completed else TerminalStatus.abandoned;
  outcome = if succeeded then Outcome.success else Outcome.abandoned;
  stage = Stage.recovery;
  http_status = if succeeded then 200 else 499;
  business_code = if succeeded then "OK" else code;
  retryable = false;
  duration_ms = min ((max now c.started_at - c.started_at) * 1_000) signed_bigint_max;
  charged_micro = charged_micro;
  qps_observed = 0;
  concurrency_observed = 0;
  server_request_id = str_append "recovery_" c.operation_id;
  remote_ip_hash = none;
  user_agent_family = none;
  completed_at = max now c.started_at;
}

abbrev pub from_ledger : {A : Type 0} → Result QuotaError A → Result RecoveryError A
from_ledger (ok a) = ok a
from_ledger (err e) = err (ledger e)

-- The finalization itself: it gives the terminal record that it wrote.
unfoldable pub finalize_with :
    String
    → RecoveryCandidate
    → OperationTerminal
    → Database
    → Result RecoveryError (Option OperationTerminal × Database)
finalize_with event_id c terminal db = do
  checked ← from_ledger (check_terminal terminal)
  ended ← from_ledger (finalize_operation event_id c.operation_id checked db)
  ok (some checked, ended.1)

-- `record_provider_usage`, where there is a usage to record.
unfoldable pub record_if :
    Bool
    → RecoveryCandidate
    → CreditOperationSnapshot
    → ℕ
    → Database
    → Result RecoveryError Database
record_if true c remote at db = from_ledger (
    record_provider_usage c.operation_id (pos remote.prompt_tokens) (pos remote.completion_tokens)
      at db)
record_if false c remote at db = ok db

-- `_finalize`
unfoldable pub finalize_credit :
    String
    → RecoveryCandidate
    → CreditOperationSnapshot
    → ℕ
    → Database
    → Result RecoveryError (Option OperationTerminal × Database)
unfolding recovery_terminal finalize_with record_if
finalize_credit event_id c remote now db = do
  raise_if (not (remote.total_tokens == remote.prompt_tokens + remote.completion_tokens)) conflict
  raise_if (is_free remote.status && not (remote.charged_micro == 0)) conflict
  let succeeded = is_succeeded remote.status
  db' ←
      record_if (succeeded || ltb 0 remote.total_tokens || c.provider_usage_recorded) c remote
        (max now c.started_at) db
  finalize_with event_id c
      (recovery_terminal c now succeeded "RECOVERED_CANCELLED" remote.charged_micro) db'

-- The writes of a decision, in one transaction; nothing is written where one of them raises.
unfoldable pub carry_out :
    String
    → RecoveryCandidate
    → ℕ
    → Database
    → Decision
    → Result RecoveryError (Option OperationTerminal × Database)
unfolding finalize_credit finalize_with recovery_terminal
carry_out event_id c now db leave = ok (none, db)
carry_out event_id c now db finish_without_credit =
    finalize_with event_id c (recovery_terminal c now false "RECOVERED_NO_CREDIT" 0) db
carry_out event_id c now db (finish remote) = finalize_credit event_id c remote now db

-- `_process`; `event_id` is the event's `new_uuid()`.
unfoldable pub process :
    String
    → CreditRecoveryClient
    → RecoveryCandidate
    → ℕ
    → Database
    → Result RecoveryError (Option OperationTerminal × Database)
unfolding decide carry_out
process event_id client c now db = do
  decision ← decide client c client.get_operation_status
  carry_out event_id c now db decision
