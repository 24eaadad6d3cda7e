-- ===== src/Recovery/Examples.antt =====
-- Tests of the recovery, and its theorems at a concrete candidate.
use zangpu.Base.{String, false, Option, none, some, [], ◌∷◌, ok, err, if◌then◌else◌, str_eq}
use zangpu.Models.{ApiClient, ApiClientCredential, ClientStatus, CredentialStatus, Scope}
use zangpu.Models.Database.{
  Database, put_quota, put_operation, find_request, find_operation, find_event,
}
use zangpu.Quota.{
  period, select_quota_rows, create_quota_rows, insert_quota_row_if_missing, put_quota_rows,
  check_quota_limit,
}
use zangpu.Quota.Reserve.{
  ReserveRequest, reserve_operation, check_request, caller_state, check_caller,
  raise_for_existing_operation, check_limits, commit, new_operation,
}
use zangpu.Quota.Record.{pending_operation as find_pending, with_usage, record_provider_usage}
use zangpu.Quota.Finalize.{
  OperationTerminal, finalize_operation, finalize_pending, settle_row, settle, terminate,
  terminal_event, check_terminal,
}
use zangpu.Quota.Lifecycle.{Call, fresh, perform, perform_all}
use zangpu.Chat.Environment.{CreditStatus, CreditOperationSnapshot}
use zangpu.Recovery.{
  RecoveryCandidate, CreditRecoveryClient, process, decide, carry_out, validate_identity,
  decide_status, resolve_pending, recovery_terminal, finalize_with, record_if, finalize_credit,
}

abbrev client : ApiClient
client = record {
  id = "c1";
  status = ClientStatus.active;
  allowed_endpoints = "chat.completions" ∷ [];
  allowed_models = "m" ∷ [];
  qps_limit = 5;
  concurrency_limit = 2;
  daily_request_limit = some 2;
  daily_token_limit = some 500;
  total_request_limit = none;
  total_token_limit = none;
  max_output_tokens_per_request = 256;
}

abbrev credential : ApiClientCredential
credential = record {
  id = "k1";
  api_client_id = "c1";
  key_id = "zpk_1";
  status = CredentialStatus.active;
  expires_at = none;
}

abbrev clients : String → Option ApiClient
clients i = if str_eq i "c1" then some client else none

abbrev credentials : String → Option ApiClientCredential
credentials i = if str_eq i "k1" then some credential else none

abbrev row_ids : Scope → String
row_ids Scope.daily = "q1"
row_ids Scope.lifetime = "q2"

abbrev first : ReserveRequest
first = record {
  api_client_id = "c1";
  credential_id = "k1";
  operation_id = "o1";
  client_request_id = "request-00000001";
  request_fingerprint = "0123456789abcdef0123456789abcdef0123456789abcdef0123456789abcdef";
  model_id = "m";
  stream = false;
  reserved_tokens = 300;
  now = 90_000;
  new_row_ids = row_ids;
}

abbrev start : Database
start = perform_all (Call.reserve first ∷ []) (fresh clients credentials)

abbrev candidate : RecoveryCandidate
candidate = record {
  operation_id = "o1";
  service_user_id = "u1";
  model_id = "m";
  settlement_id = some "s1";
  usage_operation_id = some "o1:usage";
  provider_usage_recorded = false;
  prompt_tokens = 0;
  completion_tokens = 0;
  started_at = 90_000;
}

abbrev pending_credit : CreditOperationSnapshot
pending_credit = record {
  operation_id = "o1";
  settlement_id = "s1";
  service_user_id = "u1";
  model_id = "m";
  provider = some "bifrost";
  status = CreditStatus.pending;
  prompt_tokens = 0;
  completion_tokens = 0;
  total_tokens = 0;
  charged_micro = 0;
  usage_operation_id = some "o1:usage";
}

abbrev client_answers : CreditRecoveryClient
client_answers = record {
  get_operation_status = ok pending_credit;
  settle_operation = ok pending_credit;
  cancel_operation = ok (record pending_credit { status = CreditStatus.failed_no_charge });
}

abbrev ending : OperationTerminal
ending = recovery_terminal candidate 90_500 false "RECOVERED_CANCELLED" 0

-- The pending credit is cancelled, and the operation abandoned.
recovered : Database
unfolding perform_all perform process decide carry_out validate_identity decide_status
    resolve_pending recovery_terminal finalize_with record_if finalize_credit reserve_operation
    check_request caller_state check_caller select_quota_rows create_quota_rows
    insert_quota_row_if_missing put_quota period raise_for_existing_operation find_request
    find_operation check_limits check_quota_limit commit put_quota_rows new_operation find_pending
    with_usage record_provider_usage put_operation finalize_operation finalize_pending settle_row
    settle terminate terminal_event check_terminal find_event
recovered = elim (process "e1" client_answers candidate 90_500 start) [ ok x ↦ x.1 | err e ↦ start ]
