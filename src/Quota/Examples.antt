-- ===== src/Quota/Examples.antt =====
-- Tests of the quota ledger, and its theorems at concrete inputs.
use zangpu.Base.{
  ◌+◌, ◌≤◌, pos, negsuc, String, true, false, Option, none, some, List, [], ◌∷◌, Result, ok, err,
  ◌≡◌, refl, arith, if◌then◌else◌, str_eq,
}
use zangpu.Models.{
  ApiClient, ApiClientCredential, ApiCallOperation, ClientStatus, CredentialStatus, Scope, Outcome,
  Stage, OperationStatus,
}
use zangpu.Models.Database.{
  Database, find_event, put_quota, put_operation, find_request, find_operation,
}
use zangpu.Quota.{
  admission_error, AdmissionCode, OperationReservation, signed_bigint_max, period,
  select_quota_rows, QuotaRows, create_quota_rows, insert_quota_row_if_missing, put_quota_rows,
  check_quota_limit,
}
use zangpu.Quota.Accounting.{IsBalanced, consumed_in}
use zangpu.Quota.Reserve.{
  ReserveRequest, reserve_operation, check_request, caller_state, check_caller,
  raise_for_existing_operation, check_limits, commit, new_operation,
}
use zangpu.Quota.Record.{record_provider_usage, pending_operation as find_pending, with_usage}
use zangpu.Quota.Finalize.{
  finalize_pending, settle_row, terminate, replay_terminal, terminal_event, OperationTerminal,
  TerminalStatus, finalize_operation, settle,
}
use zangpu.Quota.Finalize.Success.{settled_rows}
use zangpu.Quota.Admission.{IsWithin, IsPermitted, reserve-IsWithin, reserve-IsPermitted}
use zangpu.Quota.Duplicates.{reserve_again}
use zangpu.Quota.Lifecycle.{Call, perform, perform_all, fresh, ledger_conserves}
use zangpu.Quota.Evidence.{IsRecorded, ledger_evidence, ended_is_final}
use zangpu.Quota.Outcome.{HasEnded, finalize-HasEnded}
use zangpu.Quota.Progress.{finalize_succeeds}

abbrev client : ApiClient
client = record {
  id = "c1";
  status = ClientStatus.active;
  allowed_endpoints = "chat.completions" ∷ [];
  allowed_models = "m" ∷ [];
  qps_limit = 5;
  concurrency_limit = 2;
  daily_request_limit = some 2;
  daily_token_limit = some 500;
  total_request_limit = none;
  total_token_limit = none;
  max_output_tokens_per_request = 256;
}

abbrev credential : ApiClientCredential
credential = record {
  id = "k1";
  api_client_id = "c1";
  key_id = "zpk_1";
  status = CredentialStatus.active;
  expires_at = none;
}

abbrev clients : String → Option ApiClient
clients i = if str_eq i "c1" then some client else none

abbrev credentials : String → Option ApiClientCredential
credentials i = if str_eq i "k1" then some credential else none

abbrev start : Database
start = fresh clients credentials

abbrev row_ids : Scope → String
row_ids Scope.daily = "q1"
row_ids Scope.lifetime = "q2"

abbrev first : ReserveRequest
first = record {
  api_client_id = "c1";
  credential_id = "k1";
  operation_id = "o1";
  client_request_id = "request-00000001";
  request_fingerprint = "0123456789abcdef0123456789abcdef0123456789abcdef0123456789abcdef";
  model_id = "m";
  stream = false;
  reserved_tokens = 300;
  now = 90_000;
  new_row_ids = row_ids;
}

abbrev second : ReserveRequest
second = record first { operation_id = "o2"; client_request_id = "request-00000002" }

abbrev terminal : OperationTerminal
terminal = record {
  status = TerminalStatus.completed;
  outcome = Outcome.success;
  stage = Stage.response;
  http_status = 200;
  business_code = "OK";
  retryable = false;
  duration_ms = 12;
  charged_micro = 7;
  qps_observed = 1;
  concurrency_observed = 1;
  server_request_id = "s1";
  remote_ip_hash = none;
  user_agent_family = none;
  completed_at = 90_001;
}

abbrev calls : List Call
calls =
    Call.reserve first
    ∷ Call.reserve second
    ∷ Call.record_usage "o1" (pos 100) (pos 20) 90_000
    ∷ Call.record_usage "o1" (negsuc 0) (pos 20) 90_000
    ∷ Call.terminalize "e1" "o1" terminal
    ∷ Call.terminalize "e2" "o1" terminal
    ∷ []

abbrev admitted : OperationReservation
admitted = record {
  operation_id = "o1";
  daily_requests_after = 1;
  daily_tokens_reserved_after = 300;
  total_requests_after = 1;
  total_tokens_reserved_after = 300;
}

abbrev value_of {ℓ κ} : {E : Type ℓ} {A : Type κ} → Result E (A × Database) → Database → Database
value_of (ok x) db = x.1
value_of (err e) db = db

-- To unfold it is to unfold all that a run of the ledger calls.
opened : Database
unfolding perform reserve_operation check_request caller_state check_caller select_quota_rows
    create_quota_rows insert_quota_row_if_missing put_quota period raise_for_existing_operation
    find_request find_operation check_limits check_quota_limit commit put_quota_rows new_operation
opened = perform (Call.reserve first) start

opening_works : reserve_operation first start ≡ ok (admitted, opened)
unfolding opened
opening_works = refl

second_refused :
    reserve_operation second opened
    ≡ err (admission_error AdmissionCode.daily_token_quota_exceeded none)
unfolding opened
second_refused = refl

ledger_conserves_example : IsBalanced (perform_all calls start)
ledger_conserves_example = ledger_conserves clients credentials calls

ledger_evidence_example : IsRecorded (perform_all calls start)
ledger_evidence_example = ledger_evidence clients credentials calls

reserve-IsWithin_example :
    (c : ApiClient) × (clients "c1" ≡ some c)
    × ((s : Scope) → IsWithin c s (opened.quota_usage "c1" s (period s 90_000)))
reserve-IsWithin_example = reserve-IsWithin first start (admitted, opened) opening_works

reserve-IsPermitted_example :
    (c : ApiClient) × (k : ApiClientCredential) × (clients "c1" ≡ some c)
    × (credentials "k1" ≡ some k)
    × IsPermitted first c k
reserve-IsPermitted_example = reserve-IsPermitted first start (admitted, opened) opening_works

-- Sent again a second later, with an operation ID of its own.
abbrev sent_again : ReserveRequest
sent_again = record first { operation_id = "o9"; now = 90_001 }

again_valid : check_request sent_again ≡ ok tt
unfolding check_request
again_valid = refl

again_caller :
    caller_state "c1" (opened.clients "c1") (opened.credentials "k1") ≡ ok (client, credential)
unfolding caller_state opened
again_caller = refl

again_permitted : check_caller client credential "m" 90_001 ≡ ok tt
unfolding check_caller
again_permitted = refl

reserve_again_example :
    reserve_operation sent_again opened
    ≡ err (admission_error AdmissionCode.request_in_progress (some "o1"))
reserve_again_example =
    reserve_again first sent_again start (admitted, opened) client credential opening_works refl
      refl again_valid again_caller again_permitted

abbrev reserved_operation : ApiCallOperation
reserved_operation = record {
  id = "o1";
  api_client_id = "c1";
  credential_id = "k1";
  client_request_id = "request-00000001";
  request_fingerprint = "0123456789abcdef0123456789abcdef0123456789abcdef0123456789abcdef";
  endpoint = "chat.completions";
  method = "POST";
  model_id = "m";
  stream = false;
  status = OperationStatus.pending;
  reserved_tokens = 300;
  prompt_tokens = 0;
  completion_tokens = 0;
  total_tokens = 0;
  provider_usage_recorded = false;
  credit_settlement_id = none;
  usage_operation_id = none;
  terminal_http_status = none;
  terminal_code = none;
  started_at = 90_000;
  completed_at = none;
  updated_at = 90_000;
}

found_pending : find_operation "o1" opened ≡ some reserved_operation
unfolding opened
found_pending = refl

nothing_used :
    (s : Scope) → consumed_in (opened.quota_usage "c1" s (period s 90_000)) + 0 ≤ signed_bigint_max
unfolding opened
nothing_used Scope.daily = omega arith
nothing_used Scope.lifetime = omega arith

first_ends :
    (rows : QuotaRows) × (select_quota_rows "c1" 90_000 opened ≡ ok rows)
    × (finalize_operation "e1" "o1" terminal opened
        ≡ ok (
            settle "e1" reserved_operation terminal
              (settled_rows reserved_operation terminal rows)
              opened))
unfolding opened perform_all
first_ends =
    finalize_succeeds "e1" "o1" reserved_operation terminal opened
      (ledger_conserves clients credentials (Call.reserve first ∷ [])) found_pending refl
      (omega arith) (omega arith) nothing_used

finalize-HasEnded_example :
    HasEnded "o1" terminal
      (settle "e1" reserved_operation terminal
        (settled_rows reserved_operation terminal first_ends.0)
        opened).1
finalize-HasEnded_example =
    finalize-HasEnded "e1" "o1" terminal opened
      (settle "e1" reserved_operation terminal
        (settled_rows reserved_operation terminal first_ends.0) opened)
      first_ends.2

abbrev finished : Database
finished = perform_all calls start

abbrev ended_operation : ApiCallOperation
ended_operation = record reserved_operation {
  status = OperationStatus.completed;
  prompt_tokens = 100;
  completion_tokens = 20;
  total_tokens = 120;
  provider_usage_recorded = true;
  terminal_http_status = some 200;
  terminal_code = some "OK";
  completed_at = some 90_001;
  updated_at = 90_001;
}

found_ended : find_operation "o1" finished ≡ some ended_operation
unfolding opened perform_all record_provider_usage find_pending with_usage put_operation
    finalize_operation finalize_pending settle_row settle terminate replay_terminal find_event
    terminal_event
found_ended = refl

ended_is_final_example : find_operation "o1" (perform_all calls finished) ≡ some ended_operation
ended_is_final_example = ended_is_final calls finished "o1" ended_operation found_ended refl
