-- ===== src/Quota/Reserve.antt =====
-- `reserve_operation` of backend/app/services/quota.py.
pub mod Success
use zangpu.Base.{
  ℕ, ◌+◌, String, Bool, false, not, ◌||◌, Option, none, some, ◌∷◌, Result, ok, err, ◌>>=◌, ◌>>◌,
  raise_if, ltb, leb, between, if◌then◌else◌, is_some, is_blank, text_length, full_match, is_word,
  is_lower_hex, contains, str_eq,
}
use zangpu.Models.{
  ApiClient, ApiClientCredential, ApiClientQuotaUsage, ApiCallOperation, Scope, OperationStatus,
  is_active_client, is_active_credential, is_pending,
}
use zangpu.Models.Database.{Database, find_operation, find_request}
use zangpu.Quota.{
  AdmissionCode, QuotaError, admission_error, state_error, value_error, OperationReservation,
  QuotaRows, signed_bigint_max, select_quota_rows, create_quota_rows, put_quota_rows,
  check_quota_limit,
}

-- The keyword arguments of `reserve_operation`, and the IDs that `new_uuid()` gives to quota rows.
pub record ReserveRequest : Type 0 where
  pub api_client_id : String
  pub credential_id : String
  pub operation_id : String
  pub client_request_id : String
  pub request_fingerprint : String
  pub model_id : String
  pub stream : Bool
  pub reserved_tokens : ℕ
  pub now : ℕ
  pub new_row_ids : Scope → String

unfoldable pub check_request : ReserveRequest → Result QuotaError (Unit {0})
check_request r = do
  raise_if (not (full_match is_word 16 64 r.client_request_id))
      (value_error "client request ID is invalid")
  raise_if (not (full_match is_lower_hex 64 64 r.request_fingerprint))
      (value_error "request fingerprint is invalid")
  raise_if (is_blank r.model_id || ltb 255 (text_length r.model_id))
      (value_error "model ID is invalid")
  raise_if (not (between 1 signed_bigint_max r.reserved_tokens))
      (value_error "reserved tokens are invalid")

unfoldable pub caller_state :
    String
    → Option ApiClient
    → Option ApiClientCredential
    → Result QuotaError (ApiClient × ApiClientCredential)
caller_state api_client_id (some client) (some credential) =
    if str_eq credential.api_client_id api_client_id
    then ok (client, credential)
    else err (state_error "caller state is unavailable")
caller_state _ _ _ = err (state_error "caller state is unavailable")

abbrev pub is_expired : Option ℕ → ℕ → Bool
is_expired none now = false
is_expired (some expires_at) now = leb expires_at now

unfoldable pub check_caller :
    ApiClient → ApiClientCredential → String → ℕ → Result QuotaError (Unit {0})
check_caller client credential model_id now = do
  raise_if (not (is_active_client client.status))
      (admission_error AdmissionCode.client_disabled none)
  raise_if (not (is_active_credential credential.status))
      (admission_error AdmissionCode.credential_revoked none)
  raise_if (is_expired credential.expires_at now)
      (admission_error AdmissionCode.credential_expired none)
  raise_if (not (contains "chat.completions" client.allowed_endpoints))
      (admission_error AdmissionCode.endpoint_forbidden none)
  raise_if (not (contains model_id client.allowed_models))
      (admission_error AdmissionCode.model_forbidden none)

unfoldable pub existing_code : ApiCallOperation → String → AdmissionCode
existing_code operation request_fingerprint =
    if not (str_eq operation.request_fingerprint request_fingerprint)
    then AdmissionCode.request_id_conflict
    else if is_pending operation.status
    then AdmissionCode.request_in_progress
    else AdmissionCode.request_already_completed

-- `_raise_for_existing_operation`, and nothing where there is no such operation.
unfoldable pub raise_for_existing_operation :
    Option ApiCallOperation → String → Result QuotaError (Unit {0})
unfolding existing_code
raise_for_existing_operation none request_fingerprint = ok tt
raise_for_existing_operation (some operation) request_fingerprint =
    err (admission_error (existing_code operation request_fingerprint) (some operation.id))

unfoldable pub check_limits : ApiClient → QuotaRows → ℕ → Result QuotaError (Unit {0})
check_limits client rows reserved_tokens = do
  check_quota_limit rows.daily client.daily_request_limit client.daily_token_limit reserved_tokens
      AdmissionCode.daily_request_quota_exceeded AdmissionCode.daily_token_quota_exceeded
  check_quota_limit rows.lifetime client.total_request_limit client.total_token_limit
      reserved_tokens AdmissionCode.total_request_quota_exceeded
      AdmissionCode.total_token_quota_exceeded

unfoldable pub charge_row : ℕ → ℕ → ApiClientQuotaUsage → ApiClientQuotaUsage
charge_row reserved_tokens now row = record row {
  request_count = row.request_count + 1;
  token_reserved = row.token_reserved + reserved_tokens;
  version = row.version + 1;
  updated_at = now;
}

unfoldable pub new_operation : ReserveRequest → ApiCallOperation
new_operation r = record {
  id = r.operation_id;
  api_client_id = r.api_client_id;
  credential_id = r.credential_id;
  client_request_id = r.client_request_id;
  request_fingerprint = r.request_fingerprint;
  endpoint = "chat.completions";
  method = "POST";
  model_id = r.model_id;
  stream = r.stream;
  status = OperationStatus.pending;
  reserved_tokens = r.reserved_tokens;
  prompt_tokens = 0;
  completion_tokens = 0;
  total_tokens = 0;
  provider_usage_recorded = false;
  credit_settlement_id = none;
  usage_operation_id = none;
  terminal_http_status = none;
  terminal_code = none;
  started_at = r.now;
  completed_at = none;
  updated_at = r.now;
}

unfoldable pub add_operation : ApiCallOperation → Database → Database
add_operation op db = record db { operations = op ∷ db.operations }

unfoldable pub reservation : ReserveRequest → QuotaRows → OperationReservation
reservation r rows = record {
  operation_id = r.operation_id;
  daily_requests_after = rows.daily.request_count;
  daily_tokens_reserved_after = rows.daily.token_consumed + rows.daily.token_reserved;
  total_requests_after = rows.lifetime.request_count;
  total_tokens_reserved_after = rows.lifetime.token_consumed + rows.lifetime.token_reserved;
}

unfoldable pub charge_rows : ReserveRequest → QuotaRows → QuotaRows
unfolding charge_row
charge_rows r rows = record {
  daily = charge_row r.reserved_tokens r.now rows.daily;
  lifetime = charge_row r.reserved_tokens r.now rows.lifetime;
}

-- The writes after the last check: both rows, then the pending operation.
unfoldable pub commit : ReserveRequest → QuotaRows → Database → OperationReservation × Database
unfolding reservation add_operation charge_rows
commit r rows db =
    let charged = charge_rows r rows in
    (
      reservation r charged,
      add_operation (new_operation r) (put_quota_rows r.api_client_id r.now charged db),
    )

unfoldable pub reserve_operation :
    ReserveRequest → Database → Result QuotaError (OperationReservation × Database)
reserve_operation r db0 = do
  check_request r
  caller ←
      caller_state r.api_client_id (db0.clients r.api_client_id) (db0.credentials r.credential_id)
  check_caller caller.0 caller.1 r.model_id r.now
  let db = create_quota_rows r.new_row_ids r.api_client_id r.now db0
  rows ← select_quota_rows r.api_client_id r.now db
  raise_for_existing_operation (find_request r.api_client_id r.client_request_id db)
      r.request_fingerprint
  raise_if (is_some (find_operation r.operation_id db)) (state_error "operation ID already exists")
  check_limits caller.0 rows r.reserved_tokens
  ok (commit r rows db)
