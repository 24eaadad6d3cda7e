-- ===== src/Chat/Errors.antt =====
-- ERROR_SPECS of backend/app/api/errors.py and the error mappings of backend/app/services/chat.py.
use zangpu.Base.{
  ℕ, String, Bool, true, false, ◌||◌, ◌&&◌, List, [], ◌∷◌, str_eq, ◌==◌, if◌then◌else◌, codes,
}
use zangpu.Quota.{AdmissionCode}

pub data Code : Type 0 where
  invalid_request unsupported_feature auth_failed credit_balance_exhausted client_disabled : Code
  endpoint_forbidden model_forbidden credit_account_frozen model_not_found : Code
  request_in_progress request_already_completed request_id_conflict payload_too_large : Code
  client_disconnected qps_limited concurrency_limited model_capacity_limited : Code
  daily_request_quota_exceeded daily_token_quota_exceeded total_request_quota_exceeded : Code
  total_token_quota_exceeded control_plane_unavailable model_unavailable model_timeout : Code
  internal_error : Code

-- An entry of ERROR_SPECS with its key; the message texts are left out.
pub record ExternalErrorSpec : Type 0 where
  pub code : String
  pub status_code : ℕ
  pub retryable : Bool

abbrev spec : String → ℕ → Bool → ExternalErrorSpec
spec c s r = record { code = c; status_code = s; retryable = r }

abbrev pub error_spec : Code → ExternalErrorSpec
error_spec invalid_request = spec "INVALID_REQUEST" 400 false
error_spec unsupported_feature = spec "UNSUPPORTED_FEATURE" 400 false
error_spec auth_failed = spec "AUTH_FAILED" 401 false
error_spec credit_balance_exhausted = spec "CREDIT_BALANCE_EXHAUSTED" 402 false
error_spec client_disabled = spec "CLIENT_DISABLED" 403 false
error_spec endpoint_forbidden = spec "ENDPOINT_FORBIDDEN" 403 false
error_spec model_forbidden = spec "MODEL_FORBIDDEN" 403 false
error_spec credit_account_frozen = spec "CREDIT_ACCOUNT_FROZEN" 403 false
error_spec model_not_found = spec "MODEL_NOT_FOUND" 404 false
error_spec request_in_progress = spec "REQUEST_IN_PROGRESS" 409 true
error_spec request_already_completed = spec "REQUEST_ALREADY_COMPLETED" 409 false
error_spec request_id_conflict = spec "REQUEST_ID_CONFLICT" 409 false
error_spec payload_too_large = spec "PAYLOAD_TOO_LARGE" 413 false
error_spec client_disconnected = spec "CLIENT_DISCONNECTED" 499 false
error_spec qps_limited = spec "QPS_LIMITED" 429 true
error_spec concurrency_limited = spec "CONCURRENCY_LIMITED" 429 true
error_spec model_capacity_limited = spec "MODEL_CAPACITY_LIMITED" 429 true
error_spec daily_request_quota_exceeded = spec "DAILY_REQUEST_QUOTA_EXCEEDED" 429 false
error_spec daily_token_quota_exceeded = spec "DAILY_TOKEN_QUOTA_EXCEEDED" 429 false
error_spec total_request_quota_exceeded = spec "TOTAL_REQUEST_QUOTA_EXCEEDED" 429 false
error_spec total_token_quota_exceeded = spec "TOTAL_TOKEN_QUOTA_EXCEEDED" 429 false
error_spec control_plane_unavailable = spec "CONTROL_PLANE_UNAVAILABLE" 503 true
error_spec model_unavailable = spec "MODEL_UNAVAILABLE" 503 true
error_spec model_timeout = spec "MODEL_TIMEOUT" 504 true
error_spec internal_error = spec "INTERNAL_ERROR" 500 false

-- The codes that a CallerPolicyError carries.
pub data CallerPolicyCode : Type 0 where
  caller_state_unavailable client_disabled credential_revoked credential_expired : CallerPolicyCode
  caller_binding_unavailable : CallerPolicyCode

-- `_caller_policy_error`
abbrev pub caller_policy_error : CallerPolicyCode → Code
caller_policy_error CallerPolicyCode.client_disabled = Code.client_disabled
caller_policy_error CallerPolicyCode.credential_revoked = auth_failed
caller_policy_error CallerPolicyCode.credential_expired = auth_failed
caller_policy_error CallerPolicyCode.caller_state_unavailable = Code.control_plane_unavailable
caller_policy_error CallerPolicyCode.caller_binding_unavailable = Code.control_plane_unavailable

-- `_quota_error`: every other code of the ledger is a key of ERROR_SPECS.
abbrev pub quota_error : AdmissionCode → Code
quota_error AdmissionCode.credential_revoked = auth_failed
quota_error AdmissionCode.credential_expired = auth_failed
quota_error AdmissionCode.client_disabled = Code.client_disabled
quota_error AdmissionCode.endpoint_forbidden = Code.endpoint_forbidden
quota_error AdmissionCode.model_forbidden = Code.model_forbidden
quota_error AdmissionCode.request_id_conflict = Code.request_id_conflict
quota_error AdmissionCode.request_in_progress = Code.request_in_progress
quota_error AdmissionCode.request_already_completed = Code.request_already_completed
quota_error AdmissionCode.daily_request_quota_exceeded = Code.daily_request_quota_exceeded
quota_error AdmissionCode.daily_token_quota_exceeded = Code.daily_token_quota_exceeded
quota_error AdmissionCode.total_request_quota_exceeded = Code.total_request_quota_exceeded
quota_error AdmissionCode.total_token_quota_exceeded = Code.total_token_quota_exceeded

-- OpenWebUIUpstreamError and BifrostUpstreamError.
pub record UpstreamError : Type 0 where
  pub code : String
  pub status_code : ℕ

-- `_credit_error`
unfoldable pub credit_error : UpstreamError → Code
credit_error error =
    if str_eq error.code "CREDIT_BALANCE_EXHAUSTED"
    then credit_balance_exhausted
    else if str_eq error.code "CREDIT_ACCOUNT_FROZEN"
    then credit_account_frozen
    else if str_eq error.code "CREDIT_PRICING_UNAVAILABLE"
    then model_unavailable
    else Code.control_plane_unavailable

-- `public_code in {"CREDIT_BALANCE_EXHAUSTED", "CREDIT_ACCOUNT_FROZEN"}`
abbrev pub is_credit_refusal : Code → Bool
is_credit_refusal credit_balance_exhausted = true
is_credit_refusal credit_account_frozen = true
is_credit_refusal _ = false

begins_with : List ℕ → List ℕ → Bool
begins_with [] text = true
begins_with (c ∷ cs) [] = false
begins_with (c ∷ cs) (d ∷ text) = c == d && begins_with cs text

-- `part in text`
occurs : List ℕ → List ℕ → Bool
unfolding begins_with
occurs part [] = begins_with part []
occurs part (d ∷ text) = begins_with part (d ∷ text) || occurs part text

-- `_provider_error`
unfoldable pub provider_error : UpstreamError → Code
unfolding occurs
provider_error error =
    if error.status_code == 404
    then model_not_found
    else if error.status_code == 504 || occurs (codes "TIMEOUT") (codes error.code)
    then model_timeout
    else model_unavailable
