-- ===== src/Models.antt =====
-- The control plane's tables (backend/app/models/*.py): the columns that the modelled code reads or
-- writes. A `String` column with a check constraint on its values is a data type of those values;
-- counters and epoch seconds, which are constrained to be nonnegative, are natural numbers.
-- Descriptive columns (names, descriptions, who created a row) and relationships are left out.
pub mod Database
use zangpu.Base.{ℕ, String, Bool, true, false, Option, List}

-- CLIENT_STATUSES
pub data ClientStatus : Type 0 where
  active disabled archived : ClientStatus

-- CREDENTIAL_STATUSES
pub data CredentialStatus : Type 0 where
  active revoked : CredentialStatus

-- QUOTA_SCOPES
pub data Scope : Type 0 where
  daily lifetime : Scope

-- OPERATION_STATUSES
pub data OperationStatus : Type 0 where
  pending completed rejected abandoned : OperationStatus

-- EVENT_OUTCOMES
pub data Outcome : Type 0 where
  success cancelled rejected provider_error system_error abandoned : Outcome

-- EVENT_STAGES
pub data Stage : Type 0 where
  request auth permission rate_limit quota credit provider response recovery : Stage

pub record ApiClient : Type 0 where
  pub id : String
  pub status : ClientStatus
  pub allowed_endpoints : List String
  pub allowed_models : List String
  pub qps_limit : ℕ
  pub concurrency_limit : ℕ
  pub daily_request_limit : Option ℕ
  pub daily_token_limit : Option ℕ
  pub total_request_limit : Option ℕ
  pub total_token_limit : Option ℕ
  pub max_output_tokens_per_request : ℕ

pub record ApiClientCredential : Type 0 where
  pub id : String
  pub api_client_id : String
  pub key_id : String
  pub status : CredentialStatus
  pub expires_at : Option ℕ

-- The key (api_client_id, scope, period_start) is unique and stands outside the row.
pub record ApiClientQuotaUsage : Type 0 where
  pub id : String
  pub request_count : ℕ
  pub token_reserved : ℕ
  pub token_consumed : ℕ
  pub version : ℕ
  pub updated_at : ℕ

pub record ApiCallOperation : Type 0 where
  pub id : String
  pub api_client_id : String
  pub credential_id : String
  pub client_request_id : String
  pub request_fingerprint : String
  pub endpoint : String
  pub method : String
  pub model_id : String
  pub stream : Bool
  pub status : OperationStatus
  pub reserved_tokens : ℕ
  pub prompt_tokens : ℕ
  pub completion_tokens : ℕ
  pub total_tokens : ℕ
  pub provider_usage_recorded : Bool
  pub credit_settlement_id : Option String
  pub usage_operation_id : Option String
  pub terminal_http_status : Option ℕ
  pub terminal_code : Option String
  pub started_at : ℕ
  pub completed_at : Option ℕ
  pub updated_at : ℕ

pub record ApiCallEvent : Type 0 where
  pub id : String
  pub server_request_id : String
  pub client_request_id : String
  pub operation_id : Option String
  pub api_client_id : Option String
  pub credential_id : Option String
  pub endpoint : String
  pub method : String
  pub model_id : Option String
  pub stream : Bool
  pub outcome : Outcome
  pub stage : Stage
  pub http_status : ℕ
  pub business_code : String
  pub retryable : Bool
  pub duration_ms : ℕ
  pub quota_overrun : Bool
  pub prompt_tokens : ℕ
  pub completion_tokens : ℕ
  pub total_tokens : ℕ
  pub charged_micro : ℕ
  pub qps_observed : ℕ
  pub concurrency_observed : ℕ
  pub daily_requests_after : ℕ
  pub daily_tokens_after : ℕ
  pub total_requests_after : ℕ
  pub total_tokens_after : ℕ
  pub remote_ip_hash : Option String
  pub user_agent_family : Option String
  pub started_at : ℕ
  pub completed_at : ℕ
  pub created_at : ℕ

abbrev pub is_active_client : ClientStatus → Bool
is_active_client ClientStatus.active = true
is_active_client _ = false

abbrev pub is_active_credential : CredentialStatus → Bool
is_active_credential CredentialStatus.active = true
is_active_credential CredentialStatus.revoked = false

abbrev pub is_pending : OperationStatus → Bool
is_pending OperationStatus.pending = true
is_pending _ = false

abbrev pub same_scope : Scope → Scope → Bool
same_scope Scope.daily Scope.daily = true
same_scope Scope.lifetime Scope.lifetime = true
same_scope _ _ = false

abbrev pub same_status : OperationStatus → OperationStatus → Bool
same_status OperationStatus.pending OperationStatus.pending = true
same_status OperationStatus.completed OperationStatus.completed = true
same_status OperationStatus.rejected OperationStatus.rejected = true
same_status OperationStatus.abandoned OperationStatus.abandoned = true
same_status _ _ = false
