-- ===== src/Chat/Callers.antt =====
-- `load_caller_policy` of backend/app/services/callers.py, with AuthenticatedCaller of
-- backend/app/security/dependencies.py and the binding of backend/app/models/bindings.py.
use zangpu.Base.{
  ℕ, String, Bool, true, false, not, ◌&&◌, ◌||◌, Option, none, some, List, Result, ok, err, ◌>>=◌,
  ◌>>◌, raise_if, leb, is_blank, str_eq, if◌then◌else◌,
}
use zangpu.Models.{ApiClient, ApiClientCredential, is_active_client, is_active_credential}
use zangpu.Models.Database.{Database}
use zangpu.Chat.Errors.{CallerPolicyCode}

pub record AuthenticatedCaller : Type 0 where
  pub api_client_id : String
  pub credential_id : String
  pub key_id : String
  pub request_id : String

-- BINDING_SYNC_STATUSES
pub data SyncStatus : Type 0 where
  pending active disabled error : SyncStatus

abbrev is_synced : SyncStatus → Bool
is_synced SyncStatus.active = true
is_synced _ = false

pub record ApiClientBinding : Type 0 where
  pub zangpu_service_user_id : Option String
  pub bifrost_virtual_key_id : Option String
  pub bifrost_value_ciphertext : Option String
  pub bifrost_value_key_version : Option String
  pub sync_status : SyncStatus

-- A column that holds a text which is not empty.
abbrev is_filled : Option String → Bool
is_filled none = false
is_filled (some s) = not (is_blank s)

unfoldable pub binding_remote_fields_complete : ApiClientBinding → Bool
binding_remote_fields_complete binding =
    is_filled binding.zangpu_service_user_id
    && is_filled binding.bifrost_virtual_key_id
    && is_filled binding.bifrost_value_ciphertext
    && is_filled binding.bifrost_value_key_version

-- The quota limits, which the policy copies and the chat service does not read, are left out.
pub record CallerPolicy : Type 0 where
  pub api_client_id : String
  pub credential_id : String
  pub allowed_endpoints : List String
  pub allowed_models : List String
  pub qps_limit : ℕ
  pub concurrency_limit : ℕ
  pub max_output_tokens_per_request : ℕ
  pub service_user_id : String
  pub bifrost_virtual_key : String

pub record PolicyRow : Type 0 where
  pub client : ApiClient
  pub credential : ApiClientCredential
  pub binding : ApiClientBinding

-- The `where` clause, on rows found by the primary keys.
abbrev matching_row :
    AuthenticatedCaller
    → ApiClient
    → ApiClientCredential
    → ApiClientBinding
    → Result CallerPolicyCode PolicyRow
matching_row caller client credential binding =
    if str_eq credential.api_client_id client.id && str_eq credential.key_id caller.key_id
    then ok (record { client = client; credential = credential; binding = binding })
    else err CallerPolicyCode.caller_state_unavailable

-- The join of a client, a credential and the client's binding.
unfoldable pub select_policy_row :
    AuthenticatedCaller
    → Option ApiClient
    → Option ApiClientCredential
    → Option ApiClientBinding
    → Result CallerPolicyCode PolicyRow
select_policy_row caller (some client) (some credential) (some binding) =
    matching_row caller client credential binding
select_policy_row caller _ _ _ = err CallerPolicyCode.caller_state_unavailable

abbrev has_expired : Option ℕ → ℕ → Bool
has_expired none now = false
has_expired (some t) now = leb t now

present : {A : Type 0} → Option A → Result CallerPolicyCode A
present none = err CallerPolicyCode.caller_binding_unavailable
present (some a) = ok a

-- `is_uuid` says whether `UUID(…)` reads a text, `decrypt` what the key ring decrypts, if it can.
unfoldable pub caller_policy :
    (String → Bool)
    → (ApiClientBinding → Option String)
    → PolicyRow
    → ℕ
    → Result CallerPolicyCode CallerPolicy
unfolding present
caller_policy is_uuid decrypt row now = do
  raise_if (not (is_active_client row.client.status)) CallerPolicyCode.client_disabled
  raise_if (not (is_active_credential row.credential.status)) CallerPolicyCode.credential_revoked
  raise_if (has_expired row.credential.expires_at now) CallerPolicyCode.credential_expired
  raise_if
      (not (is_synced row.binding.sync_status) || not (binding_remote_fields_complete row.binding))
      CallerPolicyCode.caller_binding_unavailable
  service_user_id ← present row.binding.zangpu_service_user_id
  raise_if (not (is_uuid service_user_id)) CallerPolicyCode.caller_binding_unavailable
  virtual_key ← present (decrypt row.binding)
  ok (record {
    api_client_id = row.client.id;
    credential_id = row.credential.id;
    allowed_endpoints = row.client.allowed_endpoints;
    allowed_models = row.client.allowed_models;
    qps_limit = row.client.qps_limit;
    concurrency_limit = row.client.concurrency_limit;
    max_output_tokens_per_request = row.client.max_output_tokens_per_request;
    service_user_id = service_user_id;
    bifrost_virtual_key = virtual_key;
  })

unfoldable pub load_caller_policy :
    (String → Bool)
    → (ApiClientBinding → Option String)
    → (String → Option ApiClientBinding)
    → AuthenticatedCaller
    → ℕ
    → Database
    → Result CallerPolicyCode CallerPolicy
unfolding select_policy_row
load_caller_policy is_uuid decrypt bindings caller now db = do
  row ←
      select_policy_row caller (db.clients caller.api_client_id)
        (db.credentials caller.credential_id) (bindings caller.api_client_id)
  caller_policy is_uuid decrypt row now
