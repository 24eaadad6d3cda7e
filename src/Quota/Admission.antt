-- ===== src/Quota/Admission.antt =====
-- When `reserve_operation` of backend/app/services/quota.py admits: the caller's state, and the
-- client's limits on both quota rows.
use zangpu.Base.{
  ℕ, ◌+◌, ◌≤◌, ◌<◌, String, Bool, true, false, Option, none, some, ok, bind-eq-ok, ◌≡◌, refl, arith,
  eq_iff, contains, not, ◌>>◌, raise_if,
}
use zangpu.Models.{
  ApiClient, ApiClientCredential, ApiClientQuotaUsage, Scope, ClientStatus, CredentialStatus,
  is_active_client, is_active_credential,
}
use zangpu.Models.Database.{Database}
use zangpu.Quota.{
  admission_error, AdmissionCode, OperationReservation, QuotaRows, signed_bigint_max, period,
  check_quota_limit,
}
use zangpu.Quota.Accounting.{requests_in, reserved_in, consumed_in, row_of}
use zangpu.Quota.Accounting.Rows.{put_quota_rows-quota}
use zangpu.Quota.Reserve.{
  ReserveRequest, caller_state, check_caller, is_expired, check_limits, commit, charge_rows,
  charge_row, add_operation, reserve_operation,
}
use zangpu.Quota.Reserve.Success.{with_rows, reserve-Passes}

-- A count stays within a limit, if there is one.
abbrev pub Within : Option ℕ → ℕ → Type 0
Within none n = Unit
Within (some limit) n = n ≤ limit

-- The limits of a scope.
abbrev pub request_limit : Scope → ApiClient → Option ℕ
request_limit Scope.daily client = client.daily_request_limit
request_limit Scope.lifetime client = client.total_request_limit

abbrev pub token_limit : Scope → ApiClient → Option ℕ
token_limit Scope.daily client = client.daily_token_limit
token_limit Scope.lifetime client = client.total_token_limit

-- The row under a key is within the client's limits, and its tokens fit a signed 64-bit column.
pub record IsWithin (client : ApiClient) (s : Scope) (row : Option ApiClientQuotaUsage)
    : Type 0 where
  pub requests : Within (request_limit s client) (requests_in row)
  pub tokens : Within (token_limit s client) (consumed_in row + reserved_in row)
  pub fits : consumed_in row + reserved_in row ≤ signed_bigint_max

-- A row that passes the check has room for the request and its tokens.
check_quota_limit-Within :
    (row : ApiClientQuotaUsage) (requests tokens : Option ℕ) (n : ℕ) (c c' : AdmissionCode)
    → check_quota_limit row requests tokens n c c' ≡ ok tt
    → Within requests (row.request_count + 1)
      × Within tokens (row.token_consumed + (row.token_reserved + n))
      × (row.token_consumed + (row.token_reserved + n) ≤ signed_bigint_max)
unfolding check_quota_limit
check_quota_limit-Within row none none n c c' h = ground arith
check_quota_limit-Within row none (some t) n c c' h = ground arith
check_quota_limit-Within row (some r) none n c c' h = ground arith
check_quota_limit-Within row (some r) (some t) n c c' h = ground arith

check_limits-parts :
    (client : ApiClient) (rows : QuotaRows) (n : ℕ)
    → check_limits client rows n ≡ ok tt
    → (s : Scope)
    → Within (request_limit s client) ((row_of s rows).request_count + 1)
      × Within
          (token_limit s client)
          ((row_of s rows).token_consumed + ((row_of s rows).token_reserved + n))
      × ((row_of s rows).token_consumed + ((row_of s rows).token_reserved + n) ≤ signed_bigint_max)
unfolding check_limits
check_limits-parts client rows n h Scope.daily =
    let (u, daily, rest) =
      bind-eq-ok
        (check_quota_limit rows.daily client.daily_request_limit client.daily_token_limit n
          AdmissionCode.daily_request_quota_exceeded AdmissionCode.daily_token_quota_exceeded)
        _ h in
    check_quota_limit-Within rows.daily client.daily_request_limit client.daily_token_limit n _ _
      daily
check_limits-parts client rows n h Scope.lifetime =
    let (u, daily, rest) =
      bind-eq-ok
        (check_quota_limit rows.daily client.daily_request_limit client.daily_token_limit n
          AdmissionCode.daily_request_quota_exceeded AdmissionCode.daily_token_quota_exceeded)
        _ h in
    check_quota_limit-Within rows.lifetime client.total_request_limit client.total_token_limit n _ _
      rest

commit-row :
    (r : ReserveRequest) (rows : QuotaRows) (db : Database) (s : Scope)
    → (commit r rows db).1.quota_usage r.api_client_id s (period s r.now)
      ≡ some (charge_row r.reserved_tokens r.now (row_of s rows))
unfolding commit add_operation charge_rows
commit-row r rows db Scope.daily = ground (
  arith,
  put_quota_rows-quota r.api_client_id r.now (charge_rows r rows) db r.api_client_id Scope.daily
      (period Scope.daily r.now),
  eq_iff r.api_client_id r.api_client_id,
)
commit-row r rows db Scope.lifetime = ground (
  arith,
  put_quota_rows-quota r.api_client_id r.now (charge_rows r rows) db r.api_client_id Scope.lifetime
      (period Scope.lifetime r.now),
  eq_iff r.api_client_id r.api_client_id,
)

caller-parts :
    (r : ReserveRequest) {client : ApiClient} {credential : ApiClientCredential}
    (o : Option ApiClient) (k : Option ApiClientCredential)
    → caller_state r.api_client_id o k ≡ ok (client, credential)
    → (o ≡ some client) × (k ≡ some credential) × (credential.api_client_id ≡ r.api_client_id)
unfolding caller_state
caller-parts r none none q = cc
caller-parts r none (some b) q = cc
caller-parts r (some a) none q = cc
caller-parts r (some a) (some b) q = ground (arith, eq_iff b.api_client_id r.api_client_id)

-- A credential that has not expired: one with no end, or an end after the time.
abbrev pub Unexpired : Option ℕ → ℕ → Type 0
Unexpired none now = Unit
Unexpired (some expires_at) now = now < expires_at

is_expired-Unexpired : (o : Option ℕ) (now : ℕ) → is_expired o now ≡ false → Unexpired o now
is_expired-Unexpired none now h = tt
is_expired-Unexpired (some e) now h = ground arith

active_client : (s : ClientStatus) → is_active_client s ≡ true → s ≡ ClientStatus.active
active_client ClientStatus.active h = refl
active_client ClientStatus.disabled h = cc
active_client ClientStatus.archived h = cc

active_credential :
    (s : CredentialStatus) → is_active_credential s ≡ true → s ≡ CredentialStatus.active
active_credential CredentialStatus.active h = refl
active_credential CredentialStatus.revoked h = cc

-- A reservation that is admitted leaves the client's row of the day and its lifetime row within the
-- client's request and token limits, where it has any, and the sum of the row's consumed and reserved
-- tokens within a signed 64-bit column.
pub reserve-IsWithin :
    (r : ReserveRequest) (db : Database) (x : OperationReservation × Database)
    → reserve_operation r db ≡ ok x
    → (client : ApiClient) × (db.clients r.api_client_id ≡ some client)
      × ((s : Scope) → IsWithin client s (x.1.quota_usage r.api_client_id s (period s r.now)))
unfolding charge_row
reserve-IsWithin r db x h =
    let (client, credential, rows, passes, e) = reserve-Passes r db x h in
    (
      client,
      (caller-parts r (db.clients r.api_client_id) (db.credentials r.credential_id)
          passes.caller).0,
      λ s.
          let (a, b, c) = check_limits-parts client rows r.reserved_tokens passes.limited s in
          rw e (
            rw (commit-row r rows (with_rows r db) s)
              (record { requests = a; tokens = b; fits = c })),
    )

-- The caller of an admitted reservation: an active client that may call the endpoint and the model,
-- with an active credential of its own that has not expired.
pub record IsPermitted (r : ReserveRequest) (client : ApiClient) (credential : ApiClientCredential)
    : Type 0 where
  pub owner : credential.api_client_id ≡ r.api_client_id
  pub client_active : client.status ≡ ClientStatus.active
  pub credential_active : credential.status ≡ CredentialStatus.active
  pub unexpired : Unexpired credential.expires_at r.now
  pub endpoint : contains "chat.completions" client.allowed_endpoints ≡ true
  pub model : contains r.model_id client.allowed_models ≡ true

check_caller-parts :
    (client : ApiClient) (credential : ApiClientCredential) (model_id : String) (now : ℕ)
    → check_caller client credential model_id now ≡ ok tt
    → (is_active_client client.status ≡ true)
      × (is_active_credential credential.status ≡ true)
      × (is_expired credential.expires_at now ≡ false)
      × (contains "chat.completions" client.allowed_endpoints ≡ true)
      × (contains model_id client.allowed_models ≡ true)
unfolding check_caller
check_caller-parts client credential model_id now h =
    passed (is_active_client client.status) (is_active_credential credential.status)
      (is_expired credential.expires_at now) (contains "chat.completions" client.allowed_endpoints)
      (contains model_id client.allowed_models) h
  where
    passed :
        (a b c d e : Bool)
        → (do
          raise_if (not a) (admission_error AdmissionCode.client_disabled none)
          raise_if (not b) (admission_error AdmissionCode.credential_revoked none)
          raise_if c (admission_error AdmissionCode.credential_expired none)
          raise_if (not d) (admission_error AdmissionCode.endpoint_forbidden none)
          raise_if (not e) (admission_error AdmissionCode.model_forbidden none))
          ≡ ok tt
        → (a ≡ true) × (b ≡ true) × (c ≡ false) × (d ≡ true) × (e ≡ true)
    passed a b c d e q = ground arith

-- A reservation is admitted only for a client and a credential that are in the tables, belong
-- together, are active and unexpired at the time of the request, and allow the endpoint and model.
pub reserve-IsPermitted :
    (r : ReserveRequest) (db : Database) (x : OperationReservation × Database)
    → reserve_operation r db ≡ ok x
    → (client : ApiClient) × (credential : ApiClientCredential) × (db.clients r.api_client_id
        ≡ some client)
      × (db.credentials r.credential_id ≡ some credential)
      × IsPermitted r client credential
reserve-IsPermitted r db x h =
    let (client, credential, rows, passes, e) = reserve-Passes r db x h in
    let (a, b, c, d, m) = check_caller-parts client credential r.model_id r.now passes.permitted in
    let (found, key, owner) =
      caller-parts r (db.clients r.api_client_id) (db.credentials r.credential_id) passes.caller in
    (
      client,
      credential,
      found,
      key,
      record {
        owner = owner;
        client_active = active_client client.status a;
        credential_active = active_credential credential.status b;
        unexpired = is_expired-Unexpired credential.expires_at r.now c;
        endpoint = d;
        model = m;
      },
    )
