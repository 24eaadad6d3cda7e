-- ===== src/Quota.antt =====
-- backend/app/services/quota.py: the quota ledger. This file has its errors, its results and its
-- quota rows; the operations stand in the children Reserve, Record and Finalize. Each operation maps
-- the database to its result and the new database, or raises: the callers run it inside
-- `session.begin()`, so what a raising operation has written is rolled back (Quota.Transaction).
pub mod Reserve
pub mod Record
pub mod Finalize
pub mod Transaction
pub mod Accounting
pub mod Conservation
pub mod Changes
pub mod Admission
pub mod Duplicates
pub mod Lifecycle
pub mod Evidence
pub mod Outcome
pub mod Progress
mod Examples
use zangpu.Base.{
  ℕ, ◌+◌, ◌-◌, ◌*◌, ◌^◌, ◌%◌, String, Bool, true, false, Option, none, some, Result, ok, err, ◌>>=◌,
  ◌>>◌, raise_if, ltb, if◌then◌else◌,
}
use zangpu.Models.{ApiClientQuotaUsage, Scope}
use zangpu.Models.Database.{Database, put_quota}

abbrev pub signed_bigint_max : ℕ
signed_bigint_max = 2 ^ 63 - 1

-- The codes that a QuotaAdmissionError carries.
pub data AdmissionCode : Type 0 where
  client_disabled credential_revoked credential_expired endpoint_forbidden model_forbidden :
      AdmissionCode
  request_id_conflict request_in_progress request_already_completed : AdmissionCode
  daily_request_quota_exceeded daily_token_quota_exceeded : AdmissionCode
  total_request_quota_exceeded total_token_quota_exceeded : AdmissionCode

-- QuotaAdmissionError with its operation ID, QuotaStateError and ValueError with their messages.
pub data QuotaError : Type 0 where
  admission_error : AdmissionCode → Option String → QuotaError
  state_error : String → QuotaError
  value_error : String → QuotaError

pub record OperationReservation : Type 0 where
  pub operation_id : String
  pub daily_requests_after : ℕ
  pub daily_tokens_reserved_after : ℕ
  pub total_requests_after : ℕ
  pub total_tokens_reserved_after : ℕ

-- The clock is read in nonnegative epoch seconds, so the guard against a negative one is idle.
unfoldable pub utc_day_start : ℕ → ℕ
utc_day_start timestamp = timestamp - timestamp % 86_400

-- The `periods` of `_locked_quota_rows`.
unfoldable pub period : Scope → ℕ → ℕ
unfolding utc_day_start
period Scope.daily started_at = utc_day_start started_at
period Scope.lifetime started_at = 0

unfoldable pub new_row : String → ℕ → ApiClientQuotaUsage
new_row id now = record {
  id = id;
  request_count = 0;
  token_reserved = 0;
  token_consumed = 0;
  version = 1;
  updated_at = now;
}

-- `INSERT … ON CONFLICT DO NOTHING` on the unique key. The row's ID is `new_uuid()`.
unfoldable pub insert_quota_row_if_missing : String → String → Scope → ℕ → ℕ → Database → Database
unfolding new_row
insert_quota_row_if_missing new_id api_client_id scope period_start now db =
    elim (db.quota_usage api_client_id scope period_start) [
      | none ↦ put_quota api_client_id scope period_start (new_row new_id now) db
      | some _ ↦ db
    ]

-- The dictionary `by_scope`.
pub record QuotaRows : Type 0 where
  pub daily : ApiClientQuotaUsage
  pub lifetime : ApiClientQuotaUsage

both_rows : Option ApiClientQuotaUsage → Option ApiClientQuotaUsage → Result QuotaError QuotaRows
both_rows (some d) (some l) = ok (record { daily = d; lifetime = l })
both_rows _ _ = err (state_error "quota rows are unavailable")

-- The reading part of `_locked_quota_rows`: it raises unless both rows are there.
unfoldable pub select_quota_rows : String → ℕ → Database → Result QuotaError QuotaRows
unfolding both_rows
select_quota_rows api_client_id started_at db =
    both_rows (db.quota_usage api_client_id Scope.daily (period Scope.daily started_at))
      (db.quota_usage api_client_id Scope.lifetime (period Scope.lifetime started_at))

-- The part of `_locked_quota_rows` under `create`: daily first, then lifetime.
unfoldable pub create_quota_rows : (Scope → String) → String → ℕ → Database → Database
create_quota_rows new_ids api_client_id started_at db =
    insert_quota_row_if_missing (new_ids Scope.lifetime) api_client_id Scope.lifetime
      (period Scope.lifetime started_at) started_at
      (insert_quota_row_if_missing (new_ids Scope.daily) api_client_id Scope.daily
        (period Scope.daily started_at) started_at db)

-- Flushes both rows.
unfoldable pub put_quota_rows : String → ℕ → QuotaRows → Database → Database
put_quota_rows api_client_id started_at rows db =
    put_quota api_client_id Scope.lifetime (period Scope.lifetime started_at) rows.lifetime
      (put_quota api_client_id Scope.daily (period Scope.daily started_at) rows.daily db)

-- `limit is not None and used > limit`
abbrev pub exceeds : ℕ → Option ℕ → Bool
exceeds used none = false
exceeds used (some limit) = ltb limit used

unfoldable pub check_quota_limit :
    ApiClientQuotaUsage
    → Option ℕ
    → Option ℕ
    → ℕ
    → AdmissionCode
    → AdmissionCode
    → Result QuotaError (Unit {0})
check_quota_limit row request_limit token_limit reserved_tokens request_code usage_limit_code = do
  raise_if (exceeds (row.request_count + 1) request_limit) (admission_error request_code none)
  let projected_tokens = row.token_consumed + row.token_reserved + reserved_tokens
  raise_if (exceeds projected_tokens token_limit) (admission_error usage_limit_code none)
  raise_if (ltb signed_bigint_max projected_tokens)
      (state_error "quota token counter would overflow")
