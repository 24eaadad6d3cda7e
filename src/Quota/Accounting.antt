-- ===== src/Quota/Accounting.antt =====
-- What the quota rows have to say: for every client, scope and period, a row counts the operations
-- that started in it, the tokens that its pending operations hold, and the tokens that its terminal
-- ones have used. Lemmas on these sums and on the rows that quota.py reads and writes.
pub mod Rows
pub mod Sums
use zangpu.Base.{
  ℕ, ◌+◌, String, Bool, true, false, ◌&&◌, Option, none, some, List, [], ◌∷◌, Result, ok, ◌≡◌, refl,
  inl, inr, arith, str_eq, eq_iff, eq_refl, ◌==◌, ==_iff, if◌then◌else◌, Option-cases, Bool-cases,
  find_first,
}
use zangpu.Models.{ApiClientQuotaUsage, ApiCallOperation, Scope, is_pending, same_scope}
use zangpu.Models.Database.{
  Database, put_quota, same_key, has_id, find_operation, replace_operation, put_operation,
}
use zangpu.Quota.{
  QuotaRows, period, insert_quota_row_if_missing, create_quota_rows, select_quota_rows,
  put_quota_rows, QuotaError,
}

-- The operation belongs to the client and started in the period of the scope.
abbrev pub covers : String → Scope → ℕ → ApiCallOperation → Bool
covers c s p op = str_eq op.api_client_id c && period s op.started_at == p

abbrev pub weight : (ApiCallOperation → ℕ) → String → Scope → ℕ → ApiCallOperation → ℕ
weight f c s p op = if covers c s p op then f op else 0

-- The sum of `f` over the operations that the key covers.
abbrev pub tally : (ApiCallOperation → ℕ) → String → Scope → ℕ → List ApiCallOperation → ℕ
tally f c s p [] = 0
tally f c s p (op ∷ ops) = weight f c s p op + tally f c s p ops

abbrev pub one : ApiCallOperation → ℕ
one op = 1

abbrev pub held : ApiCallOperation → ℕ
held op = if is_pending op.status then op.reserved_tokens else 0

abbrev pub used : ApiCallOperation → ℕ
used op = if is_pending op.status then 0 else op.total_tokens

-- The counters of a row; a row that is missing counts nothing.
abbrev pub requests_in : Option ApiClientQuotaUsage → ℕ
requests_in none = 0
requests_in (some row) = row.request_count

abbrev pub reserved_in : Option ApiClientQuotaUsage → ℕ
reserved_in none = 0
reserved_in (some row) = row.token_reserved

abbrev pub consumed_in : Option ApiClientQuotaUsage → ℕ
consumed_in none = 0
consumed_in (some row) = row.token_consumed

pub record BalancedAt (db : Database) (c : String) (s : Scope) (p : ℕ) : Type 0 where
  pub requests : requests_in (db.quota_usage c s p) ≡ tally one c s p db.operations
  pub reserved : reserved_in (db.quota_usage c s p) ≡ tally held c s p db.operations
  pub consumed : consumed_in (db.quota_usage c s p) ≡ tally used c s p db.operations

-- Every row agrees with the operations.
abbrev pub IsBalanced : Database → Type 0
IsBalanced db = (c : String) (s : Scope) (p : ℕ) → BalancedAt db c s p

-- The row of a scope.
abbrev pub row_of : Scope → QuotaRows → ApiClientQuotaUsage
row_of Scope.daily rows = rows.daily
row_of Scope.lifetime rows = rows.lifetime
