-- ===== src/Quota/Progress.antt =====
-- When `finalize_operation` of backend/app/services/quota.py goes through.
use zangpu.Base.{
  ℕ, ◌+◌, ◌≤◌, ◌<◌, String, true, Option, none, some, List, [], ◌∷◌, ok, ◌≡◌, refl, arith, eq_refl,
  find_first,
}
use zangpu.Models.{ApiCallOperation, ApiClientQuotaUsage, Scope, is_pending}
use zangpu.Models.Database.{Database, has_id, find_operation}
use zangpu.Quota.{QuotaRows, signed_bigint_max, period, select_quota_rows}
use zangpu.Quota.Accounting.{IsBalanced, weight, tally, held, reserved_in, consumed_in}
use zangpu.Quota.Finalize.{
  OperationTerminal, finalize_operation, finalize_found, finalize_pending, settle_row, settle,
}
use zangpu.Quota.Finalize.Success.{settled_rows}

-- A sum is no less than the weight of an operation that is found.
weight-le-tally :
    (f : ApiCallOperation → ℕ) (c : String) (s : Scope) (p : ℕ) (i : String)
    (ops : List ApiCallOperation) (op : ApiCallOperation)
    → find_first (has_id i) ops ≡ some op
    → weight f c s p op ≤ tally f c s p ops
weight-le-tally f c s p i [] op h = cc
weight-le-tally f c s p i (x ∷ ops) op h = ground (arith, weight-le-tally f c s p i ops op)

row-holds :
    (db : Database) (i : String) (op : ApiCallOperation) (s : Scope)
    → IsBalanced db
    → find_operation i db ≡ some op
    → is_pending op.status ≡ true
    → op.reserved_tokens ≤ reserved_in (db.quota_usage op.api_client_id s (period s op.started_at))
unfolding find_operation
row-holds db i op s b f o =
    let key = period s op.started_at in
    ground (
      arith,
      b op.api_client_id s key,
      weight-le-tally held op.api_client_id s key i db.operations op f,
      eq_refl op.api_client_id,
    )

found_row :
    (o : Option ApiClientQuotaUsage) (n : ℕ)
    → 0 < n
    → n ≤ reserved_in o
    → (row : ApiClientQuotaUsage) × (o ≡ some row) × (n ≤ row.token_reserved)
found_row none n p h = absurd (omega arith)
found_row (some row) n p h = (row, refl, h)

pub finalize_succeeds :
    (new_id i : String) (op : ApiCallOperation) (terminal : OperationTerminal) (db : Database)
    → IsBalanced db
    → find_operation i db ≡ some op
    → is_pending op.status ≡ true
    → 0 < op.reserved_tokens
    → op.started_at ≤ terminal.completed_at
    → ((s : Scope)
        → consumed_in (db.quota_usage op.api_client_id s (period s op.started_at)) + op.total_tokens
          ≤ signed_bigint_max)
    → (rows : QuotaRows) × (select_quota_rows op.api_client_id op.started_at db ≡ ok rows)
      × (finalize_operation new_id i terminal db
          ≡ ok (settle new_id op terminal (settled_rows op terminal rows) db))
unfolding finalize_operation finalize_found finalize_pending settle_row select_quota_rows
finalize_succeeds new_id i op terminal db b found o positive ordered fits =
    let (d, hd, rd) =
      found_row (db.quota_usage op.api_client_id Scope.daily (period Scope.daily op.started_at))
        op.reserved_tokens positive (row-holds db i op Scope.daily b found o) in
    let (l, hl, rl) =
      found_row
        (db.quota_usage op.api_client_id Scope.lifetime (period Scope.lifetime op.started_at))
        op.reserved_tokens positive (row-holds db i op Scope.lifetime b found o) in
    (
      record { daily = d; lifetime = l },
      ground arith,
      ground (arith, fits Scope.daily, fits Scope.lifetime),
    )
