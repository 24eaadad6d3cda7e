-- ===== src/Quota/Finalize/Success.antt =====
-- What a successful `finalize_operation` has found: either the operation was pending and both rows
-- were settled, or it was terminal already with the same evidence.
use zangpu.Base.{
  ℕ, ◌+◌, ◌≤◌, String, true, false, ◌⊎◌, inl, inr, Option, none, some, ok, bind-eq-ok, ◌≡◌, refl,
  arith, Bool-cases, raise_if, ltb,
}
use zangpu.Models.{ApiCallOperation, ApiClientQuotaUsage, is_pending}
use zangpu.Models.Database.{Database, find_operation}
use zangpu.Quota.{QuotaRows, value_error, select_quota_rows, signed_bigint_max}
use zangpu.Quota.Finalize.{
  OperationTerminal, OperationTerminalSnapshot, replay_terminal, settle_row, settled_row, settle,
  finalize_pending, finalize_found, finalize_operation, terminal_snapshot,
}

abbrev pub settled_rows : ApiCallOperation → OperationTerminal → QuotaRows → QuotaRows
settled_rows operation terminal rows = record {
  daily = settled_row operation terminal.completed_at rows.daily;
  lifetime = settled_row operation terminal.completed_at rows.lifetime;
}

settle_row_inv :
    (operation : ApiCallOperation) (at : ℕ) (row row' : ApiClientQuotaUsage)
    → settle_row operation at row ≡ ok row'
    → (operation.reserved_tokens ≤ row.token_reserved)
      × (row.token_consumed + operation.total_tokens ≤ signed_bigint_max)
      × (row' ≡ settled_row operation at row)
unfolding settle_row
settle_row_inv operation at row row' h = ground arith

-- The pending branch in full.
pub record Settles (new_id : String) (operation : ApiCallOperation) (terminal : OperationTerminal)
    (rows : QuotaRows) (db : Database) (x : OperationTerminalSnapshot × Database) : Type 0 where
  pub pending : is_pending operation.status ≡ true
  pub ordered : operation.started_at ≤ terminal.completed_at
  pub daily_held : operation.reserved_tokens ≤ rows.daily.token_reserved
  pub lifetime_held : operation.reserved_tokens ≤ rows.lifetime.token_reserved
  pub daily_fits : rows.daily.token_consumed + operation.total_tokens ≤ signed_bigint_max
  pub lifetime_fits : rows.lifetime.token_consumed + operation.total_tokens ≤ signed_bigint_max
  pub result : x ≡ settle new_id operation terminal (settled_rows operation terminal rows) db

finalize_pending-Settles :
    (new_id : String) (operation : ApiCallOperation) (terminal : OperationTerminal)
    (rows : QuotaRows) (db : Database) (x : OperationTerminalSnapshot × Database)
    → is_pending operation.status ≡ true
    → finalize_pending new_id operation terminal rows db ≡ ok x
    → Settles new_id operation terminal rows db x
unfolding finalize_pending
finalize_pending-Settles new_id operation terminal rows db x p h =
    let (u, ordered, h1) =
      bind-eq-ok
        (raise_if (ltb terminal.completed_at operation.started_at)
          (value_error "terminal completion precedes operation start"))
        _ h in
    let (d, hd, h2) = bind-eq-ok (settle_row operation terminal.completed_at rows.daily) _ h1 in
    let (l, hl, h3) = bind-eq-ok (settle_row operation terminal.completed_at rows.lifetime) _ h2 in
    ground (
      arith,
      settle_row_inv operation terminal.completed_at rows.daily d hd,
      settle_row_inv operation terminal.completed_at rows.lifetime l hl,
    )

pub record Finalizes (new_id operation_id : String) (terminal : OperationTerminal) (db : Database)
    (x : OperationTerminalSnapshot × Database) (operation : ApiCallOperation) (rows : QuotaRows)
    : Type 0 where
  pub found : find_operation operation_id db ≡ some operation
  pub selected : select_quota_rows operation.api_client_id operation.started_at db ≡ ok rows
  pub settled_or_replayed :
      Settles new_id operation terminal rows db x
      ⊎ ((is_pending operation.status ≡ false)
          × (replay_terminal operation terminal rows db ≡ ok x))

finalize_found-Finalizes :
    (new_id operation_id : String) (terminal : OperationTerminal) (db : Database)
    (x : OperationTerminalSnapshot × Database) (o : Option ApiCallOperation)
    → find_operation operation_id db ≡ o
    → finalize_found new_id o terminal db ≡ ok x
    → (operation : ApiCallOperation) × (rows : QuotaRows) × Finalizes new_id operation_id terminal
        db x operation rows
unfolding finalize_found
finalize_found-Finalizes new_id i terminal db x none e h = cc
finalize_found-Finalizes new_id i terminal db x (some operation) e h =
    let (rows, selected, h1) =
      bind-eq-ok (select_quota_rows operation.api_client_id operation.started_at db) _ h in
    (
      operation,
      rows,
      record {
        found = e;
        selected = selected;
        settled_or_replayed = elim (Bool-cases (is_pending operation.status)) [
          | inl p ↦
              inl (finalize_pending-Settles new_id operation terminal rows db x p (rw p at h1))
          | inr p ↦ inr (p, rw p at h1)
        ];
      },
    )

pub finalize-Finalizes :
    (new_id operation_id : String) (terminal : OperationTerminal) (db : Database)
    (x : OperationTerminalSnapshot × Database)
    → finalize_operation new_id operation_id terminal db ≡ ok x
    → (operation : ApiCallOperation) × (rows : QuotaRows) × Finalizes new_id operation_id terminal
        db x operation rows
unfolding finalize_operation
finalize-Finalizes new_id i terminal db x h =
    finalize_found-Finalizes new_id i terminal db x (find_operation i db) refl h

-- A replay returns the snapshot and writes nothing.
pub replay-unchanged :
    (operation : ApiCallOperation) (terminal : OperationTerminal) (rows : QuotaRows) (db : Database)
    (x : OperationTerminalSnapshot × Database)
    → replay_terminal operation terminal rows db ≡ ok x
    → x ≡ (terminal_snapshot operation rows, db)
unfolding replay_terminal
replay-unchanged operation terminal rows db x h = ground arith
