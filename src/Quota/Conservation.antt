-- ===== src/Quota/Conservation.antt =====
-- The operations of backend/app/services/quota.py and the agreement of the quota rows with the
-- operations that Accounting states.
use zangpu.Base.{
  ℕ, ◌+◌, max, ℤ, pos, negsuc, String, Bool, true, inl, inr, some, ok, bind-eq-ok, ◌≡◌, refl, arith,
  Bool-cases, raise_if, ltb, Option-cases,
}
use zangpu.Models.{ApiCallOperation, Scope, is_pending}
use zangpu.Models.Database.{Database, find_operation, put_operation}
use zangpu.Quota.{
  QuotaRows, OperationReservation, select_quota_rows, signed_bigint_max, value_error,
}
use zangpu.Quota.Accounting.{IsBalanced, BalancedAt, one, held, used}
use zangpu.Quota.Accounting.Rows.{
  create-IsBalanced, select-row_at, put_quota_rows-quota, put_quota_rows-operations,
}
use zangpu.Quota.Accounting.Sums.{tally-put}
use zangpu.Quota.Reserve.{
  ReserveRequest, reserve_operation, commit, charge_rows, charge_row, new_operation, add_operation,
}
use zangpu.Quota.Reserve.Success.{with_rows, reserve-Passes}
use zangpu.Quota.Record.{
  pending_operation, record_credit_reservation, write_credit, record_provider_usage, with_usage,
  touch_pending_operation,
}
use zangpu.Quota.Finalize.{
  OperationTerminal, OperationTerminalSnapshot, finalize_operation, settle, settled_row, terminate,
  add_event,
}
use zangpu.Quota.Finalize.Success.{Settles, settled_rows, finalize-Finalizes, replay-unchanged}

commit-BalancedAt :
    (r : ReserveRequest) (rows : QuotaRows) (db : Database) (c : String) (s : Scope) (p : ℕ)
    → select_quota_rows r.api_client_id r.now db ≡ ok rows
    → BalancedAt db c s p
    → BalancedAt (commit r rows db).1 c s p
unfolding commit add_operation new_operation charge_rows charge_row
commit-BalancedAt r rows db c Scope.daily p h b = ground (
  arith,
  select-row_at r.api_client_id r.now db rows c Scope.daily p h,
  put_quota_rows-quota r.api_client_id r.now (charge_rows r rows) db c Scope.daily p,
  put_quota_rows-operations r.api_client_id r.now (charge_rows r rows) db,
)
commit-BalancedAt r rows db c Scope.lifetime p h b = ground (
  arith,
  select-row_at r.api_client_id r.now db rows c Scope.lifetime p h,
  put_quota_rows-quota r.api_client_id r.now (charge_rows r rows) db c Scope.lifetime p,
  put_quota_rows-operations r.api_client_id r.now (charge_rows r rows) db,
)

-- A reservation that is admitted keeps every quota row in agreement with the operations: each row
-- still counts the requests, the tokens held and the tokens used of the operations under its key.
pub reserve-IsBalanced :
    (r : ReserveRequest) (db : Database) (x : OperationReservation × Database)
    → IsBalanced db
    → reserve_operation r db ≡ ok x
    → IsBalanced x.1
reserve-IsBalanced r db x b h c s p =
    let (client, credential, rows, passes, e) = reserve-Passes r db x h in
    rw e (
      commit-BalancedAt r rows (with_rows r db) c s p passes.selected
        (create-IsBalanced r.new_row_ids r.api_client_id r.now db b c s p))

-- Writing back a row of the same client, start, status and reservation changes no sum, if it is pending.
same-BalancedAt :
    (db : Database) (i : String) (old new : ApiCallOperation) (c : String) (s : Scope) (p : ℕ)
    → find_operation i db ≡ some old
    → is_pending old.status ≡ true
    → new.id ≡ old.id
    → new.api_client_id ≡ old.api_client_id
    → new.started_at ≡ old.started_at
    → new.status ≡ old.status
    → new.reserved_tokens ≡ old.reserved_tokens
    → BalancedAt db c s p
    → BalancedAt (put_operation new db) c s p
unfolding put_operation
same-BalancedAt db i old new c s p f o e1 e2 e3 e4 e5 b = ground (
  arith,
  tally-put one c s p db old new i f e1,
  tally-put held c s p db old new i f e1,
  tally-put used c s p db old new i f e1,
)

settle-BalancedAt :
    (new_id i : String) (operation : ApiCallOperation) (terminal : OperationTerminal)
    (rows : QuotaRows) (db : Database) (x : OperationTerminalSnapshot × Database) (c : String)
    (s : Scope) (p : ℕ)
    → find_operation i db ≡ some operation
    → select_quota_rows operation.api_client_id operation.started_at db ≡ ok rows
    → Settles new_id operation terminal rows db x
    → BalancedAt db c s p
    → BalancedAt x.1 c s p
unfolding settle add_event put_operation terminate settled_row
settle-BalancedAt new_id i operation terminal rows db x c Scope.daily p f h m b = ground (
  arith,
  tally-put one c Scope.daily p db operation (terminate operation terminal) i f refl,
  tally-put held c Scope.daily p db operation (terminate operation terminal) i f refl,
  tally-put used c Scope.daily p db operation (terminate operation terminal) i f refl,
  select-row_at operation.api_client_id operation.started_at db rows c Scope.daily p h,
  put_quota_rows-quota operation.api_client_id operation.started_at
      (settled_rows operation terminal rows) db c Scope.daily p,
  put_quota_rows-operations operation.api_client_id operation.started_at
      (settled_rows operation terminal rows) db,
)
settle-BalancedAt new_id i operation terminal rows db x c Scope.lifetime p f h m b = ground (
  arith,
  tally-put one c Scope.lifetime p db operation (terminate operation terminal) i f refl,
  tally-put held c Scope.lifetime p db operation (terminate operation terminal) i f refl,
  tally-put used c Scope.lifetime p db operation (terminate operation terminal) i f refl,
  select-row_at operation.api_client_id operation.started_at db rows c Scope.lifetime p h,
  put_quota_rows-quota operation.api_client_id operation.started_at
      (settled_rows operation terminal rows) db c Scope.lifetime p,
  put_quota_rows-operations operation.api_client_id operation.started_at
      (settled_rows operation terminal rows) db,
)

-- Finalizing an operation keeps every quota row in agreement with the operations: the tokens that
-- it held are released and the tokens that it used are charged, once, and a repeated call with the
-- same evidence charges nothing more.
pub finalize-IsBalanced :
    (new_id i : String) (terminal : OperationTerminal) (db : Database)
    (x : OperationTerminalSnapshot × Database)
    → IsBalanced db
    → finalize_operation new_id i terminal db ≡ ok x
    → IsBalanced x.1
finalize-IsBalanced new_id i terminal db x b h c s p =
    let (operation, rows, f) = finalize-Finalizes new_id i terminal db x h in
    elim f.settled_or_replayed [
      | inl m ↦
          settle-BalancedAt new_id i operation terminal rows db x c s p f.found f.selected m
            (b c s p)
      | inr m ↦ rw (replay-unchanged operation terminal rows db x m.1) (b c s p)
    ]

pending-found :
    (i : String) (db : Database) (operation : ApiCallOperation)
    → pending_operation i db ≡ ok operation
    → (find_operation i db ≡ some operation) × (is_pending operation.status ≡ true)
unfolding pending_operation
pending-found i db operation h = ground arith

-- Recording what the provider used keeps every quota row in agreement with the operations.
pub record_provider_usage-IsBalanced :
    (i : String) (prompt completion : ℤ) (now : ℕ) (db db' : Database)
    → IsBalanced db
    → record_provider_usage i prompt completion now db ≡ ok db'
    → IsBalanced db'
unfolding record_provider_usage with_usage
record_provider_usage-IsBalanced i (pos a) (pos b) now db db' h e c s p =
    let (u, small, e1) =
      bind-eq-ok
        (raise_if (ltb signed_bigint_max (a + b)) (value_error "provider usage is too large")) _
        e in
    let (op, found, e2) = bind-eq-ok (pending_operation i db) _ e1 in
    let (f, o) = pending-found i db op found in
    ground (
      arith,
      same-BalancedAt db i op (with_usage op a b now) c s p f o refl refl refl refl refl (h c s p),
    )
record_provider_usage-IsBalanced i (pos a) (negsuc b) now db db' h e c s p = cc
record_provider_usage-IsBalanced i (negsuc a) (pos b) now db db' h e c s p = cc
record_provider_usage-IsBalanced i (negsuc a) (negsuc b) now db db' h e c s p = cc

-- Recording the credit reservation keeps every quota row in agreement with the operations.
pub record_credit_reservation-IsBalanced :
    (i settlement usage : String) (now : ℕ) (db db' : Database)
    → IsBalanced db
    → record_credit_reservation i settlement usage now db ≡ ok db'
    → IsBalanced db'
unfolding record_credit_reservation write_credit
record_credit_reservation-IsBalanced i settlement usage now db db' h e c s p =
    let (op, found, e1) = bind-eq-ok (pending_operation i db) _ e in
    let (f, o) = pending-found i db op found in
    let new : ApiCallOperation = record op {
      credit_settlement_id = some settlement;
      usage_operation_id = some usage;
      updated_at = now;
    } in
    ground
      (arith, h c s p, same-BalancedAt db i op new c s p f o refl refl refl refl refl (h c s p))

-- A heartbeat keeps every quota row in agreement with the operations.
pub touch-IsBalanced :
    (i : String) (now : ℤ) (db : Database) (x : Bool × Database)
    → IsBalanced db
    → touch_pending_operation i now db ≡ ok x
    → IsBalanced x.1
unfolding touch_pending_operation
touch-IsBalanced i (negsuc n) db x h e c s p = cc
touch-IsBalanced i (pos n) db x h e c s p = elim (Option-cases (find_operation i db)) [
  | inl missing ↦ ground arith
  | inr (op, found) ↦
      let new : ApiCallOperation = record op { updated_at = max op.updated_at n } in
      elim (Bool-cases (is_pending op.status)) [
        | inl o ↦ ground (
          arith,
          h c s p,
          same-BalancedAt db i op new c s p found o refl refl refl refl refl (h c s p),
        )
        | inr o ↦ ground (arith, h c s p)
      ]
]
