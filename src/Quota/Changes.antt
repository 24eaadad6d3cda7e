-- ===== src/Quota/Changes.antt =====
-- What a transaction of backend/app/services/quota.py can do to the tables of operations and events.
use mathlib.Core.Path.{subst}
use zangpu.Base.{
  ℕ, ◌+◌, max, ℤ, pos, negsuc, String, Bool, true, false, ◌⊎◌, inl, inr, none, some, ◌∷◌, ok,
  bind-eq-ok, ◌≡◌, refl, sym, ◌∙◌, arith, Option-cases, raise_if, ltb, ap, find_first,
}
use zangpu.Models.{ApiCallOperation, ApiCallEvent, Scope, is_pending}
use zangpu.Models.Database.{
  Database, put_quota, has_id, find_operation, replace_operation, put_operation,
}
use zangpu.Quota.{
  signed_bigint_max, value_error, OperationReservation, put_quota_rows, create_quota_rows,
  QuotaRows, insert_quota_row_if_missing, period,
}
use zangpu.Quota.Accounting.Rows.{create-operations, put_quota_rows-operations}
use zangpu.Quota.Accounting.Sums.{find_first-has_id}
use zangpu.Quota.Reserve.{
  ReserveRequest, reserve_operation, commit, charge_rows, new_operation, add_operation,
}
use zangpu.Quota.Reserve.Success.{with_rows, reserve-Passes}
use zangpu.Quota.Record.{
  pending_operation, record_credit_reservation, write_credit, record_provider_usage, with_usage,
  touch_pending_operation,
}
use zangpu.Quota.Finalize.{
  TerminalStatus, status_of, OperationTerminal, OperationTerminalSnapshot, finalize_operation,
  settle, terminate, terminal_event, add_event,
}
use zangpu.Quota.Finalize.Success.{Settles, settled_rows, finalize-Finalizes, replay-unchanged}

-- The event tells how the operation ended.
pub record Tells (event : ApiCallEvent) (op : ApiCallOperation) : Type 0 where
  pub operation_id : event.operation_id ≡ some op.id
  pub total_tokens : event.total_tokens ≡ op.total_tokens
  pub http_status : op.terminal_http_status ≡ some event.http_status
  pub code : op.terminal_code ≡ some event.business_code
  pub completed : op.completed_at ≡ some event.completed_at

pub data Change (db db' : Database) : Type 0 where
  kept : db'.operations ≡ db.operations → db'.events ≡ db.events → Change db db'
  opened :
      (op : ApiCallOperation)
      → find_operation op.id db ≡ none
      → is_pending op.status ≡ true
      → db'.operations ≡ op ∷ db.operations
      → db'.events ≡ db.events
      → Change db db'
  updated :
      (old new : ApiCallOperation)
      → find_operation new.id db ≡ some old
      → is_pending old.status ≡ true
      → is_pending new.status ≡ true
      → db'.operations ≡ replace_operation new db.operations
      → db'.events ≡ db.events
      → Change db db'
  ended :
      (old new : ApiCallOperation) (event : ApiCallEvent)
      → find_operation new.id db ≡ some old
      → is_pending old.status ≡ true
      → is_pending new.status ≡ false
      → Tells event new
      → db'.operations ≡ replace_operation new db.operations
      → db'.events ≡ event ∷ db.events
      → Change db db'

insert-events :
    (id c : String) (s : Scope) (p now : ℕ) (db : Database)
    → (insert_quota_row_if_missing id c s p now db).events ≡ db.events
unfolding insert_quota_row_if_missing put_quota
insert-events id c s p now db = ground arith

create-events :
    (ids : Scope → String) (c : String) (now : ℕ) (db : Database)
    → (create_quota_rows ids c now db).events ≡ db.events
unfolding create_quota_rows
create-events ids c now db =
    let db1 =
      insert_quota_row_if_missing (ids Scope.daily) c Scope.daily (period Scope.daily now) now db in
    insert-events (ids Scope.lifetime) c Scope.lifetime (period Scope.lifetime now) now db1
    ∙ insert-events (ids Scope.daily) c Scope.daily (period Scope.daily now) now db

put_quota_rows-events :
    (c : String) (now : ℕ) (rows : QuotaRows) (db : Database)
    → (put_quota_rows c now rows db).events ≡ db.events
unfolding put_quota_rows put_quota
put_quota_rows-events c now rows db = refl

create-find :
    (ids : Scope → String) (c : String) (now : ℕ) (db : Database) (i : String)
    → find_operation i (create_quota_rows ids c now db) ≡ find_operation i db
unfolding find_operation
create-find ids c now db i = rw (create-operations ids c now db)

pub reserve-Change :
    (r : ReserveRequest) (db : Database) (x : OperationReservation × Database)
    → reserve_operation r db ≡ ok x
    → Change db x.1
unfolding commit add_operation new_operation
reserve-Change r db x h =
    let (client, credential, rows, passes, e) = reserve-Passes r db x h in
    let charged = charge_rows r rows in
    rw e (
      Change.opened (new_operation r)
        (sym (create-find r.new_row_ids r.api_client_id r.now db r.operation_id) ∙ passes.fresh_id)
        refl
        (ap (λ ops. new_operation r ∷ ops)
          (put_quota_rows-operations r.api_client_id r.now charged (with_rows r db)
            ∙ create-operations r.new_row_ids r.api_client_id r.now db))
        (put_quota_rows-events r.api_client_id r.now charged (with_rows r db)
          ∙ create-events r.new_row_ids r.api_client_id r.now db))

-- An operation that is found is found by its own ID.
pub found_by_id :
    (i : String) (db : Database) (op : ApiCallOperation)
    → find_operation i db ≡ some op
    → find_operation op.id db ≡ some op
unfolding find_operation
found_by_id i db op f =
    subst (λ j. find_first (has_id j) db.operations ≡ some op)
      (sym (find_first-has_id i db.operations op f)) f

found-Change :
    (i : String) (db : Database) (old new : ApiCallOperation)
    → find_operation i db ≡ some old
    → is_pending old.status ≡ true
    → new.id ≡ old.id
    → new.status ≡ old.status
    → Change db (put_operation new db)
unfolding put_operation find_operation
found-Change i db old new f o e s =
    Change.updated old new (rw (e ∙ find_first-has_id i db.operations old f) f) o (rw s o) refl refl

pending-found :
    (i : String) (db : Database) (operation : ApiCallOperation)
    → pending_operation i db ≡ ok operation
    → (find_operation i db ≡ some operation) × (is_pending operation.status ≡ true)
unfolding pending_operation
pending-found i db operation h = ground arith

pub record_credit-Change :
    (i settlement usage : String) (now : ℕ) (db db' : Database)
    → record_credit_reservation i settlement usage now db ≡ ok db'
    → Change db db'
unfolding record_credit_reservation write_credit
record_credit-Change i settlement usage now db db' e =
    let (op, found, e1) = bind-eq-ok (pending_operation i db) _ e in
    let (f, o) = pending-found i db op found in
    let new : ApiCallOperation = record op {
      credit_settlement_id = some settlement;
      usage_operation_id = some usage;
      updated_at = now;
    } in
    let written : (db' ≡ db) ⊎ (db' ≡ put_operation new db) = ground arith in
    elim written [
      | inl same ↦ rw same (Change.kept refl refl)
      | inr put ↦ rw put (found-Change i db op new f o refl refl)
    ]

pub record_usage-Change :
    (i : String) (prompt completion : ℤ) (now : ℕ) (db db' : Database)
    → record_provider_usage i prompt completion now db ≡ ok db'
    → Change db db'
unfolding record_provider_usage with_usage
record_usage-Change i (pos a) (pos b) now db db' e =
    let (u, small, e1) =
      bind-eq-ok
        (raise_if (ltb signed_bigint_max (a + b)) (value_error "provider usage is too large")) _
        e in
    let (op, found, e2) = bind-eq-ok (pending_operation i db) _ e1 in
    let (f, o) = pending-found i db op found in
    let written : db' ≡ put_operation (with_usage op a b now) db = ground arith in
    rw written (found-Change i db op (with_usage op a b now) f o refl refl)
record_usage-Change i (pos a) (negsuc b) now db db' e = cc
record_usage-Change i (negsuc a) (pos b) now db db' e = cc
record_usage-Change i (negsuc a) (negsuc b) now db db' e = cc

pub touch-Change :
    (i : String) (now : ℤ) (db : Database) (x : Bool × Database)
    → touch_pending_operation i now db ≡ ok x
    → Change db x.1
unfolding touch_pending_operation
touch-Change i (negsuc n) db x e = cc
touch-Change i (pos n) db x e = elim (Option-cases (find_operation i db)) [
  | inl missing ↦ cc (rw (missing, touch_pending_operation) at e)
  | inr (op, found) ↦
      let new : ApiCallOperation = record op { updated_at = max op.updated_at n } in
      let written : (x.1 ≡ db) ⊎ ((is_pending op.status ≡ true) × (x.1 ≡ put_operation new db)) =
        ground arith in
      elim written [
        | inl same ↦ rw same (Change.kept refl refl)
        | inr (o, put) ↦ rw put (found-Change i db op new found o refl refl)
      ]
]

settle-Change :
    (new_id i : String) (operation : ApiCallOperation) (terminal : OperationTerminal)
    (rows : QuotaRows) (db : Database) (x : OperationTerminalSnapshot × Database)
    → find_operation i db ≡ some operation
    → Settles new_id operation terminal rows db x
    → Change db x.1
unfolding settle add_event put_operation terminate terminal_event put_quota_rows put_quota
settle-Change new_id i operation terminal rows db x f m = rw m.result (
    Change.ended operation (terminate operation terminal)
      (terminal_event new_id operation terminal (settled_rows operation terminal rows))
      (found_by_id i db operation f) m.pending (ended_status terminal.status)
      (record {
        operation_id = refl;
        total_tokens = refl;
        http_status = refl;
        code = refl;
        completed = refl;
      })
      refl refl)
  where
    ended_status : (s : TerminalStatus) → is_pending (status_of s) ≡ false
    ended_status TerminalStatus.completed = refl
    ended_status TerminalStatus.rejected = refl
    ended_status TerminalStatus.abandoned = refl

pub finalize-Change :
    (new_id i : String) (terminal : OperationTerminal) (db : Database)
    (x : OperationTerminalSnapshot × Database)
    → finalize_operation new_id i terminal db ≡ ok x
    → Change db x.1
finalize-Change new_id i terminal db x h =
    let (operation, rows, f) = finalize-Finalizes new_id i terminal db x h in
    elim f.settled_or_replayed [
      | inl m ↦ settle-Change new_id i operation terminal rows db x f.found m
      | inr m ↦ rw (replay-unchanged operation terminal rows db x m.1) (Change.kept refl refl)
    ]
