-- ===== src/Quota/Outcome.antt =====
-- The operation after a successful `finalize_operation` of backend/app/services/quota.py.
use zangpu.Base.{
  ℕ, String, true, Option, none, some, inl, inr, ok, ◌≡◌, refl, ap, arith, eq_iff, eq_refl,
}
use zangpu.Models.{ApiCallOperation, OperationStatus, same_status}
use zangpu.Models.Database.{Database, find_operation, put_operation, put_quota}
use zangpu.Quota.{QuotaRows, put_quota_rows}
use zangpu.Quota.Record.{holds}
use zangpu.Quota.Finalize.{
  OperationTerminal, OperationTerminalSnapshot, status_of, replay_terminal, status_is,
  finalize_operation, settle, add_event, terminate,
}
use zangpu.Quota.Finalize.Success.{finalize-Finalizes, replay-unchanged}
use zangpu.Quota.Accounting.Sums.{find_first-has_id}
use zangpu.Quota.Changes.{found_by_id}
use zangpu.Quota.Evidence.{find-replace}

-- The operation is there with the status, the status code and the code of the terminal record.
pub record HasEnded (operation_id : String) (terminal : OperationTerminal) (db : Database)
    : Type 0 where
  pub operation : ApiCallOperation
  pub found : find_operation operation_id db ≡ some operation
  pub status : operation.status ≡ status_of terminal.status
  pub http_status : operation.terminal_http_status ≡ some terminal.http_status
  pub code : operation.terminal_code ≡ some terminal.business_code

same_status-eq : (a b : OperationStatus) → same_status a b ≡ true → a ≡ b
same_status-eq OperationStatus.pending OperationStatus.pending h = refl
same_status-eq OperationStatus.pending OperationStatus.completed h = cc
same_status-eq OperationStatus.pending OperationStatus.rejected h = cc
same_status-eq OperationStatus.pending OperationStatus.abandoned h = cc
same_status-eq OperationStatus.completed OperationStatus.pending h = cc
same_status-eq OperationStatus.completed OperationStatus.completed h = refl
same_status-eq OperationStatus.completed OperationStatus.rejected h = cc
same_status-eq OperationStatus.completed OperationStatus.abandoned h = cc
same_status-eq OperationStatus.rejected OperationStatus.pending h = cc
same_status-eq OperationStatus.rejected OperationStatus.completed h = cc
same_status-eq OperationStatus.rejected OperationStatus.rejected h = refl
same_status-eq OperationStatus.rejected OperationStatus.abandoned h = cc
same_status-eq OperationStatus.abandoned OperationStatus.pending h = cc
same_status-eq OperationStatus.abandoned OperationStatus.completed h = cc
same_status-eq OperationStatus.abandoned OperationStatus.rejected h = cc
same_status-eq OperationStatus.abandoned OperationStatus.abandoned h = refl

status_is-eq : (o : Option ℕ) (n : ℕ) → status_is o n ≡ true → o ≡ some n
status_is-eq none n h = cc
status_is-eq (some m) n h = ap some (ground arith)

holds-eq : (o : Option String) (s : String) → holds o s ≡ true → o ≡ some s
holds-eq none s h = cc
holds-eq (some t) s h = ap some (ground (arith, eq_iff t s))

replayed_tests :
    (operation : ApiCallOperation) (terminal : OperationTerminal) (rows : QuotaRows) (db : Database)
    (x : OperationTerminalSnapshot × Database)
    → replay_terminal operation terminal rows db ≡ ok x
    → (same_status operation.status (status_of terminal.status) ≡ true)
      × (status_is operation.terminal_http_status terminal.http_status ≡ true)
      × (holds operation.terminal_code terminal.business_code ≡ true)
unfolding replay_terminal
replayed_tests operation terminal rows db x h = ground arith

settled-found :
    (new_id i : String) (operation : ApiCallOperation) (terminal : OperationTerminal)
    (rows : QuotaRows) (db : Database)
    → find_operation i db ≡ some operation
    → find_operation i (settle new_id operation terminal rows db).1
      ≡ some (terminate operation terminal)
unfolding settle add_event put_operation put_quota_rows put_quota find_operation terminate
settled-found new_id i operation terminal rows db f =
    let own : find_operation operation.id db ≡ some operation = found_by_id i db operation f in
    ground (
      arith,
      find-replace i db.operations operation (terminate operation terminal) own,
      find_first-has_id i db.operations operation f,
      eq_refl i,
    )

-- A finalization that succeeds, a repeated one included, leaves the operation ended with the status,
-- the status code and the business code of its terminal record.
pub finalize-HasEnded :
    (new_id i : String) (terminal : OperationTerminal) (db : Database)
    (x : OperationTerminalSnapshot × Database)
    → finalize_operation new_id i terminal db ≡ ok x
    → HasEnded i terminal x.1
unfolding terminate
finalize-HasEnded new_id i terminal db x h =
    let (operation, rows, f) = finalize-Finalizes new_id i terminal db x h in
    elim f.settled_or_replayed [
      | inl m ↦ rw m.result (record {
        operation = terminate operation terminal;
        found = settled-found new_id i operation terminal _ db f.found;
        status = refl;
        http_status = refl;
        code = refl;
      })
      | inr m ↦
          let tests = replayed_tests operation terminal rows db x m.1 in
          rw (replay-unchanged operation terminal rows db x m.1) (record {
            operation = operation;
            found = f.found;
            status = same_status-eq operation.status (status_of terminal.status) tests.0;
            http_status = status_is-eq operation.terminal_http_status terminal.http_status tests.1;
            code = holds-eq operation.terminal_code terminal.business_code tests.2;
          })
    ]
