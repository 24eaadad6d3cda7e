-- ===== src/Quota/Reserve/Success.antt =====
-- What a successful `reserve_operation` has found, step by step.
use zangpu.Base.{none, ok, bind-eq-ok, ◌≡◌, refl, arith, is_some, raise_if}
use zangpu.Models.{ApiClient, ApiClientCredential}
use zangpu.Models.Database.{Database, find_operation, find_request}
use zangpu.Quota.{
  QuotaRows, state_error, OperationReservation, select_quota_rows, create_quota_rows,
}
use zangpu.Quota.Reserve.{
  ReserveRequest, check_request, caller_state, check_caller, raise_for_existing_operation,
  check_limits, commit, reserve_operation,
}

-- The database with the rows of the request's client and day in place.
abbrev pub with_rows : ReserveRequest → Database → Database
with_rows r db = create_quota_rows r.new_row_ids r.api_client_id r.now db

pub record Passes (r : ReserveRequest) (db : Database) (client : ApiClient)
    (credential : ApiClientCredential) (rows : QuotaRows) : Type 0 where
  pub valid : check_request r ≡ ok tt
  pub caller :
      caller_state r.api_client_id (db.clients r.api_client_id) (db.credentials r.credential_id)
      ≡ ok (client, credential)
  pub permitted : check_caller client credential r.model_id r.now ≡ ok tt
  pub selected : select_quota_rows r.api_client_id r.now (with_rows r db) ≡ ok rows
  pub fresh_request :
      raise_for_existing_operation
        (find_request r.api_client_id r.client_request_id (with_rows r db))
        r.request_fingerprint
      ≡ ok tt
  pub fresh_id : find_operation r.operation_id (with_rows r db) ≡ none
  pub limited : check_limits client rows r.reserved_tokens ≡ ok tt

-- Every step passes exactly when the call returns, and it returns what `commit` makes.
pub reserve-Passes :
    (r : ReserveRequest) (db : Database) (x : OperationReservation × Database)
    → reserve_operation r db ≡ ok x
    → (client : ApiClient) × (credential : ApiClientCredential) × (rows : QuotaRows) × Passes r db
        client credential rows
      × (x ≡ commit r rows (with_rows r db))
unfolding reserve_operation
reserve-Passes r db x h =
    let (u1, valid, h1) = bind-eq-ok (check_request r) _ h in
    let (caller, found, h2) =
      bind-eq-ok
        (caller_state r.api_client_id (db.clients r.api_client_id) (db.credentials r.credential_id))
        _ h1 in
    let (u3, permitted, h3) = bind-eq-ok (check_caller caller.0 caller.1 r.model_id r.now) _ h2 in
    let (rows, selected, h4) =
      bind-eq-ok (select_quota_rows r.api_client_id r.now (with_rows r db)) _ h3 in
    let (u5, fresh, h5) =
      bind-eq-ok
        (raise_for_existing_operation
          (find_request r.api_client_id r.client_request_id (with_rows r db)) r.request_fingerprint)
        _ h4 in
    let (u6, unused, h6) =
      bind-eq-ok
        (raise_if (is_some (find_operation r.operation_id (with_rows r db)))
          (state_error "operation ID already exists"))
        _ h5 in
    let (u7, limited, h7) = bind-eq-ok (check_limits caller.0 rows r.reserved_tokens) _ h6 in
    (
      caller.0,
      caller.1,
      rows,
      record {
        valid = valid;
        caller = found;
        permitted = permitted;
        selected = selected;
        fresh_request = fresh;
        fresh_id = ground arith;
        limited = limited;
      },
      ground arith,
    )

pub Passes-reserve :
    (r : ReserveRequest) (db : Database) {client : ApiClient} {credential : ApiClientCredential}
    {rows : QuotaRows}
    → Passes r db client credential rows
    → reserve_operation r db ≡ ok (commit r rows (with_rows r db))
unfolding reserve_operation
Passes-reserve r db h = rw h.valid (
    rw h.caller
      (rw h.permitted (rw h.selected (rw h.fresh_request (rw h.fresh_id (rw h.limited refl))))))
