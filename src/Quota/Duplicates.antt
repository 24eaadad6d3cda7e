-- ===== src/Quota/Duplicates.antt =====
-- A request that is sent again to `reserve_operation` of backend/app/services/quota.py.
use zangpu.Base.{
  Bool-cases, inl, inr, ap, if◌then◌else◌, str_eq, String, some, ok, err, ◌≡◌, refl, ◌∙◌, eq_refl,
}
use zangpu.Models.{ApiClient, ApiClientCredential, ApiCallOperation}
use zangpu.Models.Database.{Database, find_request, put_quota}
use zangpu.Quota.{admission_error, AdmissionCode, OperationReservation, put_quota_rows, QuotaRows}
use zangpu.Quota.Accounting.Rows.{create-operations, create-select}
use zangpu.Quota.Reserve.{
  ReserveRequest, check_request, caller_state, check_caller, existing_code,
  raise_for_existing_operation, reserve_operation, commit, add_operation, new_operation,
}
use zangpu.Quota.Reserve.Success.{with_rows, reserve-Passes}

find_request-create :
    (r : ReserveRequest) (db : Database) (c i : String)
    → find_request c i (with_rows r db) ≡ find_request c i db
unfolding find_request
find_request-create r db c i = rw (create-operations r.new_row_ids r.api_client_id r.now db)

-- A request that is well formed and comes from a caller who may make it is refused if the client
-- has an operation with its request ID, with that operation's ID and a code that tells whether the
-- fingerprints differ, the operation is pending, or it has ended.
pub reserve_duplicate :
    (r : ReserveRequest) (db : Database) (client : ApiClient) (credential : ApiClientCredential)
    (operation : ApiCallOperation)
    → check_request r ≡ ok tt
    → caller_state r.api_client_id (db.clients r.api_client_id) (db.credentials r.credential_id)
      ≡ ok (client, credential)
    → check_caller client credential r.model_id r.now ≡ ok tt
    → find_request r.api_client_id r.client_request_id db ≡ some operation
    → reserve_operation r db
      ≡ err (admission_error (existing_code operation r.request_fingerprint) (some operation.id))
unfolding reserve_operation raise_for_existing_operation
reserve_duplicate r db client credential operation valid caller permitted found =
    let (rows, selected) = create-select r.new_row_ids r.api_client_id r.now db in
    rw valid (
      rw caller (
        rw permitted (
          rw selected
            (rw (find_request-create r db r.api_client_id r.client_request_id ∙ found) refl))))

commit-request :
    (r : ReserveRequest) (rows : QuotaRows) (db : Database)
    → find_request r.api_client_id r.client_request_id (commit r rows db).1 ≡ some (new_operation r)
unfolding commit add_operation find_request put_quota_rows put_quota new_operation
commit-request r rows db = simp (eq_refl)

existing_code-new :
    (r : ReserveRequest) (fingerprint : String)
    → existing_code (new_operation r) fingerprint ≡ (
        if str_eq r.request_fingerprint fingerprint
        then AdmissionCode.request_in_progress
        else AdmissionCode.request_id_conflict)
unfolding existing_code new_operation
existing_code-new r fingerprint = elim (Bool-cases (str_eq r.request_fingerprint fingerprint)) [
  | inl e ↦ rw e refl
  | inr e ↦ rw e refl
]

-- After a reservation is admitted, any well-formed request of the same client with the same client
-- request ID, from a caller who may make it, is refused with the ID of the operation that was
-- admitted: as in progress if the fingerprints agree, and as a conflict if they do not, whatever its
-- own operation ID, time, model, stream flag and tokens are.
pub reserve_again :
    (r again : ReserveRequest) (db : Database) (x : OperationReservation × Database)
    (client : ApiClient) (credential : ApiClientCredential)
    → reserve_operation r db ≡ ok x
    → again.api_client_id ≡ r.api_client_id
    → again.client_request_id ≡ r.client_request_id
    → check_request again ≡ ok tt
    → caller_state again.api_client_id
        (x.1.clients again.api_client_id)
        (x.1.credentials again.credential_id)
      ≡ ok (client, credential)
    → check_caller client credential again.model_id again.now ≡ ok tt
    → reserve_operation again x.1
      ≡ err (
          admission_error
            (if str_eq r.request_fingerprint again.request_fingerprint
              then AdmissionCode.request_in_progress
              else AdmissionCode.request_id_conflict)
            (some r.operation_id))
unfolding new_operation
reserve_again r again db x client credential h same_client same_request valid caller permitted =
    let (c, k, rows, passes, e) = reserve-Passes r db x h in
    let found : find_request again.api_client_id again.client_request_id x.1
        ≡ some (new_operation r) =
      rw (same_client, same_request, e) (commit-request r rows (with_rows r db)) in
    reserve_duplicate again x.1 client credential (new_operation r) valid caller permitted found
    ∙ ap (λ code. err (admission_error code (some r.operation_id)))
        (existing_code-new r again.request_fingerprint)
