-- ===== src/Quota/Evidence.antt =====
-- The evidence of terminal operations in backend/app/services/quota.py: operations and their events
-- over sequences of transactions.
use mathlib.Core.Path.{subst}
use zangpu.Base.{
  String, true, false, Option, none, some, List, [], ◌∷◌, ◌≡◌, refl, ◌∙◌, arith, str_eq, eq_iff,
  if◌then◌else◌, find_first, inl, inr, Bool-cases,
}
use zangpu.Models.{ApiClient, ApiClientCredential, ApiCallOperation, ApiCallEvent, is_pending}
use zangpu.Models.Database.{Database, has_id, find_operation, find_event, replace_operation}
use zangpu.Quota.Transaction.{transaction-keeps, without_value-keeps}
use zangpu.Quota.Reserve.{reserve_operation}
use zangpu.Quota.Record.{record_credit_reservation, record_provider_usage, touch_pending_operation}
use zangpu.Quota.Finalize.{finalize_operation}
use zangpu.Quota.Changes.{
  Tells, Change, reserve-Change, record_credit-Change, record_usage-Change, touch-Change,
  finalize-Change,
}
use zangpu.Quota.Lifecycle.{
  Call, reserve, record_credit, record_usage, touch, terminalize, perform, perform_all, fresh,
}

-- What is found under an ID after a row is written back.
pub find-replace :
    (i : String) (ops : List ApiCallOperation) (old new : ApiCallOperation)
    → find_first (has_id new.id) ops ≡ some old
    → find_first (has_id i) (replace_operation new ops)
      ≡ (if str_eq new.id i then some new else find_first (has_id i) ops)
find-replace i [] old new h = cc
find-replace i (x ∷ ops) old new h =
    ground (arith, find-replace i ops old new, eq_iff x.id i, eq_iff x.id new.id, eq_iff new.id i)

-- No event for an operation that is missing or pending; the event that tells of one that has ended.
abbrev pub Agrees : Option ApiCallOperation → Option ApiCallEvent → Type 0
Agrees none none = Unit
Agrees none (some event) = ⊥
Agrees (some op) none = is_pending op.status ≡ true
Agrees (some op) (some event) = (is_pending op.status ≡ false) × Tells event op

abbrev pub IsRecorded : Database → Type 0
IsRecorded db = (i : String) → Agrees (find_operation i db) (find_event i db)

Agrees-pending :
    (o : Option ApiCallOperation) (e : Option ApiCallEvent) (op : ApiCallOperation)
    → Agrees o e
    → o ≡ some op
    → is_pending op.status ≡ true
    → e ≡ none
Agrees-pending none none op a h p = refl
Agrees-pending none (some event) op a h p = cc
Agrees-pending (some op') none op a h p = refl
Agrees-pending (some op') (some event) op a h p = ground arith

Agrees-missing : (e : Option ApiCallEvent) → Agrees none e → e ≡ none
Agrees-missing none a = refl
Agrees-missing (some event) a = absurd a

-- The lookups after a change, by the ID that changed.
module _ (db db' : Database) (i : String) where
  find-kept :
      db'.operations ≡ db.operations
      → db'.events ≡ db.events
      → (find_operation i db' ≡ find_operation i db) × (find_event i db' ≡ find_event i db)
  unfolding find_operation find_event
  find-kept e f = (rw e, rw f)

  find-opened :
      (op : ApiCallOperation)
      → db'.operations ≡ op ∷ db.operations
      → find_operation i db' ≡ (if str_eq op.id i then some op else find_operation i db)
  unfolding find_operation
  find-opened op e = rw e

  find-updated :
      (old new : ApiCallOperation)
      → find_operation new.id db ≡ some old
      → db'.operations ≡ replace_operation new db.operations
      → find_operation i db' ≡ (if str_eq new.id i then some new else find_operation i db)
  unfolding find_operation
  find-updated old new f e = rw e (find-replace i db.operations old new f)

  find_event-same : db'.events ≡ db.events → find_event i db' ≡ find_event i db
  unfolding find_event
  find_event-same e = rw e

  find_event-ended :
      (event : ApiCallEvent) (j : String)
      → event.operation_id ≡ some j
      → db'.events ≡ event ∷ db.events
      → find_event i db' ≡ (if str_eq j i then some event else find_event i db)
  unfolding find_event
  find_event-ended event j t e = ground arith

Change-IsRecorded : (db db' : Database) → Change db db' → IsRecorded db → IsRecorded db'
Change-IsRecorded db db' (Change.kept e f) h i =
    let (o, v) = find-kept db db' i e f in rw (o, v) (h i)
Change-IsRecorded db db' (Change.opened op fresh p e f) h i = elim (Bool-cases (str_eq op.id i)) [
  | inl same ↦
      let unseen : find_event i db ≡ none = Agrees-missing (find_event i db) (
        subst (λ o. Agrees o (find_event i db))
          (subst (λ j. find_operation j db ≡ none) ((eq_iff op.id i).0 same) fresh) (h i)) in
      rw (find-opened db db' i op e, find_event-same db db' i f, same, unseen) p
  | inr other ↦ rw (find-opened db db' i op e, find_event-same db db' i f, other) (h i)
]
Change-IsRecorded db db' (Change.updated old new found p q e f) h i =
    elim (Bool-cases (str_eq new.id i)) [
      | inl same ↦
          let unseen : find_event i db ≡ none =
            Agrees-pending (find_operation i db) (find_event i db) old (h i)
              (subst (λ j. find_operation j db ≡ some old) ((eq_iff new.id i).0 same) found) p in
          rw (find-updated db db' i old new found e, find_event-same db db' i f, same, unseen) q
      | inr other ↦
          rw (find-updated db db' i old new found e, find_event-same db db' i f, other) (h i)
    ]
Change-IsRecorded db db' (Change.ended old new event found p q t e f) h i =
    elim (Bool-cases (str_eq new.id i)) [
      | inl same ↦
          rw
            (
              find-updated db db' i old new found e,
              find_event-ended db db' i event new.id t.operation_id f,
              same,
            )
            (q, t)
      | inr other ↦
          rw
            (
              find-updated db db' i old new found e,
              find_event-ended db db' i event new.id t.operation_id f,
              other,
            )
            (h i)
    ]

-- Every transaction is a change, or leaves the database alone.
perform-keeps :
    (P : Database → Type 0)
    → ((db db' : Database) → Change db db' → P db → P db')
    → (call : Call) (db : Database) → P db
    → P (perform call db)
unfolding perform
perform-keeps P keep (reserve r) db h =
    transaction-keeps P (reserve_operation r) db h (λ x e. keep db x.1 (reserve-Change r db x e) h)
perform-keeps P keep (record_credit i s u now) db h =
    without_value-keeps P (record_credit_reservation i s u now) db h
      (λ db' e. keep db db' (record_credit-Change i s u now db db' e) h)
perform-keeps P keep (record_usage i p c now) db h =
    without_value-keeps P (record_provider_usage i p c now) db h
      (λ db' e. keep db db' (record_usage-Change i p c now db db' e) h)
perform-keeps P keep (touch i now) db h =
    transaction-keeps P (touch_pending_operation i now) db h
      (λ x e. keep db x.1 (touch-Change i now db x e) h)
perform-keeps P keep (terminalize v i t) db h =
    transaction-keeps P (finalize_operation v i t) db h
      (λ x e. keep db x.1 (finalize-Change v i t db x e) h)

perform_all-keeps :
    (P : Database → Type 0)
    → ((db db' : Database) → Change db db' → P db → P db')
    → (calls : List Call) (db : Database) → P db
    → P (perform_all calls db)
unfolding perform_all
perform_all-keeps P keep [] db h = h
perform_all-keeps P keep (call ∷ calls) db h =
    perform_all-keeps P keep calls (perform call db) (perform-keeps P keep call db h)

-- From an empty ledger, after any sequence of transactions, an operation that is pending has no
-- event, an operation that has ended has one which carries its tokens, status code, business code
-- and completion time, and there is no event for an operation that does not exist.
pub ledger_evidence :
    (clients : String → Option ApiClient) (credentials : String → Option ApiClientCredential)
    (calls : List Call)
    → IsRecorded (perform_all calls (fresh clients credentials))
unfolding find_operation find_event
ledger_evidence clients credentials calls =
    perform_all-keeps IsRecorded Change-IsRecorded calls (fresh clients credentials) (λ i. tt)

Change-ended :
    (i : String) (op : ApiCallOperation)
    → is_pending op.status ≡ false
    → (db db' : Database) → Change db db'
    → find_operation i db ≡ some op
    → find_operation i db' ≡ some op
Change-ended i op p db db' (Change.kept e f) h = (find-kept db db' i e f).0 ∙ h
Change-ended i op p db db' (Change.opened new fresh q e f) h =
    ground (arith, find-opened db db' i new e, eq_iff new.id i)
Change-ended i op p db db' (Change.updated old new found q r e f) h =
    ground (arith, find-updated db db' i old new found e, eq_iff new.id i)
Change-ended i op p db db' (Change.ended old new event found q r t e f) h =
    ground (arith, find-updated db db' i old new found e, eq_iff new.id i)

-- An operation that has ended stays as it is, every column of it, whatever transactions follow.
pub ended_is_final :
    (calls : List Call) (db : Database) (i : String) (op : ApiCallOperation)
    → find_operation i db ≡ some op
    → is_pending op.status ≡ false
    → find_operation i (perform_all calls db) ≡ some op
ended_is_final calls db i op found p =
    perform_all-keeps (λ d. find_operation i d ≡ some op) (Change-ended i op p) calls db found
