-- ===== src/Quota/Lifecycle.antt =====
-- Any sequence of ledger transactions: the calls that backend/app/services/chat.py and
-- backend/app/workers/recovery.py make, in any order and with any arguments. The database runs
-- transactions that lock the same rows one after the other, so a sequence stands for any interleaving.
use zangpu.Base.{ℕ, ℤ, String, Option, none, List, [], ◌∷◌, arith}
use zangpu.Models.{ApiClient, ApiClientCredential}
use zangpu.Models.Database.{Database}
use zangpu.Quota.Transaction.{transaction, without_value, transaction-keeps, without_value-keeps}
use zangpu.Quota.Reserve.{ReserveRequest, reserve_operation}
use zangpu.Quota.Record.{record_credit_reservation, record_provider_usage, touch_pending_operation}
use zangpu.Quota.Finalize.{OperationTerminal, finalize_operation}
use zangpu.Quota.Accounting.{IsBalanced}
use zangpu.Quota.Conservation.{
  reserve-IsBalanced, finalize-IsBalanced, record_provider_usage-IsBalanced,
  record_credit_reservation-IsBalanced, touch-IsBalanced,
}

pub data Call : Type 0 where
  reserve : ReserveRequest → Call
  record_credit : String → String → String → ℕ → Call
  record_usage : String → ℤ → ℤ → ℕ → Call
  touch : String → ℤ → Call
  terminalize : String → String → OperationTerminal → Call

-- The database after one transaction.
unfoldable pub perform : Call → Database → Database
unfolding transaction
perform (reserve r) db = (transaction (reserve_operation r) db).1
perform (record_credit i s u now) db =
    (transaction (λ d. without_value (record_credit_reservation i s u now d)) db).1
perform (record_usage i p c now) db =
    (transaction (λ d. without_value (record_provider_usage i p c now d)) db).1
perform (touch i now) db = (transaction (touch_pending_operation i now) db).1
perform (terminalize e i t) db = (transaction (finalize_operation e i t) db).1

unfoldable pub perform_all : List Call → Database → Database
perform_all [] db = db
perform_all (call ∷ calls) db = perform_all calls (perform call db)

-- A ledger with no quota rows, operations or events.
abbrev pub fresh : (String → Option ApiClient) → (String → Option ApiClientCredential) → Database
fresh clients credentials = record {
  clients = clients;
  credentials = credentials;
  quota_usage = λ c s p. none;
  operations = [];
  events = [];
}

-- Each transaction keeps the quota rows in agreement with the operations.
perform-IsBalanced : (call : Call) (db : Database) → IsBalanced db → IsBalanced (perform call db)
unfolding perform
perform-IsBalanced (reserve r) db h =
    transaction-keeps IsBalanced (reserve_operation r) db h (λ x. reserve-IsBalanced r db x h)
perform-IsBalanced (record_credit i s u now) db h =
    without_value-keeps IsBalanced (record_credit_reservation i s u now) db h
      (λ db'. record_credit_reservation-IsBalanced i s u now db db' h)
perform-IsBalanced (record_usage i p c now) db h =
    without_value-keeps IsBalanced (record_provider_usage i p c now) db h
      (λ db'. record_provider_usage-IsBalanced i p c now db db' h)
perform-IsBalanced (touch i now) db h =
    transaction-keeps IsBalanced (touch_pending_operation i now) db h
      (λ x. touch-IsBalanced i now db x h)
perform-IsBalanced (terminalize e i t) db h =
    transaction-keeps IsBalanced (finalize_operation e i t) db h
      (λ x. finalize-IsBalanced e i t db x h)

pub perform_all-IsBalanced :
    (calls : List Call) (db : Database) → IsBalanced db → IsBalanced (perform_all calls db)
unfolding perform_all
perform_all-IsBalanced [] db h = h
perform_all-IsBalanced (call ∷ calls) db h =
    perform_all-IsBalanced calls (perform call db) (perform-IsBalanced call db h)

-- From an empty ledger, whatever the clients and credentials are, after any sequence of
-- transactions, failed ones included, each quota row of each client agrees with the operations: it
-- counts those that started in its period, holds the reserved tokens of those that are pending, and
-- has consumed the tokens that the terminal ones used.
pub ledger_conserves :
    (clients : String → Option ApiClient) (credentials : String → Option ApiClientCredential)
    (calls : List Call)
    → IsBalanced (perform_all calls (fresh clients credentials))
ledger_conserves clients credentials calls =
    perform_all-IsBalanced calls (fresh clients credentials) (λ c s p. omega arith)
