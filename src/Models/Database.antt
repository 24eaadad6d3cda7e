-- ===== src/Models/Database.antt =====
-- The session's view of the tables that backend/app/services/quota.py queries: clients and
-- credentials by primary key, quota rows by their unique key, operations and events as the rows in
-- the order in which they were added, the latest first. A write by the session is a new value.
use zangpu.Base.{
  ℕ, String, Bool, false, ◌&&◌, Option, none, some, List, [], ◌∷◌, str_eq, ◌==◌, if◌then◌else◌,
  find_first,
}
use zangpu.Models.{
  ApiClient, ApiClientCredential, ApiClientQuotaUsage, ApiCallOperation, ApiCallEvent, Scope,
  same_scope,
}

pub record Database : Type 0 where
  pub clients : String → Option ApiClient
  pub credentials : String → Option ApiClientCredential
  pub quota_usage : String → Scope → ℕ → Option ApiClientQuotaUsage
  pub operations : List ApiCallOperation
  pub events : List ApiCallEvent

abbrev pub same_key : String → Scope → ℕ → String → Scope → ℕ → Bool
same_key c s p c' s' p' = str_eq c c' && same_scope s s' && p == p'

-- Writes the quota row with the given key.
unfoldable pub put_quota : String → Scope → ℕ → ApiClientQuotaUsage → Database → Database
put_quota c s p row db = record db {
  quota_usage = λ c' s' p'. if same_key c s p c' s' p' then some row else db.quota_usage c' s' p';
}

abbrev pub has_id : String → ApiCallOperation → Bool
has_id i op = str_eq op.id i

-- `select(ApiCallOperation).where(ApiCallOperation.id == i)`
unfoldable pub find_operation : String → Database → Option ApiCallOperation
find_operation i db = find_first (has_id i) db.operations

abbrev pub replace_operation : ApiCallOperation → List ApiCallOperation → List ApiCallOperation
replace_operation new [] = []
replace_operation new (op ∷ ops) =
    if has_id new.id op then new ∷ ops else op ∷ replace_operation new ops

-- Writes the row of an operation back under its primary key.
unfoldable pub put_operation : ApiCallOperation → Database → Database
put_operation op db = record db { operations = replace_operation op db.operations }

abbrev is_request_of : String → String → ApiCallOperation → Bool
is_request_of c r op = str_eq op.api_client_id c && str_eq op.client_request_id r

-- The operation under the unique pair of client and client request ID.
unfoldable pub find_request : String → String → Database → Option ApiCallOperation
find_request c r db = find_first (is_request_of c r) db.operations

abbrev pub is_event_of : String → ApiCallEvent → Bool
is_event_of i e = elim e.operation_id [ none ↦ false | some j ↦ str_eq j i ]

-- `select(ApiCallEvent).where(ApiCallEvent.operation_id == i)`
unfoldable pub find_event : String → Database → Option ApiCallEvent
find_event i db = find_first (is_event_of i) db.events
