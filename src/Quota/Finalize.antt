-- ===== src/Quota/Finalize.antt =====
-- `OperationTerminal` and `finalize_operation` of backend/app/services/quota.py.
pub mod Success
use zangpu.Base.{
  ℕ, ◌+◌, ◌-◌, String, Bool, false, not, ◌||◌, Option, none, some, ◌∷◌, Result, ok, err, ◌>>=◌,
  ◌>>◌, raise_if, ltb, ◌==◌, between, if◌then◌else◌, is_blank, text_length, is_some,
}
use zangpu.Models.{
  ApiClientQuotaUsage, ApiCallOperation, ApiCallEvent, OperationStatus, Outcome, Stage, is_pending,
  same_status,
}
use zangpu.Models.Database.{Database, find_operation, find_event, put_operation}
use zangpu.Quota.{
  QuotaError, state_error, value_error, QuotaRows, signed_bigint_max, select_quota_rows,
  put_quota_rows,
}
use zangpu.Quota.Record.{holds}

-- `Literal["completed", "rejected", "abandoned"]`
pub data TerminalStatus : Type 0 where
  completed rejected abandoned : TerminalStatus

abbrev pub status_of : TerminalStatus → OperationStatus
status_of completed = OperationStatus.completed
status_of rejected = OperationStatus.rejected
status_of abandoned = OperationStatus.abandoned

pub record OperationTerminal : Type 0 where
  pub status : TerminalStatus
  pub outcome : Outcome
  pub stage : Stage
  pub http_status : ℕ
  pub business_code : String
  pub retryable : Bool
  pub duration_ms : ℕ
  pub charged_micro : ℕ
  pub qps_observed : ℕ
  pub concurrency_observed : ℕ
  pub server_request_id : String
  pub remote_ip_hash : Option String
  pub user_agent_family : Option String
  pub completed_at : ℕ

abbrev longer_than : ℕ → Option String → Bool
longer_than n none = false
longer_than n (some s) = ltb n (text_length s)

-- `OperationTerminal.__post_init__`: what building a terminal record raises on. The outcome and the
-- stage are values of their types, and counters are naturals, so those tests cannot fail.
unfoldable pub check_terminal : OperationTerminal → Result QuotaError OperationTerminal
check_terminal t = do
  raise_if (not (between 100 599 t.http_status)) (value_error "terminal HTTP status is invalid")
  raise_if (is_blank t.business_code || ltb 64 (text_length t.business_code))
      (value_error "terminal business code is invalid")
  raise_if (ltb signed_bigint_max t.duration_ms) (value_error "terminal duration is invalid")
  raise_if (is_blank t.server_request_id || ltb 128 (text_length t.server_request_id))
      (value_error "server request ID is invalid")
  raise_if (longer_than 64 t.remote_ip_hash) (value_error "remote IP hash is invalid")
  raise_if (longer_than 64 t.user_agent_family) (value_error "user-agent family is invalid")
  ok t

pub record OperationTerminalSnapshot : Type 0 where
  pub operation_id : String
  pub total_tokens : ℕ
  pub daily_requests_after : ℕ
  pub daily_tokens_after : ℕ
  pub total_requests_after : ℕ
  pub total_tokens_after : ℕ
  pub quota_overrun : Bool

unfoldable pub terminal_snapshot : ApiCallOperation → QuotaRows → OperationTerminalSnapshot
terminal_snapshot operation rows = record {
  operation_id = operation.id;
  total_tokens = operation.total_tokens;
  daily_requests_after = rows.daily.request_count;
  daily_tokens_after = rows.daily.token_consumed;
  total_requests_after = rows.lifetime.request_count;
  total_tokens_after = rows.lifetime.token_consumed;
  quota_overrun = ltb operation.reserved_tokens operation.total_tokens;
}

abbrev pub status_is : Option ℕ → ℕ → Bool
status_is none n = false
status_is (some m) n = m == n

-- The branch for an operation that is terminal already: the same evidence again is accepted.
unfoldable pub replay_terminal :
    ApiCallOperation
    → OperationTerminal
    → QuotaRows
    → Database
    → Result QuotaError (OperationTerminalSnapshot × Database)
replay_terminal operation terminal rows db = do
  raise_if
      (not (is_some (find_event operation.id db))
        || not (same_status operation.status (status_of terminal.status))
        || not (status_is operation.terminal_http_status terminal.http_status)
        || not (holds operation.terminal_code terminal.business_code))
      (state_error "terminal operation evidence conflicts")
  ok (terminal_snapshot operation rows, db)

unfoldable pub settled_row : ApiCallOperation → ℕ → ApiClientQuotaUsage → ApiClientQuotaUsage
settled_row operation completed_at row = record row {
  token_reserved = row.token_reserved - operation.reserved_tokens;
  token_consumed = row.token_consumed + operation.total_tokens;
  version = row.version + 1;
  updated_at = completed_at;
}

-- The body of `for row in rows.values()`. The subtraction is exact after the first test.
unfoldable pub settle_row :
    ApiCallOperation → ℕ → ApiClientQuotaUsage → Result QuotaError ApiClientQuotaUsage
unfolding settled_row
settle_row operation completed_at row = do
  raise_if (ltb row.token_reserved operation.reserved_tokens)
      (state_error "quota reservation is inconsistent")
  raise_if (ltb signed_bigint_max (row.token_consumed + operation.total_tokens))
      (state_error "quota token counter would overflow")
  ok (settled_row operation completed_at row)

unfoldable pub terminate : ApiCallOperation → OperationTerminal → ApiCallOperation
terminate operation terminal = record operation {
  status = status_of terminal.status;
  terminal_http_status = some terminal.http_status;
  terminal_code = some terminal.business_code;
  completed_at = some terminal.completed_at;
  updated_at = terminal.completed_at;
}

unfoldable pub terminal_event :
    String → ApiCallOperation → OperationTerminal → QuotaRows → ApiCallEvent
terminal_event new_id operation terminal rows = record {
  id = new_id;
  server_request_id = terminal.server_request_id;
  client_request_id = operation.client_request_id;
  operation_id = some operation.id;
  api_client_id = some operation.api_client_id;
  credential_id = some operation.credential_id;
  endpoint = operation.endpoint;
  method = operation.method;
  model_id = some operation.model_id;
  stream = operation.stream;
  outcome = terminal.outcome;
  stage = terminal.stage;
  http_status = terminal.http_status;
  business_code = terminal.business_code;
  retryable = terminal.retryable;
  duration_ms = terminal.duration_ms;
  quota_overrun = ltb operation.reserved_tokens operation.total_tokens;
  prompt_tokens = operation.prompt_tokens;
  completion_tokens = operation.completion_tokens;
  total_tokens = operation.total_tokens;
  charged_micro = terminal.charged_micro;
  qps_observed = terminal.qps_observed;
  concurrency_observed = terminal.concurrency_observed;
  daily_requests_after = rows.daily.request_count;
  daily_tokens_after = rows.daily.token_consumed;
  total_requests_after = rows.lifetime.request_count;
  total_tokens_after = rows.lifetime.token_consumed;
  remote_ip_hash = terminal.remote_ip_hash;
  user_agent_family = terminal.user_agent_family;
  started_at = operation.started_at;
  completed_at = terminal.completed_at;
  created_at = terminal.completed_at;
}

unfoldable pub add_event : ApiCallEvent → Database → Database
add_event event db = record db { events = event ∷ db.events }

-- All the writes: both rows, the operation, and its event.
unfoldable pub settle :
    String
    → ApiCallOperation
    → OperationTerminal
    → QuotaRows
    → Database
    → OperationTerminalSnapshot × Database
unfolding add_event
settle new_id operation terminal rows db = (
  terminal_snapshot operation rows,
  add_event (terminal_event new_id operation terminal rows) (
      put_operation (terminate operation terminal)
        (put_quota_rows operation.api_client_id operation.started_at rows db)),
)

unfoldable pub finalize_pending :
    String
    → ApiCallOperation
    → OperationTerminal
    → QuotaRows
    → Database
    → Result QuotaError (OperationTerminalSnapshot × Database)
finalize_pending new_id operation terminal rows db = do
  raise_if (ltb terminal.completed_at operation.started_at)
      (value_error "terminal completion precedes operation start")
  daily ← settle_row operation terminal.completed_at rows.daily
  lifetime ← settle_row operation terminal.completed_at rows.lifetime
  ok (settle new_id operation terminal (record { daily = daily; lifetime = lifetime }) db)

unfoldable pub finalize_found :
    String
    → Option ApiCallOperation
    → OperationTerminal
    → Database
    → Result QuotaError (OperationTerminalSnapshot × Database)
unfolding finalize_pending
finalize_found new_id none terminal db = err (state_error "operation is unavailable")
finalize_found new_id (some operation) terminal db = do
  rows ← select_quota_rows operation.api_client_id operation.started_at db
  if not (is_pending operation.status)
      then replay_terminal operation terminal rows db
      else finalize_pending new_id operation terminal rows db

-- `new_id` is the event's `new_uuid()`.
unfoldable pub finalize_operation :
    String
    → String
    → OperationTerminal
    → Database
    → Result QuotaError (OperationTerminalSnapshot × Database)
unfolding finalize_found
finalize_operation new_id operation_id terminal db =
    finalize_found new_id (find_operation operation_id db) terminal db
