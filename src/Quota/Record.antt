-- ===== src/Quota/Record.antt =====
-- `record_credit_reservation`, `record_provider_usage` and `touch_pending_operation` of
-- backend/app/services/quota.py.
use zangpu.Base.{
  ℕ, ◌+◌, max, ℤ, pos, negsuc, String, Bool, true, false, not, ◌&&◌, ◌||◌, Option, none, some,
  Result, ok, err, ◌>>=◌, ◌>>◌, raise_if, ltb, ◌==◌, if◌then◌else◌, is_some, str_eq,
}
use zangpu.Models.{ApiCallOperation, is_pending}
use zangpu.Models.Database.{Database, find_operation, put_operation}
use zangpu.Quota.{QuotaError, state_error, value_error, signed_bigint_max}

check_pending : Option ApiCallOperation → Result QuotaError ApiCallOperation
check_pending none = err (state_error "operation is unavailable")
check_pending (some operation) =
    if is_pending operation.status
    then ok operation
    else err (state_error "operation is already terminal")

-- `_pending_operation`
unfoldable pub pending_operation : String → Database → Result QuotaError ApiCallOperation
unfolding check_pending
pending_operation operation_id db = check_pending (find_operation operation_id db)

-- A comparison of an optional column with a text.
abbrev pub holds : Option String → String → Bool
holds none s = false
holds (some t) s = str_eq t s

unfoldable pub write_credit : ApiCallOperation → String → String → ℕ → Database → Database
write_credit operation settlement_id usage_operation_id now db =
    put_operation
      (record operation {
        credit_settlement_id = some settlement_id;
        usage_operation_id = some usage_operation_id;
        updated_at = now;
      })
      db

abbrev pub has_credit : ApiCallOperation → Bool
has_credit operation =
    is_some operation.credit_settlement_id || is_some operation.usage_operation_id

abbrev pub same_credit : ApiCallOperation → String → String → Bool
same_credit operation settlement_id usage_operation_id =
    holds operation.credit_settlement_id settlement_id
    && holds operation.usage_operation_id usage_operation_id

unfoldable pub record_credit_reservation :
    String → String → String → ℕ → Database → Result QuotaError Database
record_credit_reservation operation_id settlement_id usage_operation_id now db = do
  operation ← pending_operation operation_id db
  if has_credit operation
      then (if same_credit operation settlement_id usage_operation_id
          then ok db
          else err (state_error "operation credit reservation conflicts"))
      else ok (write_credit operation settlement_id usage_operation_id now db)

-- `operation.provider_usage_recorded and existing != incoming`
abbrev pub usage_conflicts : ApiCallOperation → ℕ → ℕ → Bool
usage_conflicts operation prompt_tokens completion_tokens =
    operation.provider_usage_recorded
    && not (
        operation.prompt_tokens == prompt_tokens
        && operation.completion_tokens == completion_tokens
        && operation.total_tokens == prompt_tokens + completion_tokens)

unfoldable pub with_usage : ApiCallOperation → ℕ → ℕ → ℕ → ApiCallOperation
with_usage operation prompt_tokens completion_tokens now = record operation {
  prompt_tokens = prompt_tokens;
  completion_tokens = completion_tokens;
  total_tokens = prompt_tokens + completion_tokens;
  provider_usage_recorded = true;
  updated_at = now;
}

unfoldable pub record_provider_usage : String → ℤ → ℤ → ℕ → Database → Result QuotaError Database
record_provider_usage operation_id (pos prompt_tokens) (pos completion_tokens) now db = do
  raise_if (ltb signed_bigint_max (prompt_tokens + completion_tokens))
      (value_error "provider usage is too large")
  operation ← pending_operation operation_id db
  raise_if (usage_conflicts operation prompt_tokens completion_tokens)
      (state_error "provider usage conflicts")
  ok (put_operation (with_usage operation prompt_tokens completion_tokens now) db)
record_provider_usage operation_id _ _ now db =
    err (value_error "provider usage must be nonnegative")

touch : Option ApiCallOperation → ℕ → Database → Result QuotaError (Bool × Database)
touch none now db = err (state_error "operation is unavailable")
touch (some operation) now db =
    if not (is_pending operation.status)
    then ok (false, db)
    else ok
        (true, put_operation (record operation { updated_at = max operation.updated_at now }) db)

unfoldable pub touch_pending_operation : String → ℤ → Database → Result QuotaError (Bool × Database)
unfolding touch
touch_pending_operation operation_id (pos now) db = touch (find_operation operation_id db) now db
touch_pending_operation operation_id (negsuc _) db =
    err (value_error "operation heartbeat time is invalid")
