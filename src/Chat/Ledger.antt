-- ===== src/Chat/Ledger.antt =====
-- The ledger calls of backend/app/services/chat.py: `_load_policy`, `_reserve_quota`,
-- `_record_credit`, `_record_usage` and `_terminalize`, each a transaction.
use zangpu.Base.{ℕ, ℤ, pos, negsuc, String, Bool, false, Option, none, some, Result, ok, err, max}
use zangpu.Models.{Outcome, Stage}
use zangpu.Models.Database.{Database}
use zangpu.Quota.{QuotaError, admission_error, state_error, value_error}
use zangpu.Quota.Transaction.{without_value}
use zangpu.Quota.Reserve.{reserve_operation}
use zangpu.Quota.Record.{record_credit_reservation, record_provider_usage}
use zangpu.Quota.Finalize.{TerminalStatus, OperationTerminal, check_terminal, finalize_operation}
use zangpu.Limits.Windows.{QpsDecision, ConcurrencyDecision}
use zangpu.Chat.Errors.{Code, CallerPolicyCode, error_spec, quota_error, caller_policy_error}
use zangpu.Chat.Callers.{AuthenticatedCaller, CallerPolicy, load_caller_policy}
use zangpu.Chat.Environment.{Environment, TokenUsage}
use zangpu.Chat.Action.{
  Action, Effect, ChatError, api_error, internal, ◌>>=◌, pure, throw, emit, ask, query, transact,
  quota_reserved, credit_recorded, usage_recorded, operation_terminalized,
}

-- The locals of `execute` that its steps share.
pub record Admission : Type 0 where
  pub caller : AuthenticatedCaller
  pub policy : CallerPolicy
  pub model_id : String
  pub operation_id : String
  pub operation_started_at : ℕ
  pub server_request_id : String
  pub request_fingerprint : String
  pub qps : QpsDecision
  pub concurrency : ConcurrencyDecision

unfoldable pub policy_or_raise : Result CallerPolicyCode CallerPolicy → Action CallerPolicy
policy_or_raise (ok policy) = pure policy
policy_or_raise (err code) = throw (api_error (caller_policy_error code) none)

unfoldable pub load_policy : Environment → AuthenticatedCaller → ℕ → Action CallerPolicy
unfolding policy_or_raise
load_policy env caller now =
    query env.others (load_caller_policy env.is_uuid env.decrypt env.bindings caller now) >>= λ r.
    policy_or_raise r

-- What `execute` makes of an exception of the ledger.
abbrev pub ledger_error : QuotaError → ChatError
ledger_error (admission_error code operation_id) = api_error (quota_error code) operation_id
ledger_error (state_error message) = internal
ledger_error (value_error message) = internal

unfoldable pub after_commit : {A : Type 0} → Effect → Result QuotaError A → Action (Unit {0})
after_commit effect (ok a) = emit effect
after_commit effect (err e) = throw (ledger_error e)

-- A transaction whose success is logged.
unfoldable pub committed :
    {A : Type 0}
    → Environment
    → Effect
    → (Database → Result QuotaError (A × Database))
    → Action (Unit {0})
unfolding after_commit
committed env effect body = transact env.others body >>= λ r. after_commit effect r

unfoldable pub reserve_quota : Environment → Admission → ℕ → Action (Unit {0})
reserve_quota env x reserved_tokens = committed env quota_reserved (
    reserve_operation (record {
      api_client_id = x.caller.api_client_id;
      credential_id = x.caller.credential_id;
      operation_id = x.operation_id;
      client_request_id = x.caller.request_id;
      request_fingerprint = x.request_fingerprint;
      model_id = x.model_id;
      stream = false;
      reserved_tokens = reserved_tokens;
      now = x.operation_started_at;
      new_row_ids = env.new_row_ids;
    }))

-- `max(int(time()), operation_started_at)`
unfoldable pub time_since : Environment → Admission → Action ℕ
time_since env x = ask env.clock >>= λ now. pure (max now x.operation_started_at)

unfoldable pub record_credit : Environment → Admission → String → String → Action (Unit {0})
record_credit env x settlement_id usage_operation_id = do
  now ← time_since env x
  committed env credit_recorded (λ db.
      without_value
        (record_credit_reservation x.operation_id settlement_id usage_operation_id now db))

unfoldable pub record_usage : Environment → Admission → TokenUsage → Action (Unit {0})
record_usage env x usage = do
  now ← time_since env x
  committed env usage_recorded (λ db. without_value (
      record_provider_usage x.operation_id (pos usage.prompt_tokens) (pos usage.completion_tokens)
        now db))

-- A count that the limiter has checked to be nonnegative.
abbrev count_of : ℤ → ℕ
count_of (pos n) = n
count_of (negsuc n) = 0

-- The keyword arguments of `_terminalize` that its callers choose; `none` is the code "OK".
pub record Ending : Type 0 where
  pub status : TerminalStatus
  pub outcome : Outcome
  pub stage : Stage
  pub code : Option Code
  pub charged_micro : ℕ

abbrev business_code : Option Code → String
business_code none = "OK"
business_code (some code) = (error_spec code).code

abbrev http_status : Option Code → ℕ
http_status none = 200
http_status (some code) = (error_spec code).status_code

abbrev is_retryable : Option Code → Bool
is_retryable none = false
is_retryable (some code) = (error_spec code).retryable

unfoldable pub terminal_of : Admission → Ending → ℕ → ℕ → OperationTerminal
terminal_of x ending completed_at duration_ms = record {
  status = ending.status;
  outcome = ending.outcome;
  stage = ending.stage;
  http_status = http_status ending.code;
  business_code = business_code ending.code;
  retryable = is_retryable ending.code;
  duration_ms = duration_ms;
  charged_micro = ending.charged_micro;
  qps_observed = count_of x.qps.count;
  concurrency_observed = count_of x.concurrency.count;
  server_request_id = x.server_request_id;
  remote_ip_hash = none;
  user_agent_family = none;
  completed_at = completed_at;
}

-- The transaction of a terminal record, if it could be built.
unfoldable pub finish :
    Environment → Admission → Result QuotaError OperationTerminal → Action (Unit {0})
finish env x (ok terminal) =
    committed env operation_terminalized
      (finalize_operation env.new_event_id x.operation_id terminal)
finish env x (err e) = throw internal

unfoldable pub terminalize : Environment → Admission → Ending → Action (Unit {0})
unfolding time_since finish
terminalize env x ending = do
  completed_at ← time_since env x
  duration_ms ← ask env.elapsed_ms
  finish env x (check_terminal (terminal_of x ending completed_at duration_ms))
