-- ===== src/Chat/Examples.antt =====
-- Tests of the chat service, and its theorems at a concrete request that is served.
use zangpu.Base.{
  pos, String, true, false, none, some, List, [], ◌∷◌, ok, ◌≡◌, refl, if◌then◌else◌, str_eq,
}
use zangpu.Models.{ApiClient, ApiClientCredential, ClientStatus, CredentialStatus, Scope}
use zangpu.Models.Database.{put_quota, put_operation, find_request, find_operation, find_event}
use zangpu.Quota.{
  period, select_quota_rows, create_quota_rows, insert_quota_row_if_missing, put_quota_rows,
  check_quota_limit,
}
use zangpu.Quota.Transaction.{transaction}
use zangpu.Quota.Reserve.{
  reserve_operation, check_request, caller_state, check_caller, raise_for_existing_operation,
  check_limits, commit, new_operation,
}
use zangpu.Quota.Record.{
  pending_operation as find_pending, with_usage, record_provider_usage, record_credit_reservation,
  write_credit,
}
use zangpu.Quota.Finalize.{
  finalize_operation, finalize_pending, settle_row, settle, terminate, terminal_event,
  check_terminal,
}
use zangpu.Quota.Lifecycle.{fresh, perform_all}
use zangpu.Limits.Replies.{
  RedisReply, integers, boolean, integer, fail_closed, all_integers, parse_integer_sequence,
  eval_integers, eval_removed,
}
use zangpu.Limits.Windows.{claim, admit, acquire, release, qps_decision, concurrency_decision}
use zangpu.Limits.ModelPool.{validate_limits, model_pool_decision, read_decision, admit_or_enqueue}
use zangpu.Chat.Payload.{
  ChatCompletionRequest, Role, admitted_output_tokens, estimate_prompt_tokens,
}
use zangpu.Chat.Callers.{
  AuthenticatedCaller, ApiClientBinding, SyncStatus, load_caller_policy, caller_policy,
  select_policy_row, binding_remote_fields_complete,
}
use zangpu.Chat.Environment.{
  Environment, RedisCall, CreditStatus, CreditOperationSnapshot, TokenUsage,
}
use zangpu.Chat.Action.{State, Effect, LeaseOutcome, ◌>>=◌, ◌>>◌, under_lease, transact, rescue}
use zangpu.Chat.Pool.{acquire_model_pool, after_admission, enter_pool, known_pool, read_pool_reply}
use zangpu.Chat.Ledger.{
  load_policy, committed, reserve_quota, time_since, record_credit, record_usage, terminal_of,
  terminalize,
}
use zangpu.Chat.Operation.{
  end_operation, take_credit, call_provider, settle_credit, tokens_to_reserve, run_operation,
  is_same_operation, upstream,
}
use zangpu.Chat.Execute.{
  release_lease, release_active_leases, after_release, execute, take_concurrency, finally_release,
  lease_and_run,
}
use zangpu.Chat.Leases.{Holds, count, leases_returned}
use zangpu.Chat.Order.{IsOrdered}
use zangpu.Chat.Order.Requests.{calls_in_order}
use zangpu.Chat.Success.{IsCompleted, success_is_recorded}

abbrev client : ApiClient
client = record {
  id = "c1";
  status = ClientStatus.active;
  allowed_endpoints = "chat.completions" ∷ [];
  allowed_models = "m" ∷ [];
  qps_limit = 5;
  concurrency_limit = 2;
  daily_request_limit = some 2;
  daily_token_limit = some 500;
  total_request_limit = none;
  total_token_limit = none;
  max_output_tokens_per_request = 256;
}

abbrev credential : ApiClientCredential
credential = record {
  id = "k1";
  api_client_id = "c1";
  key_id = "zpk_1";
  status = CredentialStatus.active;
  expires_at = none;
}

abbrev binding : ApiClientBinding
binding = record {
  zangpu_service_user_id = some "u1";
  bifrost_virtual_key_id = some "v1";
  bifrost_value_ciphertext = some "{}";
  bifrost_value_key_version = some "1";
  sync_status = SyncStatus.active;
}

abbrev start : State
start = record {
  log = [];
  ledger =
      fresh (λ i. if str_eq i "c1" then some client else none)
        (λ i. if str_eq i "k1" then some credential else none);
  terminal_committed = false;
}

abbrev row_ids : Scope → String
row_ids Scope.daily = "q1"
row_ids Scope.lifetime = "q2"

abbrev replies : RedisCall → List Effect → RedisReply
replies RedisCall.claim_nonce log = boolean true
replies RedisCall.admit_qps log = integers (pos 1 ∷ pos 1 ∷ pos 2_000 ∷ pos 1_000 ∷ [])
replies RedisCall.admit_pool log =
    integers (pos 1 ∷ pos 1 ∷ pos 0 ∷ pos 0 ∷ pos 0 ∷ pos 9_000 ∷ pos 1_000 ∷ [])
replies RedisCall.cancel_queued log = integer (pos 0)
replies RedisCall.acquire_concurrency log = integers (pos 1 ∷ pos 1 ∷ pos 2_000 ∷ pos 1_000 ∷ [])
replies RedisCall.release_concurrency log = integer (pos 1)
replies RedisCall.release_pool log = RedisReply.redis_error

abbrev credit_snapshot : CreditOperationSnapshot
credit_snapshot = record {
  operation_id = "o1";
  settlement_id = "s1";
  service_user_id = "u1";
  model_id = "m";
  provider = some "bifrost";
  status = CreditStatus.pending;
  prompt_tokens = 0;
  completion_tokens = 0;
  total_tokens = 0;
  charged_micro = 0;
  usage_operation_id = some "o1:usage";
}

abbrev usage : TokenUsage
usage = record { prompt_tokens = 10; completion_tokens = 20; total_tokens = 30 }

abbrev env : Environment
env = record {
  model_pool_policies =
      λ m. if str_eq m "m" then some (record { pool_id = "p"; active_limit = 4 }) else none;
  global_max_output_tokens = 1_000;
  global_queue_limit = 200;
  caller_queue_limit = 8;
  queue_wait_seconds = 30;
  is_uuid = λ u. true;
  decrypt = λ b. some "key";
  bindings = λ i. some binding;
  new_operation_id = "o1";
  new_event_id = "e1";
  new_row_ids = row_ids;
  others = λ log. [];
  clock = λ log. 90_000;
  elapsed_ms = λ log. 12;
  redis = replies;
  is_interrupted = λ call log. false;
  rounds = λ log. [];
  lease = λ log. LeaseOutcome.completes;
  reserve_credit = λ log. ok credit_snapshot;
  cancel_credit = λ log. ok (record credit_snapshot { status = CreditStatus.failed_no_charge });
  settle_credit = λ log. ok (record credit_snapshot {
    status = CreditStatus.succeeded_charged;
    prompt_tokens = 10;
    completion_tokens = 20;
    total_tokens = 30;
    charged_micro = 7;
  });
  forward = λ log. ok usage;
}

abbrev request : ChatCompletionRequest
request = record {
  model = "m";
  messages = record { role = Role.user; content = b'h' ∷ b'i' ∷ [] } ∷ [];
  stream = false;
  max_tokens = some 100;
  max_completion_tokens = none;
}

abbrev caller : AuthenticatedCaller
caller = record {
  api_client_id = "c1";
  credential_id = "k1";
  key_id = "zpk_1";
  request_id = "request-00000001";
}

abbrev fingerprint : String
fingerprint = "0123456789abcdef0123456789abcdef0123456789abcdef0123456789abcdef"

starts_empty : Holds 0 0 start
unfolding Holds count
starts_empty = (refl, refl)

leases_returned_example : Holds 0 0 (execute env request caller "r1" fingerprint start).1
leases_returned_example =
    leases_returned env request caller "r1" fingerprint start (λ log. refl) starts_empty

starts-IsOrdered : IsOrdered []
unfolding IsOrdered
starts-IsOrdered = tt

calls_in_order_example : IsOrdered (execute env request caller "r1" fingerprint start).1.log
calls_in_order_example = calls_in_order env request caller "r1" fingerprint start starts-IsOrdered

-- The same, cancelled while the clean-up awaits its first release: the place in the pool is kept.
abbrev cancelled_env : Environment
cancelled_env = record env { is_interrupted = λ call log. true }

cancelled_keeps_pool : Holds 1 0 (execute cancelled_env request caller "r1" fingerprint start).1
unfolding execute lease_and_run load_policy load_caller_policy select_policy_row caller_policy
    binding_remote_fields_complete claim fail_closed admit eval_integers parse_integer_sequence
    all_integers qps_decision acquire concurrency_decision acquire_model_pool known_pool enter_pool
    validate_limits read_pool_reply admit_or_enqueue read_decision model_pool_decision
    after_admission take_concurrency finally_release release eval_removed run_operation
    tokens_to_reserve admitted_output_tokens estimate_prompt_tokens under_lease reserve_quota
    committed transact transaction perform_all reserve_operation check_request caller_state
    check_caller select_quota_rows create_quota_rows insert_quota_row_if_missing put_quota period
    raise_for_existing_operation find_request find_operation check_limits check_quota_limit commit
    put_quota_rows new_operation take_credit upstream is_same_operation record_credit
    record_credit_reservation time_since find_pending write_credit call_provider record_usage
    record_provider_usage with_usage put_operation settle_credit end_operation terminalize
    terminal_of check_terminal finalize_operation finalize_pending settle_row settle terminate
    terminal_event find_event ◌>>=◌ ◌>>◌ rescue Holds count release_lease release_active_leases
    after_release
cancelled_keeps_pool = (refl, refl)

-- The pool's release fails, and the response is returned all the same.
served : State
unfolding execute lease_and_run load_policy load_caller_policy select_policy_row caller_policy
    binding_remote_fields_complete claim fail_closed admit eval_integers parse_integer_sequence
    all_integers qps_decision acquire concurrency_decision acquire_model_pool known_pool enter_pool
    validate_limits read_pool_reply admit_or_enqueue read_decision model_pool_decision
    after_admission take_concurrency finally_release release eval_removed run_operation
    tokens_to_reserve admitted_output_tokens estimate_prompt_tokens under_lease reserve_quota
    committed transact transaction perform_all reserve_operation check_request caller_state
    check_caller select_quota_rows create_quota_rows insert_quota_row_if_missing put_quota period
    raise_for_existing_operation find_request find_operation check_limits check_quota_limit commit
    put_quota_rows new_operation take_credit upstream is_same_operation record_credit
    record_credit_reservation time_since find_pending write_credit call_provider record_usage
    record_provider_usage with_usage put_operation settle_credit end_operation terminalize
    terminal_of check_terminal finalize_operation finalize_pending settle_row settle terminate
    terminal_event find_event ◌>>=◌ ◌>>◌
served = (execute env request caller "r1" fingerprint start).1

serving_works : execute env request caller "r1" fingerprint start ≡ (ok usage, served)
unfolding served rescue
serving_works = refl

success_is_recorded_example : IsCompleted "o1" served
success_is_recorded_example =
    success_is_recorded env request caller "r1" fingerprint start served usage serving_works
