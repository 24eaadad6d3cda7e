-- ===== src/Chat/Environment.antt =====
-- What backend/app/services/chat.py calls and what it is configured with: Redis, Open WebUI,
-- Bifrost, the clock and the event loop, each an answer that may depend on the log so far.
-- `is_interrupted` says whether the request is cancelled while the clean-up awaits a release.
use zangpu.Base.{ℕ, String, Bool, Option, List, Result}
use zangpu.Models.{Scope}
use zangpu.Quota.Lifecycle.{Call}
use zangpu.Limits.Replies.{RedisReply}
use zangpu.Chat.Errors.{UpstreamError}
use zangpu.Chat.Callers.{ApiClientBinding}
use zangpu.Chat.Action.{Effect, LeaseOutcome}

-- The Redis calls of a request, but for those of the queue loop.
pub data RedisCall : Type 0 where
  claim_nonce admit_qps admit_pool cancel_queued : RedisCall
  acquire_concurrency release_concurrency release_pool : RedisCall

-- A turn of the queue loop before the deadline: the sleep lasted past the deadline, it was
-- interrupted, or the limiter was asked again.
pub data PollRound : Type 0 where
  late interrupted : PollRound
  polled : RedisReply → PollRound

pub data CreditStatus : Type 0 where
  pending succeeded_charged cancelled_charged failed_no_charge settlement_error : CreditStatus

-- Its UUIDs are texts in the canonical form, which is what the service compares. The account, the
-- balances and the times are left out.
pub record CreditOperationSnapshot : Type 0 where
  pub operation_id : String
  pub settlement_id : String
  pub service_user_id : String
  pub model_id : String
  pub provider : Option String
  pub status : CreditStatus
  pub prompt_tokens : ℕ
  pub completion_tokens : ℕ
  pub total_tokens : ℕ
  pub charged_micro : ℕ
  pub usage_operation_id : Option String

-- The usage of a Bifrost response.
pub record TokenUsage : Type 0 where
  pub prompt_tokens : ℕ
  pub completion_tokens : ℕ
  pub total_tokens : ℕ

pub record ModelPoolPolicy : Type 0 where
  pub pool_id : String
  pub active_limit : ℕ

pub record Environment : Type 0 where
  pub model_pool_policies : String → Option ModelPoolPolicy
  pub global_max_output_tokens : ℕ
  pub global_queue_limit : ℕ
  pub caller_queue_limit : ℕ
  pub queue_wait_seconds : ℕ
  pub is_uuid : String → Bool
  pub decrypt : ApiClientBinding → Option String
  pub bindings : String → Option ApiClientBinding
  pub new_operation_id : String
  pub new_event_id : String
  pub new_row_ids : Scope → String
  pub others : List Effect → List Call
  pub clock : List Effect → ℕ
  pub elapsed_ms : List Effect → ℕ
  pub redis : RedisCall → List Effect → RedisReply
  pub is_interrupted : RedisCall → List Effect → Bool
  pub rounds : List Effect → List PollRound
  pub lease : List Effect → LeaseOutcome
  pub reserve_credit : List Effect → Result UpstreamError CreditOperationSnapshot
  pub cancel_credit : List Effect → Result UpstreamError CreditOperationSnapshot
  pub settle_credit : List Effect → Result UpstreamError CreditOperationSnapshot
  pub forward : List Effect → Result UpstreamError TokenUsage
