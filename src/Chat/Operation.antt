-- ===== src/Chat/Operation.antt =====
-- The outer `try` of `ExternalChatService.execute` in backend/app/services/chat.py: what a request
-- does once it holds its place in the model pool and its concurrency lease.
use zangpu.Base.{
  ℕ, ◌+◌, String, Bool, true, false, not, ◌&&◌, ◌||◌, none, some, List, Result, ok, err, str_eq,
  ◌==◌,
}
use Prim.Native.String.{◌++◌ as str_append}
use zangpu.Models.{Outcome, Stage}
use zangpu.Quota.Finalize.{TerminalStatus}
use zangpu.Quota.Record.{holds}
use zangpu.Chat.Errors.{Code, UpstreamError, credit_error, provider_error, is_credit_refusal}
use zangpu.Chat.Payload.{
  ChatCompletionRequest, PayloadError, admitted_output_tokens, estimate_prompt_tokens,
}
use zangpu.Chat.Environment.{Environment, CreditStatus, CreditOperationSnapshot, TokenUsage}
use zangpu.Chat.Ledger.{Admission, Ending, reserve_quota, record_credit, record_usage, terminalize}
use zangpu.Chat.Action.{
  Action, Effect, ChatError, api_error, internal, ◌>>=◌, ◌>>◌, pure, throw, throw_if, emit,
  under_lease, credit_reserved, provider_called, credit_settled, upstream_failed, credit_cancelled,
}

-- A call of Open WebUI or Bifrost, whose errors the caller handles.
unfoldable pub answered :
    {A : Type 0} → Effect → Result UpstreamError A → Action (Result UpstreamError A)
answered effect (ok a) s = (ok (ok a), (emit effect s).1)
answered effect (err e) s = (ok (err e), (emit upstream_failed s).1)

unfoldable pub upstream :
    {A : Type 0} → (List Effect → Result UpstreamError A) → Effect → Action (Result UpstreamError A)
unfolding answered
upstream answer effect s = answered effect (answer s.log) s

unfoldable pub mark_committed : Action (Unit {0})
mark_committed s = (ok tt, record s { terminal_committed = true })

-- `_terminalize` under the lease, and then `terminal_committed = True`.
unfoldable pub end_operation : Environment → Admission → Ending → Action (Unit {0})
unfolding mark_committed
end_operation env x ending = do under_lease env.lease (terminalize env x ending); mark_committed

abbrev pub failure : Admission → Code → ChatError
failure x code = api_error code (some x.operation_id)

abbrev expected_usage_operation_id : Admission → String
expected_usage_operation_id x = str_append x.operation_id ":usage"

-- The parts of a snapshot that every call compares.
unfoldable pub is_same_operation : Admission → CreditOperationSnapshot → Bool
is_same_operation x credit =
    str_eq credit.operation_id x.operation_id
    && str_eq credit.service_user_id x.policy.service_user_id
    && str_eq credit.model_id x.model_id
    && holds credit.provider "bifrost"
    && holds credit.usage_operation_id (expected_usage_operation_id x)

abbrev is_pending_credit : CreditStatus → Bool
is_pending_credit CreditStatus.pending = true
is_pending_credit _ = false

abbrev is_uncharged_end : CreditStatus → Bool
is_uncharged_end CreditStatus.cancelled_charged = true
is_uncharged_end CreditStatus.failed_no_charge = true
is_uncharged_end _ = false

abbrev is_charged : CreditStatus → Bool
is_charged CreditStatus.succeeded_charged = true
is_charged _ = false

-- `except OpenWebUIUpstreamError` at the credit reservation: a refusal ends the operation.
unfoldable pub end_refused : Environment → Admission → Code → Bool → Action (Unit {0})
unfolding end_operation
end_refused env x code false = pure tt
end_refused env x code true = end_operation env x (record {
  status = TerminalStatus.rejected;
  outcome = Outcome.rejected;
  stage = Stage.credit;
  code = some code;
  charged_micro = 0;
})

unfoldable pub credit_or_refuse :
    Environment
    → Admission
    → Result UpstreamError CreditOperationSnapshot
    → Action CreditOperationSnapshot
unfolding end_refused
credit_or_refuse env x (ok credit) = pure credit
credit_or_refuse env x (err e) = do
  let code = credit_error e
  end_refused env x code (is_credit_refusal code)
  throw (failure x code)

-- Reserves the credit, checks the answer and records it; returns the settlement ID.
unfoldable pub take_credit : Environment → Admission → Action String
unfolding credit_or_refuse upstream is_same_operation
take_credit env x = do
  answer ← under_lease env.lease (upstream env.reserve_credit credit_reserved)
  credit ← credit_or_refuse env x answer
  throw_if (not (is_same_operation x credit) || not (is_pending_credit credit.status))
      (failure x Code.control_plane_unavailable)
  under_lease env.lease (record_credit env x credit.settlement_id (expected_usage_operation_id x))
  pure credit.settlement_id

unfoldable pub value_or_raise :
    {A : Type 0} → Admission → (UpstreamError → Code) → Result UpstreamError A → Action A
value_or_raise x code_of (ok a) = pure a
value_or_raise x code_of (err e) = throw (failure x (code_of e))

-- `except BifrostUpstreamError`: cancels the credit, and ends the operation if nothing was charged.
unfoldable pub give_up : Environment → Admission → String → Code → Action (Unit {0})
unfolding end_operation upstream is_same_operation value_or_raise
give_up env x settlement_id code = do
  answer ← under_lease env.lease (upstream env.cancel_credit credit_cancelled)
  credit_result ← value_or_raise x (λ e. Code.control_plane_unavailable) answer
  throw_if
      (not (is_same_operation x credit_result)
        || not (str_eq credit_result.settlement_id settlement_id)
        || not (credit_result.prompt_tokens == 0)
        || not (credit_result.completion_tokens == 0)
        || not (credit_result.total_tokens == 0)
        || not (is_uncharged_end credit_result.status)
        || not (credit_result.charged_micro == 0))
      (failure x Code.control_plane_unavailable)
  end_operation env x (record {
    status = TerminalStatus.rejected;
    outcome = Outcome.provider_error;
    stage = Stage.provider;
    code = some code;
    charged_micro = 0;
  })

unfoldable pub usage_or_give_up :
    Environment → Admission → String → Result UpstreamError TokenUsage → Action TokenUsage
unfolding give_up
usage_or_give_up env x settlement_id (ok usage) = pure usage
usage_or_give_up env x settlement_id (err e) =
    give_up env x settlement_id (provider_error e) >> throw (failure x (provider_error e))

-- `forward_chat_completion`
unfoldable pub call_provider : Environment → Admission → String → Action TokenUsage
unfolding usage_or_give_up upstream
call_provider env x settlement_id = do
  answer ← under_lease env.lease (upstream env.forward provider_called)
  usage_or_give_up env x settlement_id answer

-- Settles the credit and checks the answer; returns the charge.
unfoldable pub settle_credit : Environment → Admission → String → TokenUsage → Action ℕ
unfolding upstream is_same_operation value_or_raise
settle_credit env x settlement_id usage = do
  answer ← under_lease env.lease (upstream env.settle_credit credit_settled)
  settled ← value_or_raise x credit_error answer
  throw_if
      (not (is_same_operation x settled)
        || not (str_eq settled.settlement_id settlement_id)
        || not (is_charged settled.status)
        || not (settled.prompt_tokens == usage.prompt_tokens)
        || not (settled.completion_tokens == usage.completion_tokens)
        || not (settled.total_tokens == usage.total_tokens))
      (failure x Code.control_plane_unavailable)
  pure settled.charged_micro

abbrev pub completed_ending : ℕ → Ending
completed_ending charged_micro = record {
  status = TerminalStatus.completed;
  outcome = Outcome.success;
  stage = Stage.response;
  code = none;
  charged_micro = charged_micro;
}

abbrev pub payload_error : PayloadError → ChatError
payload_error PayloadError.invalid_request = api_error Code.invalid_request none
payload_error PayloadError.invalid_limits = internal

unfoldable pub reserved_or_raise : ChatCompletionRequest → Result PayloadError ℕ → Action ℕ
reserved_or_raise request (ok output) = pure (estimate_prompt_tokens request + output)
reserved_or_raise request (err e) = throw (payload_error e)

-- `estimate_prompt_tokens(request) + admitted_output_tokens`
unfoldable pub tokens_to_reserve : Environment → Admission → ChatCompletionRequest → Action ℕ
unfolding reserved_or_raise
tokens_to_reserve env x request = reserved_or_raise request (
    admitted_output_tokens request x.policy.max_output_tokens_per_request
      env.global_max_output_tokens)

-- The body of the outer `try`.
unfoldable pub run_operation : Environment → Admission → ChatCompletionRequest → Action TokenUsage
unfolding tokens_to_reserve take_credit call_provider settle_credit end_operation
run_operation env x request = do
  reserved_tokens ← tokens_to_reserve env x request
  under_lease env.lease (reserve_quota env x reserved_tokens)
  settlement_id ← take_credit env x
  usage ← call_provider env x settlement_id
  under_lease env.lease (record_usage env x usage)
  charged_micro ← settle_credit env x settlement_id usage
  end_operation env x (completed_ending charged_micro)
  pure usage
