-- ===== src/Chat/Execute.antt =====
-- `ExternalChatService.execute` and `_release_active_leases` of backend/app/services/chat.py.
use zangpu.Base.{
  ℕ, String, Bool, true, false, not, ◌&&◌, none, List, Result, ok, err, contains, between,
}
use zangpu.Limits.Replies.{Reply}
use zangpu.Limits.Windows.{claim, QpsDecision, admit, ConcurrencyDecision, acquire, release}
use zangpu.Chat.Errors.{Code}
use zangpu.Chat.Payload.{ChatCompletionRequest}
use zangpu.Chat.Callers.{AuthenticatedCaller, CallerPolicy}
use zangpu.Chat.Environment.{
  Environment, TokenUsage, claim_nonce, admit_qps, acquire_concurrency, release_concurrency,
  release_pool,
}
use zangpu.Chat.Pool.{acquire_model_pool}
use zangpu.Chat.Ledger.{Admission, load_policy}
use zangpu.Chat.Operation.{run_operation}
use zangpu.Chat.Action.{
  Action, State, Effect, api_error, internal, unavailable, cancelled, ◌>>=◌, ◌>>◌, pure, throw,
  throw_if, emit, ask, redis, rescue, ChatError, nonce_claimed, qps_admitted, pool_released,
  concurrency_acquired, concurrency_released,
}

-- Whether a release raised no ControlPlaneUnavailable.
abbrev pub is_clean : Reply Bool → Bool
is_clean (ok removed) = true
is_clean (err e) = false

-- How awaiting a release ends: with its reply, or with the cancellation of the request.
abbrev pub released : Bool → Reply Bool → Result ChatError Bool
released true reply = err cancelled
released false reply = ok (is_clean reply)

unfoldable pub release_lease :
    Effect → (List Effect → Bool) → (List Effect → Reply Bool) → Action Bool
release_lease effect interrupted answer s =
    (released (interrupted s.log) (answer s.log), (emit effect s).1)

-- `_release_active_leases`: the second release is tried also when Redis is unavailable for the first
-- one, and is not reached when the request is cancelled in the first one.
unfoldable pub release_active_leases : Environment → Action Bool
unfolding release_lease
release_active_leases env = do
  concurrency ←
      release_lease concurrency_released (env.is_interrupted release_concurrency)
        (λ log. release (env.redis release_concurrency log))
  pool ←
      release_lease pool_released (env.is_interrupted release_pool)
        (λ log. release (env.redis release_pool log))
  pure (concurrency && pool)

-- `finally`: releases both leases, and raises if that failed and nothing ended the operation.
unfoldable pub unclean : {A : Type 0} → Result ChatError A → Bool → Result ChatError A
unclean r true = r
unclean r false = err unavailable

unfoldable pub after_release :
    {A : Type 0} → Result ChatError A → Result ChatError Bool × State → Result ChatError A × State
unfolding unclean
after_release r (ok true, s) = (r, s)
after_release r (ok false, s) = (unclean r s.terminal_committed, s)
after_release r (err e, s) = (err e, s)

unfoldable pub finally_release : {A : Type 0} → Environment → Action A → Action A
unfolding release_active_leases after_release
finally_release env body s = let (r, s1) = body s in after_release r (release_active_leases env s1)

-- `self._model_pool_limiter.release`, where an unavailable Redis raises.
unfoldable pub release_model_pool : Environment → Action (Unit {0})
release_model_pool env = do
  emit pool_released
  redis (λ log. release (env.redis release_pool log)) >>= λ removed. pure tt

-- `ConcurrencyLimiter.acquire`, whose limit is checked first.
unfoldable pub ask_concurrency : Environment → CallerPolicy → Action ConcurrencyDecision
ask_concurrency env policy = do
  throw_if (not (between 1 1_000_000 policy.concurrency_limit)) internal
  redis (λ log. acquire policy.concurrency_limit (env.redis acquire_concurrency log))

unfoldable pub slot_or_refuse :
    Environment → ConcurrencyDecision → Bool → Action ConcurrencyDecision
unfolding release_model_pool
slot_or_refuse env concurrency true = emit concurrency_acquired >> pure concurrency
slot_or_refuse env concurrency false =
    release_model_pool env >> throw (api_error Code.concurrency_limited none)

-- The concurrency lease; the place in the pool is given back on an exception or a refusal.
unfoldable pub take_concurrency : Environment → CallerPolicy → Action ConcurrencyDecision
unfolding ask_concurrency slot_or_refuse
take_concurrency env policy = do
  concurrency ← rescue (ask_concurrency env policy) (λ e. release_model_pool env >> throw e)
  slot_or_refuse env concurrency concurrency.allowed

-- The checks before the leases: the nonce, the caller's policy and the rate.
unfoldable pub claim_nonce_once : Environment → Action (Unit {0})
claim_nonce_once env = do
  claimed ← redis (λ log. claim (env.redis claim_nonce log))
  throw_if (not claimed) (api_error Code.auth_failed none)
  emit nonce_claimed

unfoldable pub admitted_policy :
    Environment → ChatCompletionRequest → AuthenticatedCaller → ℕ → Action CallerPolicy
admitted_policy env request caller now = do
  policy ← load_policy env caller now
  throw_if (not (contains "chat.completions" policy.allowed_endpoints))
      (api_error Code.endpoint_forbidden none)
  throw_if (not (contains request.model policy.allowed_models))
      (api_error Code.model_forbidden none)
  pure policy

unfoldable pub admit_rate : Environment → CallerPolicy → Action QpsDecision
admit_rate env policy = do
  throw_if (not (between 1 1_000_000 policy.qps_limit)) internal
  qps ← redis (λ log. admit policy.qps_limit (env.redis admit_qps log))
  throw_if (not qps.allowed) (api_error Code.qps_limited none)
  emit qps_admitted
  pure qps

-- What `execute` does once it has a policy and the rate's decision.
unfoldable pub lease_and_run :
    Environment
    → ChatCompletionRequest
    → AuthenticatedCaller
    → String
    → String
    → ℕ
    → CallerPolicy
    → QpsDecision
    → Action TokenUsage
unfolding take_concurrency finally_release
lease_and_run env request caller server_request_id request_fingerprint started_at policy qps = do
  model_pool_policy ← acquire_model_pool env request.model
  concurrency ← take_concurrency env policy
  let x : Admission = record {
    caller = caller;
    policy = policy;
    model_id = request.model;
    operation_id = env.new_operation_id;
    operation_started_at = started_at;
    server_request_id = server_request_id;
    request_fingerprint = request_fingerprint;
    qps = qps;
    concurrency = concurrency;
  }
  finally_release env (run_operation env x request)

-- The result is the response's usage; the response itself and the headers are left out.
unfoldable pub execute :
    Environment → ChatCompletionRequest → AuthenticatedCaller → String → String → Action TokenUsage
unfolding claim_nonce_once admitted_policy admit_rate lease_and_run
execute env request caller server_request_id request_fingerprint = do
  throw_if request.stream (api_error Code.unsupported_feature none)
  started_at ← ask env.clock
  claim_nonce_once env
  policy ← admitted_policy env request caller started_at
  qps ← admit_rate env policy
  lease_and_run env request caller server_request_id request_fingerprint started_at policy qps
