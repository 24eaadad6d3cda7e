-- ===== src/Chat/Entry.antt =====
-- What the steps of `execute` in backend/app/services/chat.py before the leases keep: the nonce, the
-- caller's policy, the rate, and the first call of the model pool's limiter.
use zangpu.Base.{ℕ, String, Option, none, some, Result, ok, err, refl}
use zangpu.Limits.ModelPool.{ModelPoolDecision, validate_limits}
use zangpu.Chat.Errors.{CallerPolicyCode}
use zangpu.Chat.Payload.{ChatCompletionRequest}
use zangpu.Chat.Callers.{AuthenticatedCaller, CallerPolicy, load_caller_policy}
use zangpu.Chat.Environment.{Environment, ModelPoolPolicy}
use zangpu.Chat.Action.{Action, State, nonce_claimed, qps_admitted}
use zangpu.Chat.Action.Triple.{
  Keeps, bind-Triple, seq-Triple, emit-Triple, pure-Keeps, throw-Keeps, throw_if-Keeps, redis-Keeps,
  query-Keeps,
}
use zangpu.Chat.Pool.{after_check, enter_pool, known_pool}
use zangpu.Chat.Ledger.{load_policy, policy_or_raise}
use zangpu.Chat.Execute.{claim_nonce_once, admitted_policy, admit_rate}
use zangpu.Chat.Steps.{Closed}

pub checked-Keeps :
    {P : State → Type 0} (r : Result String (Unit {0})) (m : Action ModelPoolDecision)
    → Keeps P m
    → Keeps P (after_check r m)
unfolding after_check
checked-Keeps (ok t) m h = h
checked-Keeps (err e) m h = throw-Keeps _

pub known_pool-Keeps :
    {P : State → Type 0} (policy : Option ModelPoolPolicy) → Keeps P (known_pool policy)
unfolding known_pool
known_pool-Keeps none = throw-Keeps _
known_pool-Keeps (some policy) = pure-Keeps policy

pub enter_pool-Keeps :
    {P : State → Type 0} (env : Environment) (policy : ModelPoolPolicy)
    → Keeps P (enter_pool env policy)
unfolding enter_pool
enter_pool-Keeps env policy =
    checked-Keeps
      (validate_limits policy.active_limit env.global_queue_limit env.caller_queue_limit
        env.queue_wait_seconds)
      _ (redis-Keeps _)

pub policy_or_raise-Keeps :
    {P : State → Type 0} (r : Result CallerPolicyCode CallerPolicy) → Keeps P (policy_or_raise r)
unfolding policy_or_raise
policy_or_raise-Keeps (ok policy) = pure-Keeps policy
policy_or_raise-Keeps (err code) = throw-Keeps _

pub policy-Keeps :
    {P : State → Type 0} (env : Environment) (request : ChatCompletionRequest)
    (caller : AuthenticatedCaller) (now : ℕ)
    → Keeps P (admitted_policy env request caller now)
unfolding admitted_policy load_policy
policy-Keeps env request caller now =
    bind-Triple
      (bind-Triple
        (query-Keeps env.others
          (load_caller_policy env.is_uuid env.decrypt env.bindings caller now))
        (λ r. policy_or_raise-Keeps r))
      (λ policy.
        seq-Triple (throw_if-Keeps _ _)
          (λ t. seq-Triple (throw_if-Keeps _ _) (λ t. pure-Keeps policy)))

module _ {P : State → Type 0} (closed : Closed P) where
  pub nonce-Keeps : (env : Environment) → Keeps P (claim_nonce_once env)
  unfolding claim_nonce_once
  nonce-Keeps env = bind-Triple (redis-Keeps _) (λ claimed.
      seq-Triple (throw_if-Keeps _ _)
        (λ t. emit-Triple nonce_claimed (λ s p. closed.on_log nonce_claimed s refl p)))

  pub rate-Keeps : (env : Environment) (policy : CallerPolicy) → Keeps P (admit_rate env policy)
  unfolding admit_rate
  rate-Keeps env policy = seq-Triple (throw_if-Keeps _ _) (λ t. bind-Triple (redis-Keeps _) (λ qps.
      seq-Triple (throw_if-Keeps _ _) (λ t.
        seq-Triple (emit-Triple qps_admitted (λ s p. closed.on_log qps_admitted s refl p))
          (λ t. pure-Keeps qps))))
