-- ===== src/Chat/Order/Operation.antt =====
-- The order of the calls of `run_operation`, step by step.
use zangpu.Base.{ℕ, String, Result, ok, err, refl}
use zangpu.Chat.Errors.{Code, UpstreamError}
use zangpu.Chat.Payload.{ChatCompletionRequest, PayloadError}
use zangpu.Chat.Environment.{Environment, TokenUsage}
use zangpu.Chat.Action.{
  State, credit_reserved, credit_recorded, provider_called, usage_recorded, credit_settled,
  credit_cancelled, quota_reserved, concurrency_acquired,
}
use zangpu.Chat.Action.Triple.{
  Triple, Keeps, bind-Triple, seq-Triple, pure-Triple, throw-Triple, from, weaken, pure-Keeps,
  throw-Keeps, throw_if-Keeps,
}
use zangpu.Chat.Ledger.{Admission, reserve_quota, record_credit, record_usage}
use zangpu.Chat.Operation.{
  take_credit, give_up, usage_or_give_up, call_provider, settle_credit, reserved_or_raise,
  tokens_to_reserve, run_operation,
}
use zangpu.Chat.Order.{needs, Ordered, Ready, Ready-needs}
use zangpu.Chat.Order.Steps.{
  quiet, leased, committed-Ready, time_since-Ready, end_operation-Ready, Answered, called,
  value_or_raise-Ready, credit_or_refuse-Ready,
}

recorded-reserved : (s : State) → Ready credit_recorded s → Ready quota_reserved s
unfolding needs
recorded-reserved s p =
    Ready-needs credit_reserved quota_reserved refl s
      (Ready-needs credit_recorded credit_reserved refl s p)

settled-reserved : (s : State) → Ready credit_settled s → Ready quota_reserved s
unfolding needs
settled-reserved s p = recorded-reserved s (
    Ready-needs provider_called credit_recorded refl s (
      Ready-needs usage_recorded provider_called refl s
        (Ready-needs credit_settled usage_recorded refl s p)))

reserve_quota-Ready :
    (env : Environment) (x : Admission) (n : ℕ)
    → Triple
        (Ready concurrency_acquired)
        (reserve_quota env x n)
        (λ t. Ready quota_reserved)
        Ordered
unfolding reserve_quota needs
reserve_quota-Ready env x n = committed-Ready env quota_reserved concurrency_acquired _ refl

record_credit-Ready :
    (env : Environment) (x : Admission) (settlement_id usage_operation_id : String)
    → Triple
        (Ready credit_reserved)
        (record_credit env x settlement_id usage_operation_id)
        (λ t. Ready credit_recorded)
        Ordered
unfolding record_credit needs
record_credit-Ready env x a b =
    bind-Triple (time_since-Ready env x credit_reserved)
      (λ now. committed-Ready env credit_recorded credit_reserved _ refl)

record_usage-Ready :
    (env : Environment) (x : Admission) (usage : TokenUsage)
    → Triple (Ready provider_called) (record_usage env x usage) (λ t. Ready usage_recorded) Ordered
unfolding record_usage needs
record_usage-Ready env x usage =
    bind-Triple (time_since-Ready env x provider_called)
      (λ now. committed-Ready env usage_recorded provider_called _ refl)

take_credit-Ready :
    (env : Environment) (x : Admission)
    → Triple (Ready quota_reserved) (take_credit env x) (λ i. Ready credit_recorded) Ordered
unfolding take_credit needs
take_credit-Ready env x =
    bind-Triple (called env credit_reserved quota_reserved env.reserve_credit refl) (λ answer.
      bind-Triple (credit_or_refuse-Ready env x answer) (λ credit.
        seq-Triple (quiet credit_reserved (throw_if-Keeps _ _)) (λ t.
          seq-Triple
            (leased credit_recorded credit_reserved env.lease (record_credit-Ready env x _ _))
            (λ t. quiet credit_recorded (pure-Keeps _)))))

give_up-Ready :
    (env : Environment) (x : Admission) (settlement_id : String) (code : Code)
    → Triple (Ready credit_recorded) (give_up env x settlement_id code) (λ t. Ordered) Ordered
unfolding give_up needs
give_up-Ready env x settlement_id code =
    bind-Triple (called env credit_cancelled credit_recorded env.cancel_credit refl) (λ answer.
      bind-Triple (value_or_raise-Ready credit_cancelled credit_recorded x _ answer) (λ credit.
        seq-Triple (quiet credit_cancelled (throw_if-Keeps _ _)) (λ t.
          from (λ s p. recorded-reserved s (Ready-needs credit_cancelled credit_recorded refl s p))
            (weaken (end_operation-Ready env x _) (λ t s p. p.1)))))

usage_or_give_up-Ready :
    (env : Environment) (x : Admission) (settlement_id : String)
    (r : Result UpstreamError TokenUsage)
    → Triple
        (Answered provider_called credit_recorded r)
        (usage_or_give_up env x settlement_id r)
        (λ u. Ready provider_called)
        Ordered
unfolding usage_or_give_up
usage_or_give_up-Ready env x settlement_id (ok usage) = pure-Triple usage (λ s p. p)
usage_or_give_up-Ready env x settlement_id (err e) =
    seq-Triple (give_up-Ready env x settlement_id _) (λ t. throw-Triple _ (λ s p. p))

call_provider-Ready :
    (env : Environment) (x : Admission) (settlement_id : String)
    → Triple
        (Ready credit_recorded)
        (call_provider env x settlement_id)
        (λ u. Ready provider_called)
        Ordered
unfolding call_provider needs
call_provider-Ready env x settlement_id =
    bind-Triple (called env provider_called credit_recorded env.forward refl)
      (λ answer. usage_or_give_up-Ready env x settlement_id answer)

settle_credit-Ready :
    (env : Environment) (x : Admission) (settlement_id : String) (usage : TokenUsage)
    → Triple
        (Ready usage_recorded)
        (settle_credit env x settlement_id usage)
        (λ c. Ready credit_settled)
        Ordered
unfolding settle_credit needs
settle_credit-Ready env x settlement_id usage =
    bind-Triple (called env credit_settled usage_recorded env.settle_credit refl) (λ answer.
      bind-Triple (value_or_raise-Ready credit_settled usage_recorded x _ answer) (λ settled.
        seq-Triple (quiet credit_settled (throw_if-Keeps _ _))
          (λ t. quiet credit_settled (pure-Keeps _))))

reserved_or_raise-Ready :
    (request : ChatCompletionRequest) (r : Result PayloadError ℕ)
    → Keeps (Ready concurrency_acquired) (reserved_or_raise request r)
unfolding reserved_or_raise
reserved_or_raise-Ready request (ok n) = pure-Keeps _
reserved_or_raise-Ready request (err e) = throw-Keeps _

pub run_operation-Ready :
    (env : Environment) (x : Admission) (request : ChatCompletionRequest)
    → Triple (Ready concurrency_acquired) (run_operation env x request) (λ u. Ordered) Ordered
unfolding run_operation tokens_to_reserve
run_operation-Ready env x request =
    bind-Triple (quiet concurrency_acquired (reserved_or_raise-Ready request _)) (λ n.
      seq-Triple
        (leased quota_reserved concurrency_acquired env.lease (reserve_quota-Ready env x n))
        (λ t. bind-Triple (take_credit-Ready env x) (λ settlement_id.
          bind-Triple (call_provider-Ready env x settlement_id) (λ usage.
            seq-Triple
              (leased usage_recorded provider_called env.lease (record_usage-Ready env x usage))
              (λ t. bind-Triple (settle_credit-Ready env x settlement_id usage) (λ charged.
                seq-Triple (from settled-reserved (end_operation-Ready env x _))
                  (λ t. pure-Triple usage (λ s p. p.1))))))))
