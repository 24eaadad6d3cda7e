-- ===== src/Chat/Steps.antt =====
-- What the steps of a request keep: any predicate on the state that is kept by every ledger
-- transaction, by the flag, and by logging any call but an admission or a release.
use zangpu.Base.{ℕ, pos, String, Bool, true, false, Result, ok, err, List, [], ◌∷◌, ◌≡◌, refl}
use zangpu.Models.Database.{Database}
use zangpu.Quota.{QuotaError}
use zangpu.Quota.Transaction.{transaction}
use zangpu.Quota.Lifecycle.{Call, perform, perform_all}
use zangpu.Quota.Finalize.{OperationTerminal}
use zangpu.Chat.Errors.{Code, UpstreamError}
use zangpu.Chat.Payload.{ChatCompletionRequest, PayloadError}
use zangpu.Chat.Environment.{Environment, TokenUsage, CreditOperationSnapshot}
use zangpu.Chat.Action.{
  State, Effect, emit, pool_admitted, quota_reserved, credit_recorded, usage_recorded,
  operation_terminalized, credit_reserved, credit_settled, upstream_failed, credit_cancelled,
  provider_called, internal, pool_released, concurrency_acquired, concurrency_released,
}
use zangpu.Chat.Action.Triple.{
  Keeps, Ends, bind-Triple, seq-Triple, emit-Triple, pure-Keeps, throw-Keeps, throw_if-Keeps,
  ask-Keeps, lease-Keeps, transact-Keeps,
}
use zangpu.Chat.Ledger.{
  Admission, Ending, committed, after_commit, ledger_error, reserve_quota, record_credit,
  record_usage, time_since, terminalize, finish,
}
use zangpu.Chat.Operation.{
  upstream, answered, mark_committed, end_operation, end_refused, credit_or_refuse, take_credit,
  value_or_raise, give_up, usage_or_give_up, call_provider, settle_credit, reserved_or_raise,
  tokens_to_reserve, run_operation,
}

abbrev pub is_lease : Effect → Bool
is_lease pool_admitted = true
is_lease pool_released = true
is_lease concurrency_acquired = true
is_lease concurrency_released = true
is_lease _ = false

pub record Closed (P : State → Type 0) : Type 0 where
  pub on_log :
      (effect : Effect) (s : State)
      → is_lease effect ≡ false
      → P s
      → P (record s { log = effect ∷ s.log })
  pub on_call : (call : Call) (s : State) → P s → P (record s { ledger = perform call s.ledger })
  pub on_mark : (s : State) → P s → P (record s { terminal_committed = true })

module _ {P : State → Type 0} (closed : Closed P) where
  on_calls :
      (calls : List Call) (s : State) → P s → P (record s { ledger = perform_all calls s.ledger })
  unfolding perform_all
  on_calls [] s p = p
  on_calls (call ∷ calls) s p =
      on_calls calls (record s { ledger = perform call s.ledger }) (closed.on_call call s p)

  emit-Keeps : (effect : Effect) → is_lease effect ≡ false → Keeps P (emit effect)
  emit-Keeps effect h = emit-Triple effect (λ s p. closed.on_log effect s h p)

  after_commit-Keeps :
      {A : Type 0} (effect : Effect) (r : Result QuotaError A)
      → is_lease effect ≡ false
      → Keeps P (after_commit effect r)
  unfolding after_commit
  after_commit-Keeps effect (ok a) h = emit-Keeps effect h
  after_commit-Keeps effect (err e) h = throw-Keeps (ledger_error e)

  -- A ledger call whose effect on the ledger is that of a transaction.
  committed-Keeps :
      {A : Type 0} (env : Environment) (effect : Effect)
      (body : Database → Result QuotaError (A × Database))
      → is_lease effect ≡ false
      → ((s : State) → P s → P (record s { ledger = (transaction body s.ledger).1 }))
      → Keeps P (committed env effect body)
  unfolding committed
  committed-Keeps env effect body h on_body =
      bind-Triple
        (transact-Keeps env.others body (λ s p.
          on_body (record s { ledger = perform_all (env.others s.log) s.ledger })
            (on_calls (env.others s.log) s p)))
        (λ r. after_commit-Keeps effect r h)

  reserve_quota-Keeps :
      (env : Environment) (x : Admission) (n : ℕ) → Keeps P (reserve_quota env x n)
  unfolding reserve_quota perform
  reserve_quota-Keeps env x n =
      committed-Keeps env quota_reserved _ refl (λ s p. closed.on_call (Call.reserve _) s p)

  time_since-Keeps : (env : Environment) (x : Admission) → Keeps P (time_since env x)
  unfolding time_since
  time_since-Keeps env x = bind-Triple (ask-Keeps env.clock) (λ now. pure-Keeps _)

  record_credit-Keeps :
      (env : Environment) (x : Admission) (settlement_id usage_operation_id : String)
      → Keeps P (record_credit env x settlement_id usage_operation_id)
  unfolding record_credit perform
  record_credit-Keeps env x a b = bind-Triple (time_since-Keeps env x) (λ now.
      committed-Keeps env credit_recorded _ refl
        (λ s p. closed.on_call (Call.record_credit x.operation_id a b now) s p))

  record_usage-Keeps :
      (env : Environment) (x : Admission) (usage : TokenUsage) → Keeps P (record_usage env x usage)
  unfolding record_usage perform
  record_usage-Keeps env x usage = bind-Triple (time_since-Keeps env x) (λ now.
      committed-Keeps env usage_recorded _ refl (λ s p.
        closed.on_call
          (Call.record_usage x.operation_id (pos usage.prompt_tokens) (pos usage.completion_tokens)
            now)
          s p))

  finish-Keeps :
      (env : Environment) (x : Admission) (r : Result QuotaError OperationTerminal)
      → Keeps P (finish env x r)
  unfolding finish perform
  finish-Keeps env x (ok t) =
      committed-Keeps env operation_terminalized _ refl
        (λ s p. closed.on_call (Call.terminalize env.new_event_id x.operation_id t) s p)
  finish-Keeps env x (err e) = throw-Keeps internal

  terminalize-Keeps :
      (env : Environment) (x : Admission) (ending : Ending) → Keeps P (terminalize env x ending)
  unfolding terminalize
  terminalize-Keeps env x ending =
      bind-Triple (time_since-Keeps env x)
        (λ now. bind-Triple (ask-Keeps env.elapsed_ms) (λ duration. finish-Keeps env x _))

  end_operation-Keeps :
      (env : Environment) (x : Admission) (ending : Ending) → Keeps P (end_operation env x ending)
  unfolding end_operation mark_committed
  end_operation-Keeps env x ending =
      seq-Triple (lease-Keeps env.lease (terminalize-Keeps env x ending))
        (λ t. record { run = λ s p. closed.on_mark s p })

  upstream-Keeps :
      {A : Type 0} (answer : List Effect → Result UpstreamError A) (effect : Effect)
      → is_lease effect ≡ false
      → Keeps P (upstream answer effect)
  unfolding upstream
  upstream-Keeps answer effect h = record { run = λ s p. go s (answer s.log) p }
    where
      go :
          {B : Type 0} (s : State) (r : Result UpstreamError B)
          → P s
          → Ends (λ b. P) P (answered effect r s)
      go s (ok b) p = closed.on_log effect s h p
      go s (err e) p = closed.on_log upstream_failed s refl p

  end_refused-Keeps :
      (env : Environment) (x : Admission) (code : Code) (b : Bool)
      → Keeps P (end_refused env x code b)
  unfolding end_refused
  end_refused-Keeps env x code false = pure-Keeps tt
  end_refused-Keeps env x code true = end_operation-Keeps env x _

  credit_or_refuse-Keeps :
      (env : Environment) (x : Admission) (r : Result UpstreamError CreditOperationSnapshot)
      → Keeps P (credit_or_refuse env x r)
  unfolding credit_or_refuse
  credit_or_refuse-Keeps env x (ok credit) = pure-Keeps credit
  credit_or_refuse-Keeps env x (err e) =
      seq-Triple (end_refused-Keeps env x _ _) (λ t. throw-Keeps _)

  take_credit-Keeps : (env : Environment) (x : Admission) → Keeps P (take_credit env x)
  unfolding take_credit
  take_credit-Keeps env x =
      bind-Triple (lease-Keeps env.lease (upstream-Keeps env.reserve_credit credit_reserved refl))
        (λ answer. bind-Triple (credit_or_refuse-Keeps env x answer) (λ credit.
          seq-Triple (throw_if-Keeps _ _) (λ t.
            seq-Triple (lease-Keeps env.lease (record_credit-Keeps env x _ _))
              (λ t. pure-Keeps _))))

  value_or_raise-Keeps :
      {A : Type 0} (x : Admission) (code_of : UpstreamError → Code) (r : Result UpstreamError A)
      → Keeps P (value_or_raise x code_of r)
  unfolding value_or_raise
  value_or_raise-Keeps x code_of (ok a) = pure-Keeps a
  value_or_raise-Keeps x code_of (err e) = throw-Keeps _

  give_up-Keeps :
      (env : Environment) (x : Admission) (settlement_id : String) (code : Code)
      → Keeps P (give_up env x settlement_id code)
  unfolding give_up
  give_up-Keeps env x settlement_id code =
      bind-Triple (lease-Keeps env.lease (upstream-Keeps env.cancel_credit credit_cancelled refl))
        (λ answer.
          bind-Triple (value_or_raise-Keeps x _ answer)
            (λ credit. seq-Triple (throw_if-Keeps _ _) (λ t. end_operation-Keeps env x _)))

  usage_or_give_up-Keeps :
      (env : Environment) (x : Admission) (settlement_id : String)
      (r : Result UpstreamError TokenUsage)
      → Keeps P (usage_or_give_up env x settlement_id r)
  unfolding usage_or_give_up
  usage_or_give_up-Keeps env x settlement_id (ok usage) = pure-Keeps usage
  usage_or_give_up-Keeps env x settlement_id (err e) =
      seq-Triple (give_up-Keeps env x settlement_id _) (λ t. throw-Keeps _)

  call_provider-Keeps :
      (env : Environment) (x : Admission) (settlement_id : String)
      → Keeps P (call_provider env x settlement_id)
  unfolding call_provider
  call_provider-Keeps env x settlement_id =
      bind-Triple (lease-Keeps env.lease (upstream-Keeps env.forward provider_called refl))
        (λ answer. usage_or_give_up-Keeps env x settlement_id answer)

  settle_credit-Keeps :
      (env : Environment) (x : Admission) (settlement_id : String) (usage : TokenUsage)
      → Keeps P (settle_credit env x settlement_id usage)
  unfolding settle_credit
  settle_credit-Keeps env x settlement_id usage =
      bind-Triple (lease-Keeps env.lease (upstream-Keeps env.settle_credit credit_settled refl))
        (λ answer.
          bind-Triple (value_or_raise-Keeps x _ answer)
            (λ settled. seq-Triple (throw_if-Keeps _ _) (λ t. pure-Keeps _)))

  reserved_or_raise-Keeps :
      (request : ChatCompletionRequest) (r : Result PayloadError ℕ)
      → Keeps P (reserved_or_raise request r)
  unfolding reserved_or_raise
  reserved_or_raise-Keeps request (ok n) = pure-Keeps _
  reserved_or_raise-Keeps request (err e) = throw-Keeps _

  pub run_operation-Keeps :
      (env : Environment) (x : Admission) (request : ChatCompletionRequest)
      → Keeps P (run_operation env x request)
  unfolding run_operation tokens_to_reserve
  run_operation-Keeps env x request = bind-Triple (reserved_or_raise-Keeps request _) (λ n.
      seq-Triple (lease-Keeps env.lease (reserve_quota-Keeps env x n)) (λ t.
        bind-Triple (take_credit-Keeps env x) (λ settlement_id.
          bind-Triple (call_provider-Keeps env x settlement_id) (λ usage.
            seq-Triple (lease-Keeps env.lease (record_usage-Keeps env x usage)) (λ t.
              bind-Triple (settle_credit-Keeps env x settlement_id usage)
                (λ charged. seq-Triple (end_operation-Keeps env x _) (λ t. pure-Keeps usage)))))))
