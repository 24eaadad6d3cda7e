-- ===== src/Chat/Leases.antt =====
-- The leases of a request to backend/app/services/chat.py: its place in the model pool and its
-- concurrency lease, counted in the log as taken and as given back.
use zangpu.Base.{
  ℕ, ◌+◌, String, Bool, true, false, List, [], ◌∷◌, Result, ok, err, ◌≡◌, arith, if◌then◌else◌,
}
use zangpu.Limits.Replies.{Reply}
use zangpu.Limits.ModelPool.{ModelPoolStatus, ModelPoolDecision}
use zangpu.Limits.Windows.{ConcurrencyDecision, release}
use zangpu.Chat.Payload.{ChatCompletionRequest}
use zangpu.Chat.Callers.{AuthenticatedCaller, CallerPolicy}
use zangpu.Chat.Environment.{
  Environment, release_concurrency, release_pool, ModelPoolPolicy, PollRound, late, interrupted,
  polled,
}
use zangpu.Chat.Action.{
  Action, State, Effect, ChatError, emit, pool_admitted, pool_released, concurrency_acquired,
  concurrency_released, pool_queued, pool_cancelled,
}
use zangpu.Chat.Action.Triple.{
  Triple, Keeps, Ends, state-Ends, bind-Triple, seq-Triple, pure-Triple, throw-Triple, emit-Triple,
  rescue-Triple, pure-Keeps, throw_if-Keeps, ask-Keeps, redis-Keeps, final-Keeps,
}
use zangpu.Chat.Pool.{
  leave_queue, left_quietly, leave_queue_quietly, after_status, after_poll, wait_in_queue,
  after_admission, acquire_model_pool,
}
use zangpu.Chat.Ledger.{load_policy}
use zangpu.Chat.Execute.{
  release_lease, release_active_leases, after_release, finally_release, release_model_pool,
  ask_concurrency, slot_or_refuse, take_concurrency, claim_nonce_once, admitted_policy, admit_rate,
  lease_and_run, execute,
}
use zangpu.Chat.Entry.{enter_pool-Keeps, known_pool-Keeps, nonce-Keeps, policy-Keeps, rate-Keeps}
use zangpu.Chat.Steps.{Closed, is_lease, run_operation-Keeps}

abbrev pub is_pool_admission : Effect → Bool
is_pool_admission pool_admitted = true
is_pool_admission _ = false

abbrev pub is_pool_release : Effect → Bool
is_pool_release pool_released = true
is_pool_release _ = false

abbrev pub is_concurrency_acquisition : Effect → Bool
is_concurrency_acquisition concurrency_acquired = true
is_concurrency_acquisition _ = false

abbrev pub is_concurrency_release : Effect → Bool
is_concurrency_release concurrency_released = true
is_concurrency_release _ = false

unfoldable pub count : (Effect → Bool) → List Effect → ℕ
count p [] = 0
count p (effect ∷ log) = if p effect then 1 + count p log else count p log

-- The log shows `pool` places in the model pool and `slots` concurrency leases still held.
unfoldable pub Holds : ℕ → ℕ → State → Type 0
Holds pool slots s =
    (count is_pool_admission s.log ≡ count is_pool_release s.log + pool)
    × (count is_concurrency_acquisition s.log ≡ count is_concurrency_release s.log + slots)

-- Every step but an admission or a release leaves what is held as it is.
Holds-Closed : (pool slots : ℕ) → Closed (Holds pool slots)
unfolding Holds count
Holds-Closed pool slots = record {
  on_log = λ effect s quiet p. go effect s quiet p;
  on_call = λ call s p. p;
  on_mark = λ s p. p;
}
  where
    go :
        (effect : Effect) (s : State)
        → is_lease effect ≡ false
        → Holds pool slots s
        → Holds pool slots (record s { log = effect ∷ s.log })
    go Effect.nonce_claimed s quiet p = p
    go Effect.qps_admitted s quiet p = p
    go Effect.pool_queued s quiet p = p
    go Effect.pool_cancelled s quiet p = p
    go Effect.quota_reserved s quiet p = p
    go Effect.credit_reserved s quiet p = p
    go Effect.credit_recorded s quiet p = p
    go Effect.provider_called s quiet p = p
    go Effect.usage_recorded s quiet p = p
    go Effect.credit_settled s quiet p = p
    go Effect.credit_cancelled s quiet p = p
    go Effect.upstream_failed s quiet p = p
    go Effect.operation_terminalized s quiet p = p
    go Effect.pool_admitted s quiet p = cc
    go Effect.pool_released s quiet p = cc
    go Effect.concurrency_acquired s quiet p = cc
    go Effect.concurrency_released s quiet p = cc

-- The queue: a place in the pool is held only when it ends with a value.
leave_queue-Triple :
    (env : Environment) (e : ChatError)
    → Triple (Holds 0 0) (leave_queue env e) (λ t. Holds 1 0) (Holds 0 0)
unfolding leave_queue Holds count
leave_queue-Triple env e = seq-Triple (bind-Triple (redis-Keeps _) (λ removed. pure-Keeps tt)) (λ t.
    seq-Triple (emit-Triple {Q = λ u. Holds 0 0} pool_cancelled (λ s p. p))
      (λ t. throw-Triple e (λ s p. p)))

left_quietly-Triple :
    (r : Reply Bool) → Triple (Holds 0 0) (left_quietly r) (λ t. Holds 1 0) (Holds 0 0)
unfolding left_quietly Holds count
left_quietly-Triple (ok removed) =
    seq-Triple (emit-Triple {Q = λ u. Holds 0 0} pool_cancelled (λ s p. p))
      (λ t. throw-Triple _ (λ s p. p))
left_quietly-Triple (err e) = throw-Triple _ (λ s p. p)

pool_admitted-Triple : Triple (Holds 0 0) (emit pool_admitted) (λ t. Holds 1 0) (Holds 0 0)
unfolding Holds count
pool_admitted-Triple = emit-Triple pool_admitted (λ s p. (omega arith, p.1))

pool_queued-Keeps : Keeps (Holds 0 0) (emit pool_queued)
unfolding Holds count
pool_queued-Keeps = emit-Triple pool_queued (λ s p. p)

after_status-Triple :
    (status : ModelPoolStatus) (again : Action (Unit {0}))
    → Triple (Holds 0 0) again (λ t. Holds 1 0) (Holds 0 0)
    → Triple (Holds 0 0) (after_status status again) (λ t. Holds 1 0) (Holds 0 0)
unfolding after_status
after_status-Triple ModelPoolStatus.admitted again h = pool_admitted-Triple
after_status-Triple ModelPoolStatus.queued again h = seq-Triple pool_queued-Keeps (λ t. h)
after_status-Triple ModelPoolStatus.caller_queue_full again h = throw-Triple _ (λ s p. p)
after_status-Triple ModelPoolStatus.queue_full again h = throw-Triple _ (λ s p. p)

after_poll-Triple :
    (env : Environment) (r : Reply ModelPoolDecision) (again : Action (Unit {0}))
    → Triple (Holds 0 0) again (λ t. Holds 1 0) (Holds 0 0)
    → Triple (Holds 0 0) (after_poll env r again) (λ t. Holds 1 0) (Holds 0 0)
unfolding after_poll
after_poll-Triple env (ok decision) again h = after_status-Triple decision.status again h
after_poll-Triple env (err e) again h = leave_queue-Triple env _

wait_in_queue-Triple :
    (env : Environment) (policy : ModelPoolPolicy) (rounds : List PollRound)
    → Triple (Holds 0 0) (wait_in_queue env policy rounds) (λ t. Holds 1 0) (Holds 0 0)
unfolding wait_in_queue leave_queue_quietly
wait_in_queue-Triple env policy [] = leave_queue-Triple env _
wait_in_queue-Triple env policy (late ∷ rounds) = leave_queue-Triple env _
wait_in_queue-Triple env policy (interrupted ∷ rounds) = record {
  run = λ s p. (left_quietly-Triple _).run s p;
}
wait_in_queue-Triple env policy (polled reply ∷ rounds) =
    after_poll-Triple env _ _ (wait_in_queue-Triple env policy rounds)

acquire_model_pool-Triple :
    (env : Environment) (model_id : String)
    → Triple (Holds 0 0) (acquire_model_pool env model_id) (λ policy. Holds 1 0) (Holds 0 0)
unfolding acquire_model_pool after_admission
acquire_model_pool-Triple env model_id = bind-Triple (known_pool-Keeps _) (λ policy.
    bind-Triple (enter_pool-Keeps env policy) (λ decision.
      seq-Triple
        (after_status-Triple decision.status _
          (bind-Triple (ask-Keeps env.rounds) (λ rounds. wait_in_queue-Triple env policy rounds)))
        (λ t. pure-Triple policy (λ s p. p))))

release_model_pool-Triple :
    (env : Environment) → Triple (Holds 1 0) (release_model_pool env) (λ t. Holds 0 0) (Holds 0 0)
unfolding release_model_pool Holds count
release_model_pool-Triple env =
    seq-Triple (emit-Triple {Q = λ u. Holds 0 0} pool_released (λ s p. (omega arith, p.1)))
      (λ t. bind-Triple (redis-Keeps _) (λ removed. pure-Keeps tt))

concurrency_acquired-Triple :
    Triple (Holds 1 0) (emit concurrency_acquired) (λ t. Holds 1 1) (Holds 0 0)
unfolding Holds count
concurrency_acquired-Triple = emit-Triple concurrency_acquired (λ s p. (p.0, omega arith))

slot_or_refuse-Triple :
    (env : Environment) (concurrency : ConcurrencyDecision) (allowed : Bool)
    → Triple (Holds 1 0) (slot_or_refuse env concurrency allowed) (λ c. Holds 1 1) (Holds 0 0)
unfolding slot_or_refuse
slot_or_refuse-Triple env concurrency true =
    seq-Triple concurrency_acquired-Triple (λ t. pure-Triple concurrency (λ s p. p))
slot_or_refuse-Triple env concurrency false =
    seq-Triple (release_model_pool-Triple env) (λ t. throw-Triple _ (λ s p. p))

take_concurrency-Triple :
    (env : Environment) (policy : CallerPolicy)
    → Triple (Holds 1 0) (take_concurrency env policy) (λ c. Holds 1 1) (Holds 0 0)
unfolding take_concurrency ask_concurrency
take_concurrency-Triple env policy =
    bind-Triple
      (rescue-Triple (seq-Triple (throw_if-Keeps _ _) (λ t. redis-Keeps _))
        (λ e. seq-Triple (release_model_pool-Triple env) (λ t. throw-Triple e (λ s p. p))))
      (λ concurrency. slot_or_refuse-Triple env concurrency concurrency.allowed)

-- The clean-up's first release is never interrupted.
abbrev pub ReleasesConcurrency : Environment → Type 0
ReleasesConcurrency env = (log : List Effect) → env.is_interrupted release_concurrency log ≡ false

first-Holds :
    (env : Environment)
    → ReleasesConcurrency env
    → Triple
        (Holds 1 1)
        (release_lease concurrency_released
          (env.is_interrupted release_concurrency)
          (λ log. release (env.redis release_concurrency log)))
        (λ b. Holds 1 0)
        (Holds 0 0)
unfolding release_lease Holds count
first-Holds env h = record { run = λ s p. rw (h s.log) (p.0, omega arith) }

second-Holds :
    (env : Environment)
    → Triple
        (Holds 1 0)
        (release_lease pool_released
          (env.is_interrupted release_pool)
          (λ log. release (env.redis release_pool log)))
        (λ b. Holds 0 0)
        (Holds 0 0)
unfolding release_lease Holds count
second-Holds env = record { run = λ s p. state-Ends (Holds 0 0) _ _ (omega arith, p.1) }

-- The clean-up gives both leases back, whatever Redis answers.
released-Holds :
    (env : Environment)
    → ReleasesConcurrency env
    → Triple (Holds 1 1) (release_active_leases env) (λ b. Holds 0 0) (Holds 0 0)
unfolding release_active_leases
released-Holds env h =
    bind-Triple (first-Holds env h)
      (λ concurrency. bind-Triple (second-Holds env) (λ pool. pure-Triple _ (λ s p. p)))

after_release-Ends :
    {A : Type 0} (P : State → Type 0) (r : Result ChatError A) (x : Result ChatError Bool × State)
    → Ends (λ b. P) P x
    → Ends (λ a. P) P (after_release r x)
unfolding after_release
after_release-Ends P r (ok true, s) p = state-Ends P r s p
after_release-Ends P r (ok false, s) p = state-Ends P _ s p
after_release-Ends P r (err e, s) p = p

finally_release-Triple :
    {A : Type 0} (env : Environment) {body : Action A}
    → ReleasesConcurrency env
    → Keeps (Holds 1 1) body
    → Triple (Holds 1 1) (finally_release env body) (λ a. Holds 0 0) (Holds 0 0)
unfolding finally_release
finally_release-Triple env {body} quiet h = record {
  run = λ s p.
      after_release-Ends (Holds 0 0) (body s).0 (release_active_leases env (body s).1)
        ((released-Holds env quiet).run (body s).1 (final-Keeps h s p));
}

-- Whatever the environment answers, and wherever the wait in the queue, a task under the lease or the
-- pool's release at the end is interrupted: unless the request is interrupted in the clean-up's
-- release of the concurrency lease, `execute` asks for a release of the model pool as many times as
-- it was admitted to it, and for a release of the concurrency lease as many times as it acquired it.
pub leases_returned :
    (env : Environment) (request : ChatCompletionRequest) (caller : AuthenticatedCaller)
    (server_request_id request_fingerprint : String) (s : State)
    → ReleasesConcurrency env
    → Holds 0 0 s
    → Holds 0 0 (execute env request caller server_request_id request_fingerprint s).1
unfolding execute claim_nonce_once admitted_policy load_policy admit_rate lease_and_run
leases_returned env request caller server_request_id request_fingerprint s quiet =
    final-Keeps
      (seq-Triple (throw_if-Keeps _ _) (λ t. bind-Triple (ask-Keeps env.clock) (λ started_at.
        seq-Triple (nonce-Keeps (Holds-Closed 0 0) env) (λ t.
          bind-Triple (policy-Keeps env request caller started_at) (λ policy.
            bind-Triple (rate-Keeps (Holds-Closed 0 0) env policy) (λ qps.
              bind-Triple (acquire_model_pool-Triple env request.model) (λ pool.
                bind-Triple (take_concurrency-Triple env policy) (λ concurrency.
                  finally_release-Triple env quiet
                    (run_operation-Keeps (Holds-Closed 1 1) env _ request)))))))))
      s
