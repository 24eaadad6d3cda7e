-- ===== src/Chat/Order/Requests.antt =====
-- The order of the calls of `execute`.
use zangpu.Base.{inl, Bool, true, false, Result, ok, err, List, [], ◌∷◌, refl, String}
use zangpu.Limits.Replies.{Reply}
use zangpu.Limits.ModelPool.{ModelPoolStatus, ModelPoolDecision}
use zangpu.Limits.Windows.{ConcurrencyDecision}
use zangpu.Chat.Payload.{ChatCompletionRequest}
use zangpu.Chat.Callers.{AuthenticatedCaller, CallerPolicy}
use zangpu.Chat.Environment.{Environment, ModelPoolPolicy, PollRound, late, interrupted, polled}
use zangpu.Chat.Action.{
  Action, State, Effect, ChatError, emit, nonce_claimed, qps_admitted, pool_admitted, pool_queued,
  pool_cancelled, pool_released, concurrency_acquired, concurrency_released,
}
use zangpu.Chat.Action.Triple.{
  Triple, Keeps, bind-Triple, seq-Triple, state-Ends, pure-Triple, throw-Triple, emit-Triple,
  rescue-Triple, widen, from, weaken, pure-Keeps, throw_if-Keeps, ask-Keeps, redis-Keeps,
  final-Keeps, Ends-state, either_way,
}
use zangpu.Chat.Pool.{
  leave_queue, left_quietly, leave_queue_quietly, after_status, after_poll, wait_in_queue,
  after_admission, acquire_model_pool,
}
use zangpu.Chat.Execute.{
  release_lease, release_active_leases, after_release, finally_release, release_model_pool,
  ask_concurrency, slot_or_refuse, take_concurrency, claim_nonce_once, admit_rate, lease_and_run,
  execute,
}
use zangpu.Chat.Entry.{enter_pool-Keeps, known_pool-Keeps, policy-Keeps}
use zangpu.Chat.Order.{needs, Logged, IsOrdered, Ordered, Ready, Ready-needs}
use zangpu.Chat.Order.Steps.{quiet, logged}
use zangpu.Chat.Order.Operation.{run_operation-Ready}

cancelled-Ready : Triple (Ready pool_queued) (emit pool_cancelled) (λ t. Ordered) Ordered
unfolding needs
cancelled-Ready = weaken (logged pool_cancelled pool_queued refl) (λ t s p. p.1)

leave_queue-Ready :
    (env : Environment) (e : ChatError)
    → Triple (Ready pool_queued) (leave_queue env e) (λ t. Ready pool_admitted) Ordered
unfolding leave_queue
leave_queue-Ready env e =
    seq-Triple (quiet pool_queued (bind-Triple (redis-Keeps _) (λ removed. pure-Keeps tt)))
      (λ t. seq-Triple cancelled-Ready (λ t. throw-Triple e (λ s p. p)))

left_quietly-Ready :
    (r : Reply Bool)
    → Triple (Ready pool_queued) (left_quietly r) (λ t. Ready pool_admitted) Ordered
unfolding left_quietly
left_quietly-Ready (ok removed) = seq-Triple cancelled-Ready (λ t. throw-Triple _ (λ s p. p))
left_quietly-Ready (err e) = throw-Triple _ (λ s p. p.1)

after_status-Ready :
    (status : ModelPoolStatus) (again : Action (Unit {0}))
    → Triple (Ready pool_queued) again (λ t. Ready pool_admitted) Ordered
    → Triple (Ready qps_admitted) (after_status status again) (λ t. Ready pool_admitted) Ordered
unfolding after_status needs
after_status-Ready ModelPoolStatus.admitted again h = logged pool_admitted qps_admitted refl
after_status-Ready ModelPoolStatus.queued again h =
    seq-Triple (logged pool_queued qps_admitted refl) (λ t. h)
after_status-Ready ModelPoolStatus.caller_queue_full again h = throw-Triple _ (λ s p. p.1)
after_status-Ready ModelPoolStatus.queue_full again h = throw-Triple _ (λ s p. p.1)

after_poll-Ready :
    (env : Environment) (r : Reply ModelPoolDecision) (again : Action (Unit {0}))
    → Triple (Ready pool_queued) again (λ t. Ready pool_admitted) Ordered
    → Triple (Ready pool_queued) (after_poll env r again) (λ t. Ready pool_admitted) Ordered
unfolding after_poll needs
after_poll-Ready env (ok decision) again h =
    from (λ s p. Ready-needs pool_queued qps_admitted refl s p)
      (after_status-Ready decision.status again h)
after_poll-Ready env (err e) again h = leave_queue-Ready env _

wait_in_queue-Ready :
    (env : Environment) (policy : ModelPoolPolicy) (rounds : List PollRound)
    → Triple
        (Ready pool_queued)
        (wait_in_queue env policy rounds)
        (λ t. Ready pool_admitted)
        Ordered
unfolding wait_in_queue leave_queue_quietly
wait_in_queue-Ready env policy [] = leave_queue-Ready env _
wait_in_queue-Ready env policy (late ∷ rounds) = leave_queue-Ready env _
wait_in_queue-Ready env policy (interrupted ∷ rounds) = record {
  run = λ s p. (left_quietly-Ready _).run s p;
}
wait_in_queue-Ready env policy (polled reply ∷ rounds) =
    after_poll-Ready env _ _ (wait_in_queue-Ready env policy rounds)

acquire_model_pool-Ready :
    (env : Environment) (model_id : String)
    → Triple
        (Ready qps_admitted)
        (acquire_model_pool env model_id)
        (λ p. Ready pool_admitted)
        Ordered
unfolding acquire_model_pool after_admission
acquire_model_pool-Ready env model_id =
    bind-Triple (quiet qps_admitted (known_pool-Keeps _)) (λ policy.
      bind-Triple (quiet qps_admitted (enter_pool-Keeps env policy)) (λ decision.
        seq-Triple
          (after_status-Ready decision.status _ (
            bind-Triple (quiet pool_queued (ask-Keeps env.rounds))
              (λ rounds. wait_in_queue-Ready env policy rounds)))
          (λ t. quiet pool_admitted (pure-Keeps policy))))

release_model_pool-Ordered : (env : Environment) → Keeps Ordered (release_model_pool env)
unfolding release_model_pool needs IsOrdered
release_model_pool-Ordered env =
    seq-Triple (emit-Triple {Q = λ u. Ordered} pool_released (λ s p. (tt, p)))
      (λ t. bind-Triple (redis-Keeps _) (λ removed. pure-Keeps tt))

slot_or_refuse-Ready :
    (env : Environment) (concurrency : ConcurrencyDecision) (allowed : Bool)
    → Triple
        (Ready pool_admitted)
        (slot_or_refuse env concurrency allowed)
        (λ c. Ready concurrency_acquired)
        Ordered
unfolding slot_or_refuse needs
slot_or_refuse-Ready env concurrency true =
    seq-Triple (logged concurrency_acquired pool_admitted refl)
      (λ t. quiet concurrency_acquired (pure-Keeps concurrency))
slot_or_refuse-Ready env concurrency false =
    from (λ s p. p.1) (seq-Triple (release_model_pool-Ordered env) (λ t. throw-Triple _ (λ s p. p)))

take_concurrency-Ready :
    (env : Environment) (policy : CallerPolicy)
    → Triple
        (Ready pool_admitted)
        (take_concurrency env policy)
        (λ c. Ready concurrency_acquired)
        Ordered
unfolding take_concurrency ask_concurrency
take_concurrency-Ready env policy =
    bind-Triple
      (rescue-Triple (quiet pool_admitted (seq-Triple (throw_if-Keeps _ _) (λ t. redis-Keeps _)))
        (λ e. seq-Triple (release_model_pool-Ordered env) (λ t. throw-Triple e (λ s p. p))))
      (λ concurrency. slot_or_refuse-Ready env concurrency concurrency.allowed)

after_release-Ordered :
    {A : Type 0} (r : Result ChatError A) (x : Result ChatError Bool × State)
    → Ordered x.1
    → Ordered (after_release r x).1
unfolding after_release
after_release-Ordered r (ok true, s) p = p
after_release-Ordered r (ok false, s) p = p
after_release-Ordered r (err e, s) p = p

-- A release needs nothing before it.
release_lease-Ordered :
    (effect : Effect) (stops : List Effect → Bool) (answer : List Effect → Reply Bool)
    → ((log : List Effect) → IsOrdered log → IsOrdered (effect ∷ log))
    → Keeps Ordered (release_lease effect stops answer)
unfolding release_lease
release_lease-Ordered effect stops answer h = record {
  run = λ s p. state-Ends Ordered _ _ (h s.log p);
}

released-Ordered : (env : Environment) → Keeps Ordered (release_active_leases env)
unfolding release_active_leases needs IsOrdered
released-Ordered env =
    bind-Triple (release_lease-Ordered concurrency_released _ _ (λ log p. (tt, p))) (λ concurrency.
      bind-Triple (release_lease-Ordered pool_released _ _ (λ log p. (tt, p)))
        (λ pool. pure-Triple _ (λ s p. p)))

finally_release-Ordered :
    {A : Type 0} (env : Environment) {body : Action A}
    → Triple (Ready concurrency_acquired) body (λ a. Ordered) Ordered
    → (s : State) → Ready concurrency_acquired s
    → Ordered (finally_release env body s).1
unfolding finally_release
finally_release-Ordered env {body} h s p =
    after_release-Ordered (body s).0 (release_active_leases env (body s).1)
      (final-Keeps (released-Ordered env) (body s).1 (Ends-state Ordered (body s) (h.run s p)))

nonce-Ready :
    (env : Environment) → Triple Ordered (claim_nonce_once env) (λ t. Ready nonce_claimed) Ordered
unfolding claim_nonce_once needs IsOrdered Logged
nonce-Ready env = bind-Triple (redis-Keeps _) (λ claimed.
    seq-Triple (throw_if-Keeps _ _) (λ t. emit-Triple nonce_claimed (λ s p. (inl refl, (tt, p)))))

rate-Ready :
    (env : Environment) (policy : CallerPolicy)
    → Triple (Ready nonce_claimed) (admit_rate env policy) (λ q. Ready qps_admitted) Ordered
unfolding admit_rate needs
rate-Ready env policy = seq-Triple (quiet nonce_claimed (throw_if-Keeps _ _)) (λ t.
    bind-Triple (quiet nonce_claimed (redis-Keeps _)) (λ qps.
      seq-Triple (quiet nonce_claimed (throw_if-Keeps _ _)) (λ t.
        seq-Triple (logged qps_admitted nonce_claimed refl)
          (λ t. quiet qps_admitted (pure-Keeps qps)))))

-- Whatever the environment answers, and wherever the request is interrupted, each call in the log of
-- `execute` stands after the call that it needs: in particular the provider is called only after
-- the credit was recorded in the ledger, the credit reserved after the quota, the quota after both
-- leases, and the operation is ended only after its quota was reserved.
pub calls_in_order :
    (env : Environment) (request : ChatCompletionRequest) (caller : AuthenticatedCaller)
    (server_request_id request_fingerprint : String) (s : State)
    → IsOrdered s.log
    → IsOrdered (execute env request caller server_request_id request_fingerprint s).1.log
unfolding execute lease_and_run
calls_in_order env request caller server_request_id request_fingerprint s p =
    final-Keeps {P = Ordered}
      (seq-Triple (throw_if-Keeps _ _) (λ t. bind-Triple (ask-Keeps env.clock) (λ started_at.
        seq-Triple (nonce-Ready env) (λ t.
          bind-Triple (widen (λ s p. p.1) (policy-Keeps env request caller started_at)) (λ policy.
            bind-Triple (rate-Ready env policy) (λ qps.
              bind-Triple (acquire_model_pool-Ready env request.model) (λ pool.
                bind-Triple (take_concurrency-Ready env policy) (λ concurrency.
                  either_way
                    (finally_release-Ordered env (run_operation-Ready env _ request))))))))))
      s p
