-- ===== src/Chat/Success.antt =====
-- What a request to backend/app/services/chat.py that succeeds has left in the ledger.
use zangpu.Base.{ℕ, String, Bool, true, false, List, ◌∷◌, some, Result, ok, err, ◌≡◌, refl, arith}
use zangpu.Models.{OperationStatus, ApiCallOperation}
use zangpu.Models.Database.{Database, find_operation}
use zangpu.Quota.{QuotaError}
use zangpu.Quota.Transaction.{transaction, commit_or_roll_back}
use zangpu.Quota.Lifecycle.{perform_all}
use zangpu.Quota.Finalize.{OperationTerminal, check_terminal}
use zangpu.Quota.Outcome.{HasEnded, finalize-HasEnded}
use zangpu.Limits.Replies.{Reply}
use zangpu.Chat.Payload.{ChatCompletionRequest}
use zangpu.Chat.Callers.{AuthenticatedCaller}
use zangpu.Chat.Environment.{Environment, TokenUsage}
use zangpu.Chat.Action.{Action, State, Effect, ChatError, transact}
use zangpu.Chat.Action.Triple.{
  Triple, Keeps, Ends, state-Ends, final-Keeps, bind-Triple, seq-Triple, pure-Triple, emit-Triple,
  weaken, under_lease-Triple, throw-Triple,
}
use zangpu.Chat.Ledger.{Admission, committed, after_commit, finish, terminalize, terminal_of}
use zangpu.Chat.Operation.{run_operation, end_operation, mark_committed, completed_ending}
use zangpu.Chat.Execute.{
  release_active_leases, release_lease, after_release, unclean, finally_release, execute,
  lease_and_run,
}

abbrev pub Anything : State → Type 0
Anything s = Unit

any-Triple : {A : Type 0} (m : Action A) → Triple Anything m (λ a s. Unit) Anything
any-Triple {A = A} m = record { run = λ s p. go (m s) }
  where
    go : (x : Result ChatError A × State) → Ends (λ a s. Unit) Anything x
    go (ok a, s) = tt
    go (err e, s) = tt

-- The operation has ended as completed, with the status code 200 and the code "OK".
pub record IsCompleted (operation_id : String) (s : State) : Type 0 where
  pub operation : ApiCallOperation
  pub found : find_operation operation_id s.ledger ≡ some operation
  pub status : operation.status ≡ OperationStatus.completed
  pub http_status : operation.terminal_http_status ≡ some 200
  pub code : operation.terminal_code ≡ some "OK"

commit-ok :
    {A : Type 0} (r : Result QuotaError (A × Database)) (db : Database) (a : A)
    → (commit_or_roll_back r db).0 ≡ ok a
    → r ≡ ok (a, (commit_or_roll_back r db).1)
unfolding commit_or_roll_back
commit-ok (ok (b, db')) db a h = let same : b ≡ a = cc in rw (← same) refl
commit-ok (err e) db a h = cc

-- What holds of the ledger when a transaction has returned.
abbrev Returned : {A : Type 0} → (Database → Type 0) → Result QuotaError A → State → Type 0
Returned {A} Q r s = (a : A) → r ≡ ok a → Q s.ledger

after_commit-Triple :
    {A : Type 0} (Q : Database → Type 0) (effect : Effect) (r : Result QuotaError A)
    → Triple (Returned Q r) (after_commit effect r) (λ t s. Q s.ledger) Anything
unfolding after_commit
after_commit-Triple Q effect (ok a) = emit-Triple effect (λ s q. q a refl)
after_commit-Triple Q effect (err e) = throw-Triple _ (λ s q. tt)

-- A ledger call that ends with a value has done what its body does.
committed-Triple :
    {A : Type 0} (env : Environment) (effect : Effect)
    (body : Database → Result QuotaError (A × Database)) (Q : Database → Type 0)
    → ((db : Database) (x : A × Database) → body db ≡ ok x → Q x.1)
    → Triple Anything (committed env effect body) (λ t s. Q s.ledger) Anything
unfolding committed transact transaction
committed-Triple env effect body Q h =
    bind-Triple {Q = λ r s. Returned Q r s}
      (record {
        run = λ s p a e.
            let db = perform_all (env.others s.log) s.ledger in
            h db (a, _) (commit-ok (body db) db a e);
      })
      (λ r. after_commit-Triple Q effect r)

finish-Triple :
    (env : Environment) (x : Admission) (r : Result QuotaError OperationTerminal)
    (terminal : OperationTerminal)
    → ((t : OperationTerminal) → r ≡ ok t → t ≡ terminal)
    → Triple Anything (finish env x r) (λ u s. HasEnded x.operation_id terminal s.ledger) Anything
unfolding finish
finish-Triple env x (ok t) terminal h =
    committed-Triple env _ _ (λ db. HasEnded x.operation_id terminal db)
      (λ db y e. rw (← h t refl) (finalize-HasEnded env.new_event_id x.operation_id t db y e))
finish-Triple env x (err e) terminal h = throw-Triple _ (λ s p. tt)

check_terminal-same :
    (terminal t : OperationTerminal) → check_terminal terminal ≡ ok t → t ≡ terminal
unfolding check_terminal
check_terminal-same terminal t h = ground arith

ending-IsCompleted :
    (x : Admission) (charged completed_at duration : ℕ) (s : State)
    → HasEnded x.operation_id
        (terminal_of x (completed_ending charged) completed_at duration)
        s.ledger
    → IsCompleted x.operation_id s
unfolding terminal_of
ending-IsCompleted x charged completed_at duration s e = record {
  operation = e.operation;
  found = e.found;
  status = e.status;
  http_status = e.http_status;
  code = e.code;
}

terminalize-Triple :
    (env : Environment) (x : Admission) (charged : ℕ)
    → Triple Anything
        (terminalize env x (completed_ending charged))
        (λ u s. IsCompleted x.operation_id s)
        Anything
unfolding terminalize
terminalize-Triple env x charged = bind-Triple (any-Triple _) (λ completed_at.
    bind-Triple (any-Triple _) (λ duration.
      weaken
        (finish-Triple env x _ (terminal_of x (completed_ending charged) completed_at duration)
          (λ t e. check_terminal-same _ t e))
        (λ u s e. ending-IsCompleted x charged completed_at duration s e)))

end_operation-Triple :
    (env : Environment) (x : Admission) (charged : ℕ)
    → Triple Anything
        (end_operation env x (completed_ending charged))
        (λ u s. IsCompleted x.operation_id s)
        Anything
unfolding end_operation mark_committed
end_operation-Triple env x charged =
    seq-Triple
      (under_lease-Triple env.lease (λ s p. tt) (λ u s q. tt) (terminalize-Triple env x charged))
      (λ u. record {
        run = λ s c. record {
          operation = c.operation;
          found = c.found;
          status = c.status;
          http_status = c.http_status;
          code = c.code;
        };
      })

run_operation-Triple :
    (env : Environment) (x : Admission) (request : ChatCompletionRequest)
    → Triple Anything
        (run_operation env x request)
        (λ usage s. IsCompleted x.operation_id s)
        Anything
unfolding run_operation
run_operation-Triple env x request = bind-Triple (any-Triple _) (λ n.
    seq-Triple (any-Triple _) (λ t. bind-Triple (any-Triple _) (λ settlement_id.
      bind-Triple (any-Triple _) (λ usage. seq-Triple (any-Triple _) (λ t.
        bind-Triple (any-Triple _) (λ charged.
          seq-Triple (end_operation-Triple env x charged) (λ t. pure-Triple usage (λ s c. c))))))))

logged-IsCompleted :
    (i : String) (effect : Effect) (s : State)
    → IsCompleted i s
    → IsCompleted i (record s { log = effect ∷ s.log })
logged-IsCompleted i effect s c = record {
  operation = c.operation;
  found = c.found;
  status = c.status;
  http_status = c.http_status;
  code = c.code;
}

release_lease-IsCompleted :
    (i : String) (effect : Effect) (interrupted : List Effect → Bool)
    (answer : List Effect → Reply Bool)
    → Keeps (IsCompleted i) (release_lease effect interrupted answer)
unfolding release_lease
release_lease-IsCompleted i effect interrupted answer = record {
  run = λ s c. state-Ends (IsCompleted i) _ _ (logged-IsCompleted i effect s c);
}

release-IsCompleted :
    (env : Environment) (i : String) → Keeps (IsCompleted i) (release_active_leases env)
unfolding release_active_leases
release-IsCompleted env i = bind-Triple (release_lease-IsCompleted i _ _ _) (λ concurrency.
    bind-Triple (release_lease-IsCompleted i _ _ _) (λ pool. pure-Triple _ (λ s c. c)))

-- The clean-up gives a value only where the body did.
unclean-Ends :
    {A : Type 0} (i : String) (r : Result ChatError A) (b : Bool) (s : State)
    → Ends (λ a. IsCompleted i) Anything (r, s)
    → Ends (λ a. IsCompleted i) Anything (unclean r b, s)
unfolding unclean
unclean-Ends i r true s e = e
unclean-Ends i r false s e = tt

after_release-Ends :
    {A : Type 0} (i : String) (r : Result ChatError A) (x : Result ChatError Bool × State)
    → Ends (λ a. IsCompleted i) Anything (r, x.1)
    → Ends (λ a. IsCompleted i) Anything (after_release r x)
unfolding after_release
after_release-Ends i r (ok true, s) e = e
after_release-Ends i r (ok false, s) e = unclean-Ends i r s.terminal_committed s e
after_release-Ends i r (err e, s) f = tt

released-Ends :
    {A : Type 0} (env : Environment) (i : String) (r : Result ChatError A) (s : State)
    → Ends (λ a. IsCompleted i) Anything (r, s)
    → Ends (λ a. IsCompleted i) Anything (r, (release_active_leases env s).1)
released-Ends env i (ok a) s c = final-Keeps (release-IsCompleted env i) s c
released-Ends env i (err e) s c = tt

finally_release-Triple :
    {A : Type 0} (env : Environment) (i : String) {body : Action A}
    → Triple Anything body (λ a. IsCompleted i) Anything
    → Triple Anything (finally_release env body) (λ a. IsCompleted i) Anything
unfolding finally_release
finally_release-Triple env i {body} h = record {
  run = λ s p.
      after_release-Ends i (body s).0 (release_active_leases env (body s).1)
        (released-Ends env i (body s).0 (body s).1 (h.run s p));
}

execute-Triple :
    (env : Environment) (request : ChatCompletionRequest) (caller : AuthenticatedCaller)
    (server_request_id request_fingerprint : String)
    → Triple Anything
        (execute env request caller server_request_id request_fingerprint)
        (λ usage. IsCompleted env.new_operation_id)
        Anything
unfolding execute lease_and_run
execute-Triple env request caller server_request_id request_fingerprint =
    seq-Triple (any-Triple _) (λ t. bind-Triple (any-Triple _) (λ started_at.
      seq-Triple (any-Triple _) (λ t. bind-Triple (any-Triple _) (λ policy.
        bind-Triple (any-Triple _) (λ qps. bind-Triple (any-Triple _) (λ pool.
          bind-Triple (any-Triple _) (λ concurrency.
            finally_release-Triple env env.new_operation_id
              (run_operation-Triple env _ request))))))))

-- When `execute` returns a response, whatever the environment did, the ledger has the request's
-- operation, completed, with the status code 200 and the code "OK".
pub success_is_recorded :
    (env : Environment) (request : ChatCompletionRequest) (caller : AuthenticatedCaller)
    (server_request_id request_fingerprint : String) (s s' : State) (usage : TokenUsage)
    → execute env request caller server_request_id request_fingerprint s ≡ (ok usage, s')
    → IsCompleted env.new_operation_id s'
success_is_recorded env request caller server_request_id request_fingerprint s s' usage e =
    rw e at ((execute-Triple env request caller server_request_id request_fingerprint).run s tt)
