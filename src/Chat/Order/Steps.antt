-- ===== src/Chat/Order/Steps.antt =====
-- The steps of a request, each with the call that must be in the log before it and the one that is
-- there after it.
use zangpu.Base.{inr, Bool, true, false, some, Result, ok, err, List, ◌≡◌, refl}
use zangpu.Models.Database.{Database}
use zangpu.Quota.{QuotaError}
use zangpu.Quota.Finalize.{OperationTerminal}
use zangpu.Chat.Errors.{Code, UpstreamError}
use zangpu.Chat.Environment.{Environment, CreditOperationSnapshot}
use zangpu.Chat.Action.{
  Action, State, Effect, LeaseOutcome, emit, under_lease, transact, quota_reserved, credit_reserved,
  operation_terminalized,
}
use zangpu.Chat.Action.Triple.{
  Triple, Ends, Keeps, bind-Triple, seq-Triple, pure-Triple, throw-Triple, emit-Triple,
  under_lease-Triple, widen, weaken, pure-Keeps, ask-Keeps,
}
use zangpu.Chat.Ledger.{Admission, Ending, committed, after_commit, time_since, terminalize, finish}
use zangpu.Chat.Operation.{
  upstream, answered, mark_committed, end_operation, end_refused, credit_or_refuse, value_or_raise,
}
use zangpu.Chat.Order.{needs, IsOrdered, Logged, Ordered, Ready, Ready-logged}

-- A step that logs nothing.
pub quiet :
    {A : Type 0} (e : Effect) {m : Action A}
    → Keeps (Ready e) m
    → Triple (Ready e) m (λ a. Ready e) Ordered
quiet e h = widen (λ s p. p.1) h

pub logged : (e d : Effect) → needs e ≡ some d → Triple (Ready d) (emit e) (λ t. Ready e) Ordered
logged e d h = emit-Triple e (λ s p. Ready-logged e d h s p)

pub leased :
    {A : Type 0} (e d : Effect) {m : Action A} (outcome : List Effect → LeaseOutcome)
    → Triple (Ready d) m (λ a. Ready e) Ordered
    → Triple (Ready d) (under_lease outcome m) (λ a. Ready e) Ordered
leased e d outcome h = under_lease-Triple outcome (λ s p. p.1) (λ a s q. q.1) h

after_commit-Ready :
    {A : Type 0} (e d : Effect) (r : Result QuotaError A)
    → needs e ≡ some d
    → Triple (Ready d) (after_commit e r) (λ t. Ready e) Ordered
unfolding after_commit
after_commit-Ready e d (ok a) h = logged e d h
after_commit-Ready e d (err x) h = throw-Triple _ (λ s p. p.1)

pub committed-Ready :
    {A : Type 0} (env : Environment) (e d : Effect)
    (body : Database → Result QuotaError (A × Database))
    → needs e ≡ some d
    → Triple (Ready d) (committed env e body) (λ t. Ready e) Ordered
unfolding committed transact
committed-Ready env e d body h =
    bind-Triple {Q = λ r. Ready d} (record { run = λ s p. p }) (λ r. after_commit-Ready e d r h)

pub time_since-Ready :
    (env : Environment) (x : Admission) (e : Effect)
    → Triple (Ready e) (time_since env x) (λ n. Ready e) Ordered
unfolding time_since
time_since-Ready env x e = quiet e (bind-Triple (ask-Keeps env.clock) (λ now. pure-Keeps _))

finish-Ready :
    (env : Environment) (x : Admission) (r : Result QuotaError OperationTerminal)
    → Triple (Ready quota_reserved) (finish env x r) (λ t. Ready operation_terminalized) Ordered
unfolding finish needs
finish-Ready env x (ok t) = committed-Ready env operation_terminalized quota_reserved _ refl
finish-Ready env x (err e) = throw-Triple _ (λ s p. p.1)

terminalize-Ready :
    (env : Environment) (x : Admission) (ending : Ending)
    → Triple
        (Ready quota_reserved)
        (terminalize env x ending)
        (λ t. Ready operation_terminalized)
        Ordered
unfolding terminalize
terminalize-Ready env x ending = bind-Triple (time_since-Ready env x quota_reserved) (λ now.
    bind-Triple (quiet quota_reserved (ask-Keeps env.elapsed_ms))
      (λ duration. finish-Ready env x _))

pub end_operation-Ready :
    (env : Environment) (x : Admission) (ending : Ending)
    → Triple
        (Ready quota_reserved)
        (end_operation env x ending)
        (λ t. Ready operation_terminalized)
        Ordered
unfolding end_operation mark_committed
end_operation-Ready env x ending =
    seq-Triple
      (leased operation_terminalized quota_reserved env.lease (terminalize-Ready env x ending))
      (λ t. record { run = λ s p. p })

-- After a call that may have failed.
abbrev pub Answered : {A : Type 0} → Effect → Effect → Result UpstreamError A → State → Type 0
Answered e d (ok a) s = Ready e s
Answered e d (err x) s = Ready d s

upstream-Ready :
    {A : Type 0} (e d : Effect) (answer : List Effect → Result UpstreamError A)
    → needs e ≡ some d
    → Triple (Ready d) (upstream answer e) (λ r. Answered e d r) Ordered
unfolding upstream answered needs IsOrdered Logged
upstream-Ready {A} e d answer h = record { run = λ s p. go s (answer s.log) p }
  where
    go :
        (s : State) (r : Result UpstreamError A)
        → Ready d s
        → Ends (λ r. Answered e d r) Ordered (answered e r s)
    go s (ok a) p = Ready-logged e d h s p
    go s (err x) p = (inr p.0, (tt, p.1))

Answered-Ordered :
    {A : Type 0} (e d : Effect) (r : Result UpstreamError A) (s : State)
    → Answered e d r s
    → Ordered s
Answered-Ordered e d (ok a) s p = p.1
Answered-Ordered e d (err x) s p = p.1

pub called :
    {A : Type 0} (env : Environment) (e d : Effect) (answer : List Effect → Result UpstreamError A)
    → needs e ≡ some d
    → Triple (Ready d) (under_lease env.lease (upstream answer e)) (λ r. Answered e d r) Ordered
called env e d answer h =
    under_lease-Triple env.lease (λ s p. p.1) (λ r s q. Answered-Ordered e d r s q)
      (upstream-Ready e d answer h)

pub value_or_raise-Ready :
    {A : Type 0} (e d : Effect) (x : Admission) (code_of : UpstreamError → Code)
    (r : Result UpstreamError A)
    → Triple (Answered e d r) (value_or_raise x code_of r) (λ a. Ready e) Ordered
unfolding value_or_raise
value_or_raise-Ready e d x code_of (ok a) = pure-Triple a (λ s p. p)
value_or_raise-Ready e d x code_of (err u) = throw-Triple _ (λ s p. p.1)

end_refused-Ready :
    (env : Environment) (x : Admission) (code : Code) (b : Bool)
    → Triple (Ready quota_reserved) (end_refused env x code b) (λ t. Ordered) Ordered
unfolding end_refused
end_refused-Ready env x code false = pure-Triple tt (λ s p. p.1)
end_refused-Ready env x code true = weaken (end_operation-Ready env x _) (λ t s p. p.1)

pub credit_or_refuse-Ready :
    (env : Environment) (x : Admission) (r : Result UpstreamError CreditOperationSnapshot)
    → Triple
        (Answered credit_reserved quota_reserved r)
        (credit_or_refuse env x r)
        (λ c. Ready credit_reserved)
        Ordered
unfolding credit_or_refuse
credit_or_refuse-Ready env x (ok credit) = pure-Triple credit (λ s p. p)
credit_or_refuse-Ready env x (err e) =
    seq-Triple (end_refused-Ready env x _ _) (λ t. throw-Triple _ (λ s p. p))
