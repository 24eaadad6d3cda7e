-- ===== src/Chat/Action.antt =====
-- The setting in which a request to backend/app/services/chat.py runs: the log of the calls that it
-- has made, the ledger, and an environment that answers each call as it likes, given the log so far.
pub mod Triple
use zangpu.Base.{String, Bool, true, false, Option, List, ◌∷◌, Result, ok, err}
use zangpu.Models.Database.{Database}
use zangpu.Quota.{QuotaError}
use zangpu.Quota.Transaction.{transaction}
use zangpu.Quota.Lifecycle.{Call, perform_all}
use zangpu.Limits.Replies.{Reply}
use zangpu.Chat.Errors.{Code}

-- The calls that the service makes. A release is logged when it is asked for, a call of Open WebUI or
-- Bifrost also when it fails, any other call when its answer says that it took effect.
pub data Effect : Type 0 where
  nonce_claimed qps_admitted : Effect
  pool_admitted pool_queued pool_cancelled pool_released : Effect
  concurrency_acquired concurrency_released : Effect
  quota_reserved credit_reserved credit_recorded provider_called usage_recorded : Effect
  credit_settled credit_cancelled upstream_failed operation_terminalized : Effect

-- How awaiting a task under `_ConcurrencyLeaseGuard.run` ends: with the task's own result, with a
-- failed heartbeat, or with the cancellation of the request. In the last two the flag says whether
-- the task had taken effect.
pub data LeaseOutcome : Type 0 where
  completes : LeaseOutcome
  lost interrupted : Bool → LeaseOutcome

-- ExternalApiError with its operation ID, ControlPlaneUnavailable, CancelledError, and every other
-- exception. The headers of an ExternalApiError are left out.
pub data ChatError : Type 0 where
  api_error : Code → Option String → ChatError
  unavailable cancelled internal : ChatError

pub record State : Type 0 where
  pub log : List Effect
  pub ledger : Database
  pub terminal_committed : Bool

abbrev pub Action : Type 0 → Type 0
Action A = State → Result ChatError A × State

infixl 5 ◌>>=◌ ◌>>◌
unfoldable pub then_do :
    {A B : Type 0} → Result ChatError A × State → (A → Action B) → Result ChatError B × State
then_do (ok a, s) f = f a s
then_do (err e, s) f = (err e, s)

unfoldable pub ◌>>=◌ : {A B : Type 0} → Action A → (A → Action B) → Action B
unfolding then_do
◌>>=◌ m f s = then_do (m s) f

unfoldable pub ◌>>◌ : {A B : Type 0} → Action A → Action B → Action B
m >> k = m >>= λ a. k

-- `except`
unfoldable pub rescued :
    {A : Type 0} → Result ChatError A × State → (ChatError → Action A) → Result ChatError A × State
rescued (ok a, s) handler = (ok a, s)
rescued (err e, s) handler = handler e s

unfoldable pub rescue : {A : Type 0} → Action A → (ChatError → Action A) → Action A
unfolding rescued
rescue m handler s = rescued (m s) handler

abbrev pub pure : {A : Type 0} → A → Action A
pure a s = (ok a, s)

abbrev pub throw : {A : Type 0} → ChatError → Action A
throw e s = (err e, s)

abbrev pub throw_if : Bool → ChatError → Action (Unit {0})
throw_if true e = throw e
throw_if false e = pure tt

abbrev pub emit : Effect → Action (Unit {0})
emit effect s = (ok tt, record s { log = effect ∷ s.log })

-- The environment's answer, given the log.
abbrev pub ask : {A : Type 0} → (List Effect → A) → Action A
ask answer s = (ok (answer s.log), s)

-- A read of the ledger in a session of its own, after the transactions of others.
abbrev pub query : {A : Type 0} → (List Effect → List Call) → (Database → A) → Action A
query others f s = (ok (f (perform_all (others s.log) s.ledger)), s)

-- A reply of Redis, after the limiter has read it.
abbrev pub read_reply : {A : Type 0} → Reply A → Action A
read_reply (ok a) = pure a
read_reply (err e) = throw unavailable

abbrev pub redis : {A : Type 0} → (List Effect → Reply A) → Action A
redis answer s = read_reply (answer s.log) s

-- A ledger transaction. Other requests and workers run theirs before it.
unfoldable pub transact :
    {A : Type 0}
    → (List Effect → List Call)
    → (Database → Result QuotaError (A × Database))
    → Action (Result QuotaError A)
transact others body s =
    let (r, db) = transaction body (perform_all (others s.log) s.ledger) in
    (ok r, record s { ledger = db })

-- `lease.run(task)`: a task that is lost or interrupted raises in place of its result.
unfoldable pub run_leased : {A : Type 0} → LeaseOutcome → Action A → Action A
run_leased completes task s = task s
run_leased (lost true) task s = (err unavailable, (task s).1)
run_leased (lost false) task s = (err unavailable, s)
run_leased (interrupted true) task s = (err cancelled, (task s).1)
run_leased (interrupted false) task s = (err cancelled, s)

unfoldable pub under_lease : {A : Type 0} → (List Effect → LeaseOutcome) → Action A → Action A
unfolding run_leased
under_lease outcome task s = run_leased (outcome s.log) task s
