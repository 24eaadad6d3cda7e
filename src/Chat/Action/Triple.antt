-- ===== src/Chat/Action/Triple.antt =====
-- Reasoning about actions: what holds when an action ends with a value and when it raises.
use zangpu.Base.{Bool, true, false, Result, ok, err, List, ◌∷◌}
use zangpu.Limits.Replies.{Reply}
use zangpu.Models.Database.{Database}
use zangpu.Quota.{QuotaError}
use zangpu.Quota.Lifecycle.{Call, perform_all}
use zangpu.Quota.Transaction.{transaction}
use zangpu.Chat.Action.{
  Action, State, Effect, ChatError, LeaseOutcome, completes, lost, interrupted, ◌>>=◌, ◌>>◌, pure,
  throw, throw_if, emit, ask, query, redis, read_reply, under_lease, run_leased, transact, then_do,
  rescue, rescued,
}

-- Q of the value and the state, or R of the state in which the exception is raised.
abbrev pub Ends :
    {A : Type 0} → (A → State → Type 0) → (State → Type 0) → Result ChatError A × State → Type 0
Ends Q R (ok a, s) = Q a s
Ends Q R (err e, s) = R s

-- From a state with P, the action ends with Q or raises with R.
pub record Triple {A : Type 0} (P : State → Type 0) (m : Action A) (Q : A → State → Type 0)
    (R : State → Type 0) : Type 0 where
  pub run : (s : State) → P s → Ends Q R (m s)

abbrev pub Keeps : {A : Type 0} → (State → Type 0) → Action A → Type 0
Keeps P m = Triple P m (λ a. P) P

pub Ends-state :
    {A : Type 0} (P : State → Type 0) (x : Result ChatError A × State) → Ends (λ a. P) P x → P x.1
Ends-state P (ok a, s) p = p
Ends-state P (err e, s) p = p

pub final-Keeps :
    {A : Type 0} {P : State → Type 0} {m : Action A} → Keeps P m → (s : State) → P s → P (m s).1
final-Keeps {P = P} {m = m} h s p = Ends-state P (m s) (h.run s p)

Ends-weaken :
    {A : Type 0} {Q S : A → State → Type 0} (R : State → Type 0) (x : Result ChatError A × State)
    → Ends Q R x
    → ((a : A) (s : State) → Q a s → S a s)
    → Ends S R x
Ends-weaken R (ok a, s) q h = h a s q
Ends-weaken R (err e, s) q h = q

pub weaken :
    {A : Type 0} {P R : State → Type 0} {m : Action A} {Q S : A → State → Type 0}
    → Triple P m Q R
    → ((a : A) (s : State) → Q a s → S a s)
    → Triple P m S R
weaken {R = R} {m = m} hm h = record { run = λ s p. Ends-weaken R (m s) (hm.run s p) h }

Ends-widen :
    {A : Type 0} {P R : State → Type 0} (x : Result ChatError A × State)
    → ((s : State) → P s → R s)
    → Ends (λ a. P) P x
    → Ends (λ a. P) R x
Ends-widen (ok a, s) h p = p
Ends-widen (err e, s) h p = h s p

pub widen :
    {A : Type 0} {P R : State → Type 0} {m : Action A}
    → ((s : State) → P s → R s)
    → Keeps P m
    → Triple P m (λ a. P) R
widen {m = m} h hm = record { run = λ s p. Ends-widen (m s) h (hm.run s p) }

pub from :
    {A : Type 0} {P P' R : State → Type 0} {m : Action A} {Q : A → State → Type 0}
    → ((s : State) → P s → P' s)
    → Triple P' m Q R
    → Triple P m Q R
from h hm = record { run = λ s p. hm.run s (h s p) }

pub state-Ends :
    {A : Type 0} (P : State → Type 0) (r : Result ChatError A) (s : State)
    → P s
    → Ends (λ a. P) P (r, s)
state-Ends P (ok a) s p = p
state-Ends P (err e) s p = p

-- What holds of the last state, however the action ends.
pub either_way :
    {A : Type 0} {P R : State → Type 0} {m : Action A}
    → ((s : State) → P s → R (m s).1)
    → Triple P m (λ a. R) R
either_way {R = R} {m = m} h = record { run = λ s p. state-Ends R (m s).0 (m s).1 (h s p) }

then_do-Ends :
    {A B : Type 0} {Q : A → State → Type 0} {S : B → State → Type 0} {R : State → Type 0}
    (x : Result ChatError A × State) (f : A → Action B)
    → Ends Q R x
    → ((a : A) → Triple (Q a) (f a) S R)
    → Ends S R (then_do x f)
unfolding then_do
then_do-Ends (ok a, s) f q h = (h a).run s q
then_do-Ends (err e, s) f q h = q

rescued-Ends :
    {A : Type 0} {Q : A → State → Type 0} {P R : State → Type 0} (x : Result ChatError A × State)
    (handler : ChatError → Action A)
    → Ends Q P x
    → ((e : ChatError) → Triple P (handler e) Q R)
    → Ends Q R (rescued x handler)
unfolding rescued
rescued-Ends (ok a, s) handler q h = q
rescued-Ends (err e, s) handler q h = (h e).run s q

pub rescue-Triple :
    {A : Type 0} {P P' R : State → Type 0} {Q : A → State → Type 0} {m : Action A}
    {handler : ChatError → Action A}
    → Triple P m Q P'
    → ((e : ChatError) → Triple P' (handler e) Q R)
    → Triple P (rescue m handler) Q R
unfolding rescue
rescue-Triple {m = m} {handler = handler} hm hh = record {
  run = λ s p. rescued-Ends (m s) handler (hm.run s p) hh;
}

module _ {P R : State → Type 0} where
  pub bind-Triple :
      {A B : Type 0} {m : Action A} {f : A → Action B} {Q : A → State → Type 0}
      {S : B → State → Type 0}
      → Triple P m Q R
      → ((a : A) → Triple (Q a) (f a) S R)
      → Triple P (m >>= f) S R
  unfolding ◌>>=◌
  bind-Triple {m = m} {f = f} hm hf = record { run = λ s p. then_do-Ends (m s) f (hm.run s p) hf }

  pub seq-Triple :
      {A B : Type 0} {m : Action A} {k : Action B} {Q : A → State → Type 0} {S : B → State → Type 0}
      → Triple P m Q R
      → ((a : A) → Triple (Q a) k S R)
      → Triple P (m >> k) S R
  unfolding ◌>>◌
  seq-Triple hm hk = bind-Triple hm hk

  pub pure-Triple :
      {A : Type 0} {Q : A → State → Type 0} (a : A)
      → ((s : State) → P s → Q a s)
      → Triple P (pure a) Q R
  pure-Triple a h = record { run = h }

  pub throw-Triple :
      {A : Type 0} {Q : A → State → Type 0} (e : ChatError)
      → ((s : State) → P s → R s)
      → Triple P (throw e) Q R
  throw-Triple e h = record { run = h }

  pub emit-Triple :
      {Q : Unit {0} → State → Type 0} (effect : Effect)
      → ((s : State) → P s → Q tt (record s { log = effect ∷ s.log }))
      → Triple P (emit effect) Q R
  emit-Triple effect h = record { run = h }

  pub redis-Triple :
      {A : Type 0} (answer : List Effect → Reply A)
      → ((s : State) → P s → R s)
      → Triple P (redis answer) (λ a. P) R
  redis-Triple answer h = record { run = λ s p. go s (answer s.log) p }
    where
      go : {B : Type 0} (s : State) (r : Reply B) → P s → Ends (λ b. P) R (read_reply r s)
      go s (ok b) p = p
      go s (err e) p = h s p

  pub under_lease-Triple :
      {A : Type 0} {m : Action A} {Q : A → State → Type 0} (outcome : List Effect → LeaseOutcome)
      → ((s : State) → P s → R s)
      → ((a : A) (s : State) → Q a s → R s)
      → Triple P m Q R
      → Triple P (under_lease outcome m) Q R
  unfolding under_lease run_leased
  under_lease-Triple {m = m} {Q = Q} outcome hp hq hm = record {
    run = λ s p. go s (outcome s.log) p;
  }
    where
      dropped : (x : Result ChatError _ × State) → Ends Q R x → R x.1
      dropped (ok a, s) q = hq a s q
      dropped (err e, s) q = q

      go : (s : State) (outcome : LeaseOutcome) → P s → Ends Q R (run_leased outcome m s)
      go s completes p = hm.run s p
      go s (lost true) p = dropped (m s) (hm.run s p)
      go s (lost false) p = hp s p
      go s (interrupted true) p = dropped (m s) (hm.run s p)
      go s (interrupted false) p = hp s p

-- The steps that keep any predicate.
module _ {P : State → Type 0} where
  pub pure-Keeps : {A : Type 0} (a : A) → Keeps P (pure a)
  pure-Keeps a = record { run = λ s p. p }

  pub throw-Keeps : {A : Type 0} (e : ChatError) → Triple P (throw e) (λ (a : A). P) P
  throw-Keeps e = record { run = λ s p. p }

  pub throw_if-Keeps : (b : Bool) (e : ChatError) → Keeps P (throw_if b e)
  throw_if-Keeps true e = record { run = λ s p. p }
  throw_if-Keeps false e = record { run = λ s p. p }

  pub ask-Keeps : {A : Type 0} (answer : List Effect → A) → Keeps P (ask answer)
  ask-Keeps answer = record { run = λ s p. p }

  pub query-Keeps :
      {A : Type 0} (others : List Effect → List Call) (f : Database → A) → Keeps P (query others f)
  query-Keeps others f = record { run = λ s p. p }

  pub redis-Keeps : {A : Type 0} (answer : List Effect → Reply A) → Keeps P (redis answer)
  redis-Keeps answer = redis-Triple answer (λ s p. p)

  pub lease-Keeps :
      {A : Type 0} {m : Action A} (outcome : List Effect → LeaseOutcome)
      → Keeps P m
      → Keeps P (under_lease outcome m)
  lease-Keeps outcome h = under_lease-Triple outcome (λ s p. p) (λ a s p. p) h

  pub transact-Keeps :
      {A : Type 0} (others : List Effect → List Call)
      (body : Database → Result QuotaError (A × Database))
      → ((s : State)
          → P s
          → P (record s { ledger = (transaction body (perform_all (others s.log) s.ledger)).1 }))
      → Keeps P (transact others body)
  unfolding transact
  transact-Keeps others body h = record { run = h }
