-- ===== src/Chat/Order.antt =====
-- The order in which a request to backend/app/services/chat.py makes its calls: which call must have
-- taken effect before another one does.
pub mod Steps
pub mod Operation
pub mod Requests
use zangpu.Base.{Option, none, some, List, [], ◌∷◌, ◌⊎◌, inl, inr, ◌≡◌, refl}
use zangpu.Chat.Action.{
  State, Effect, nonce_claimed, qps_admitted, pool_admitted, pool_queued, pool_cancelled,
  concurrency_acquired, quota_reserved, credit_reserved, credit_recorded, provider_called,
  usage_recorded, credit_settled, credit_cancelled, upstream_failed, operation_terminalized,
  pool_released, concurrency_released,
}

-- What a call presupposes: a rate admission the nonce, a place in the pool or its queue the rate
-- admission, a concurrency lease the place in the pool, a quota reservation the lease, a credit
-- reservation the quota's, its record the reservation, the provider the record, the usage the
-- provider, the settlement the usage, a cancellation of the credit its record, and the end of the
-- operation its quota reservation.
unfoldable pub needs : Effect → Option Effect
needs nonce_claimed = none
needs qps_admitted = some nonce_claimed
needs pool_admitted = some qps_admitted
needs pool_queued = some qps_admitted
needs pool_cancelled = some pool_queued
needs pool_released = none
needs concurrency_acquired = some pool_admitted
needs concurrency_released = none
needs quota_reserved = some concurrency_acquired
needs credit_reserved = some quota_reserved
needs credit_recorded = some credit_reserved
needs provider_called = some credit_recorded
needs usage_recorded = some provider_called
needs credit_settled = some usage_recorded
needs credit_cancelled = some credit_recorded
needs upstream_failed = none
needs operation_terminalized = some quota_reserved

unfoldable pub Logged : Effect → List Effect → Type 0
Logged e [] = ⊥
Logged e (d ∷ log) = (d ≡ e) ⊎ Logged e log

unfoldable pub Preceded : Option Effect → List Effect → Type 0
unfolding Logged
Preceded none log = Unit
Preceded (some e) log = Logged e log

-- Every call in the log stands after the call that it needs.
unfoldable pub IsOrdered : List Effect → Type 0
unfolding needs Preceded
IsOrdered [] = Unit
IsOrdered (e ∷ log) = Preceded (needs e) log × IsOrdered log

abbrev pub Ordered : State → Type 0
Ordered s = IsOrdered s.log

abbrev pub Ready : Effect → State → Type 0
Ready e s = Logged e s.log × IsOrdered s.log

Logged-needs :
    (e d : Effect) (log : List Effect)
    → needs e ≡ some d
    → IsOrdered log
    → Logged e log
    → Logged d log
unfolding IsOrdered
Logged-needs e d [] h o l = absurd l
Logged-needs e d (x ∷ log) h o (inl same) =
    let needed : needs x ≡ some d = cc in
    let before : Preceded (some d) log = rw needed at o.0 in inr before
Logged-needs e d (x ∷ log) h o (inr l) = inr (Logged-needs e d log h o.1 l)

pub Ready-needs : (e d : Effect) → needs e ≡ some d → (s : State) → Ready e s → Ready d s
Ready-needs e d h s (l, o) = (Logged-needs e d s.log h o l, o)

-- A call that is made when the one it needs is there.
pub Ready-logged :
    (e d : Effect)
    → needs e ≡ some d
    → (s : State) → Ready d s
    → Ready e (record s { log = e ∷ s.log })
unfolding IsOrdered
Ready-logged e d h s (l, o) = (inl refl, (rw h l, o))
