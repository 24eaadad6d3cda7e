-- ===== src/Limits/ModelPool.antt =====
-- `ModelPoolLimiter` of backend/app/limits/model_pool.py, each method as a function of its limits
-- and Redis's reply.
use zangpu.Base.{
  ℕ, ℤ, pos, String, Bool, not, ◌||◌, ◌&&◌, List, [], ◌∷◌, Option, none, some, Result, ok, ◌>>=◌,
  ◌>>◌, raise_if, ltb, ltb_ℤ, ◌==ℤ◌, ◌==◌, ◌-ℤ◌, max_ℤ, between, between_ℤ, if◌then◌else◌,
}
use zangpu.Limits.Replies.{
  Reply, refuse, RedisReply, control_plane_unavailable, eval_integers, eval_removed,
}

pub data ModelPoolStatus : Type 0 where
  admitted queued caller_queue_full queue_full : ModelPoolStatus

pub record ModelPoolDecision : Type 0 where
  pub status : ModelPoolStatus
  pub active_count : ℤ
  pub active_limit : ℕ
  pub active_remaining : ℤ
  pub queue_count : ℤ
  pub queue_limit : ℕ
  pub queue_remaining : ℤ
  pub pool_queue_count : ℤ
  pub queue_position : ℤ
  pub expires_at_ms : ℤ
  pub observed_at_ms : ℤ

-- The first test of `_validate_limits` that fails, by its message.
unfoldable pub validate_limits : ℕ → ℕ → ℕ → ℕ → Result String (Unit {0})
validate_limits active_limit queue_limit caller_queue_limit queue_wait_seconds = do
  raise_if (not (between 1 1_000_000 active_limit))
      "model-pool active limit must be between 1 and 1000000"
  raise_if (ltb 1_000_000 queue_limit) "global queue limit must be between 0 and 1000000"
  raise_if (ltb 1_000_000 caller_queue_limit) "caller queue limit must be between 0 and 1000000"
  raise_if (ltb 0 queue_limit && caller_queue_limit == 0)
      "caller queue limit must be positive when queueing is enabled"
  raise_if (not (between 1 300 queue_wait_seconds)) "queue wait must be between 1 and 300 seconds"

-- `statuses.get(status_value)`
abbrev pub status_of_value : ℤ → Option ModelPoolStatus
status_of_value n =
    if n ==ℤ pos 1
    then some admitted
    else if n ==ℤ pos 2
    then some queued
    else if n ==ℤ pos 3
    then some caller_queue_full
    else if n ==ℤ pos 4
    then some queue_full
    else none

-- The part of the reply's check that depends on the status.
abbrev pub is_bad_position : ModelPoolStatus → ℤ → ℤ → ℤ → Bool
is_bad_position admitted active_count position pool_queue_count =
    ltb_ℤ active_count (pos 1) || not (position ==ℤ pos 0)
is_bad_position queued active_count position pool_queue_count =
    not (between_ℤ (pos 1) pool_queue_count position)
is_bad_position caller_queue_full active_count position pool_queue_count = not (position ==ℤ pos 0)
is_bad_position queue_full active_count position pool_queue_count = not (position ==ℤ pos 0)

unfoldable pub model_pool_decision :
    ℕ → ℕ → Option ModelPoolStatus → ℤ → ℤ → ℤ → ℤ → ℤ → ℤ → Reply ModelPoolDecision
model_pool_decision active_limit queue_limit none active queue pool position expires observed =
    refuse
model_pool_decision active_limit queue_limit (some status) active queue pool position expires
      observed =
    do
      raise_if
          (not (between_ℤ (pos 0) (pos active_limit) active)
            || not (between_ℤ (pos 0) (pos queue_limit) queue)
            || not (between_ℤ (pos 0) queue pool)
            || ltb_ℤ expires observed
            || is_bad_position status active position pool)
          control_plane_unavailable
      ok (record {
        status = status;
        active_count = active;
        active_limit = active_limit;
        active_remaining = max_ℤ (pos active_limit -ℤ active) (pos 0);
        queue_count = queue;
        queue_limit = queue_limit;
        queue_remaining = max_ℤ (pos queue_limit -ℤ queue) (pos 0);
        pool_queue_count = pool;
        queue_position = position;
        expires_at_ms = expires;
        observed_at_ms = observed;
      })

unfoldable pub read_decision : ℕ → ℕ → List ℤ → Reply ModelPoolDecision
unfolding model_pool_decision
read_decision active_limit queue_limit
      (status ∷ active ∷ queue ∷ pool ∷ position ∷ expires ∷ observed ∷ []) =
    model_pool_decision active_limit queue_limit (status_of_value status) active queue pool position
      expires observed
read_decision active_limit queue_limit _ = refuse

-- `admit_or_enqueue` after `_validate_limits`.
unfoldable pub admit_or_enqueue : ℕ → ℕ → RedisReply → Reply ModelPoolDecision
unfolding read_decision
admit_or_enqueue active_limit queue_limit reply = do
  values ← eval_integers reply 7
  read_decision active_limit queue_limit values

-- `cancel`
unfoldable pub cancel : RedisReply → Reply Bool
cancel reply = eval_removed reply

pub record ModelPoolSnapshot : Type 0 where
  pub active_count : ℤ
  pub active_limit : ℕ
  pub active_remaining : ℤ
  pub queue_count : ℤ
  pub queue_limit : ℕ
  pub queue_remaining : ℤ
  pub pool_queue_count : ℤ
  pub next_active_expires_at_ms : ℤ
  pub next_queue_expires_at_ms : ℤ
  pub observed_at_ms : ℤ

read_snapshot : ℕ → ℕ → List ℤ → Reply ModelPoolSnapshot
read_snapshot active_limit queue_limit
      (active ∷ queue ∷ pool ∷ active_expiry ∷ queue_expiry ∷ observed ∷ []) =
    do
      raise_if
          (not (between_ℤ (pos 0) (pos active_limit) active)
            || not (between_ℤ (pos 0) (pos queue_limit) queue)
            || not (between_ℤ (pos 0) queue pool)
            || ltb_ℤ active_expiry observed
            || ltb_ℤ queue_expiry observed
            || (active ==ℤ pos 0 && not (active_expiry ==ℤ observed))
            || (pool ==ℤ pos 0 && not (queue_expiry ==ℤ observed)))
          control_plane_unavailable
      ok (record {
        active_count = active;
        active_limit = active_limit;
        active_remaining = max_ℤ (pos active_limit -ℤ active) (pos 0);
        queue_count = queue;
        queue_limit = queue_limit;
        queue_remaining = max_ℤ (pos queue_limit -ℤ queue) (pos 0);
        pool_queue_count = pool;
        next_active_expires_at_ms = active_expiry;
        next_queue_expires_at_ms = queue_expiry;
        observed_at_ms = observed;
      })
read_snapshot active_limit queue_limit _ = refuse

-- `observe` after the checks of its limits.
unfoldable pub observe_pool : ℕ → ℕ → RedisReply → Reply ModelPoolSnapshot
unfolding read_snapshot
observe_pool active_limit queue_limit reply = do
  values ← eval_integers reply 6
  read_snapshot active_limit queue_limit values
