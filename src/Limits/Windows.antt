-- ===== src/Limits/Windows.antt =====
-- `NonceGuard.claim`, `SlidingWindowQps.admit` and the methods of `ConcurrencyLimiter`
-- (backend/app/limits/nonce.py, qps.py, concurrency.py), each as a function of Redis's reply.
use zangpu.Base.{
  ℕ, ℤ, pos, Bool, false, not, ◌||◌, ◌&&◌, List, [], ◌∷◌, ok, ◌>>=◌, ◌>>◌, raise_if, ltb_ℤ, leb_ℤ,
  ◌==ℤ◌, ◌-ℤ◌, max_ℤ,
}
use zangpu.Limits.Replies.{
  Reply, refuse, RedisReply, boolean, nothing, control_plane_unavailable, fail_closed,
  eval_integers, eval_removed,
}

claimed_of : RedisReply → Reply Bool
claimed_of (boolean b) = ok b
claimed_of nothing = ok false
claimed_of _ = refuse

-- `NonceGuard.claim`
unfoldable pub claim : RedisReply → Reply Bool
unfolding claimed_of
claim reply = do result ← fail_closed reply; claimed_of result

pub record QpsDecision : Type 0 where
  pub allowed : Bool
  pub count : ℤ
  pub limit : ℕ
  pub remaining : ℤ
  pub reset_at_ms : ℤ
  pub observed_at_ms : ℤ

abbrev pub is_flag : ℤ → Bool
is_flag n = n ==ℤ pos 0 || n ==ℤ pos 1

-- The test that a decision's four numbers must not meet.
abbrev pub is_bad_window : ℤ → ℤ → ℤ → ℤ → Bool
is_bad_window flag count expires_at observed_at =
    not (is_flag flag) || ltb_ℤ count (pos 0) || ltb_ℤ expires_at observed_at

unfoldable pub qps_decision : ℕ → List ℤ → Reply QpsDecision
qps_decision limit (allowed ∷ count ∷ reset_at_ms ∷ observed_at_ms ∷ []) = do
  raise_if (is_bad_window allowed count reset_at_ms observed_at_ms) control_plane_unavailable
  ok (record {
    allowed = allowed ==ℤ pos 1;
    count = count;
    limit = limit;
    remaining = max_ℤ (pos limit -ℤ count) (pos 0);
    reset_at_ms = reset_at_ms;
    observed_at_ms = observed_at_ms;
  })
qps_decision limit _ = refuse

-- `SlidingWindowQps.admit` after the check of its limit.
unfoldable pub admit : ℕ → RedisReply → Reply QpsDecision
unfolding qps_decision
admit limit reply = do values ← eval_integers reply 4; qps_decision limit values

pub record ConcurrencyDecision : Type 0 where
  pub allowed : Bool
  pub count : ℤ
  pub limit : ℕ
  pub remaining : ℤ
  pub lease_expires_at_ms : ℤ
  pub observed_at_ms : ℤ

unfoldable pub concurrency_decision : ℕ → List ℤ → Reply ConcurrencyDecision
concurrency_decision limit (allowed ∷ count ∷ lease_expires_at_ms ∷ observed_at_ms ∷ []) = do
  raise_if (is_bad_window allowed count lease_expires_at_ms observed_at_ms)
      control_plane_unavailable
  ok (record {
    allowed = allowed ==ℤ pos 1;
    count = count;
    limit = limit;
    remaining = max_ℤ (pos limit -ℤ count) (pos 0);
    lease_expires_at_ms = lease_expires_at_ms;
    observed_at_ms = observed_at_ms;
  })
concurrency_decision limit _ = refuse

-- `ConcurrencyLimiter.acquire` after the check of its limit.
unfoldable pub acquire : ℕ → RedisReply → Reply ConcurrencyDecision
unfolding concurrency_decision
acquire limit reply = do values ← eval_integers reply 4; concurrency_decision limit values

heartbeat_flag : List ℤ → Reply Bool
heartbeat_flag (extended ∷ expires_at_ms ∷ observed_at_ms ∷ []) = do
  raise_if (not (is_flag extended) || ltb_ℤ expires_at_ms observed_at_ms) control_plane_unavailable
  ok (extended ==ℤ pos 1)
heartbeat_flag _ = refuse

-- `heartbeat` of both limiters, which read the reply in the same way.
unfoldable pub heartbeat : RedisReply → Reply Bool
unfolding heartbeat_flag
heartbeat reply = do values ← eval_integers reply 3; heartbeat_flag values

pub record ConcurrencySnapshot : Type 0 where
  pub occupied : ℤ
  pub limit : ℕ
  pub remaining : ℤ
  pub saturated : Bool
  pub next_lease_expires_at_ms : ℤ
  pub last_lease_expires_at_ms : ℤ
  pub observed_at_ms : ℤ

concurrency_snapshot : ℕ → List ℤ → Reply ConcurrencySnapshot
concurrency_snapshot limit (occupied ∷ next_expiry ∷ last_expiry ∷ observed_at ∷ []) = do
  raise_if
      (ltb_ℤ occupied (pos 0)
        || ltb_ℤ next_expiry observed_at
        || ltb_ℤ last_expiry next_expiry
        || (occupied ==ℤ pos 0
            && (not (next_expiry ==ℤ observed_at) || not (last_expiry ==ℤ observed_at))))
      control_plane_unavailable
  ok (record {
    occupied = occupied;
    limit = limit;
    remaining = max_ℤ (pos limit -ℤ occupied) (pos 0);
    saturated = leb_ℤ (pos limit) occupied;
    next_lease_expires_at_ms = next_expiry;
    last_lease_expires_at_ms = last_expiry;
    observed_at_ms = observed_at;
  })
concurrency_snapshot limit _ = refuse

-- `ConcurrencyLimiter.observe` after the check of its limit.
unfoldable pub observe : ℕ → RedisReply → Reply ConcurrencySnapshot
unfolding concurrency_snapshot
observe limit reply = do values ← eval_integers reply 4; concurrency_snapshot limit values

-- `release` of both limiters.
unfoldable pub release : RedisReply → Reply Bool
release reply = eval_removed reply
