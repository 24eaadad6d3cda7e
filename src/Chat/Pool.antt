-- ===== src/Chat/Pool.antt =====
-- `_acquire_model_pool` of backend/app/services/chat.py: admission to the model's pool, or a place
-- in its queue and a loop that asks again until the deadline. The environment's list of rounds is
-- what happens before the deadline: where it ends, the deadline has passed.
use zangpu.Base.{String, Bool, Result, Option, none, some, List, [], ◌∷◌, ok, err}
use zangpu.Limits.Replies.{RedisReply, Reply}
use zangpu.Limits.ModelPool.{
  ModelPoolStatus, ModelPoolDecision, validate_limits, admit_or_enqueue, cancel,
}
use zangpu.Chat.Errors.{Code}
use zangpu.Chat.Action.{
  Action, ChatError, api_error, internal, cancelled, unavailable, ◌>>=◌, ◌>>◌, pure, throw, emit,
  ask, redis, pool_admitted, pool_queued, pool_cancelled,
}
use zangpu.Chat.Environment.{
  Environment, ModelPoolPolicy, PollRound, late, interrupted, polled, admit_pool, cancel_queued,
}

-- `except BaseException` with a queued decision: leaves the queue and raises again.
unfoldable pub leave_queue : Environment → ChatError → Action (Unit {0})
leave_queue env e = do
  redis (λ log. cancel (env.redis cancel_queued log)) >>= λ removed. pure tt
  emit pool_cancelled
  throw e

-- The same for a cancelled request, where an unavailable Redis is suppressed.
unfoldable pub left_quietly : Reply Bool → Action (Unit {0})
left_quietly (ok removed) = emit pool_cancelled >> throw cancelled
left_quietly (err e) = throw cancelled

unfoldable pub leave_queue_quietly : Environment → Action (Unit {0})
unfolding left_quietly
leave_queue_quietly env s = left_quietly (cancel (env.redis cancel_queued s.log)) s

-- `admit_or_enqueue` with the service's limits.
unfoldable pub read_pool_reply :
    Environment → ModelPoolPolicy → RedisReply → Reply ModelPoolDecision
read_pool_reply env policy reply = admit_or_enqueue policy.active_limit env.global_queue_limit reply

-- What a decision leads to, `again` being what a queued request does next.
unfoldable pub after_status : ModelPoolStatus → Action (Unit {0}) → Action (Unit {0})
after_status ModelPoolStatus.admitted again = emit pool_admitted
after_status ModelPoolStatus.queued again = emit pool_queued >> again
after_status ModelPoolStatus.caller_queue_full again =
    throw (api_error Code.model_capacity_limited none)
after_status ModelPoolStatus.queue_full again = throw (api_error Code.model_capacity_limited none)

-- The same for a poll's answer, which may be missing.
unfoldable pub after_poll :
    Environment → Reply ModelPoolDecision → Action (Unit {0}) → Action (Unit {0})
unfolding leave_queue after_status
after_poll env (err e) again = leave_queue env unavailable
after_poll env (ok decision) again = after_status decision.status again

-- `while True` in the queue.
unfoldable pub wait_in_queue : Environment → ModelPoolPolicy → List PollRound → Action (Unit {0})
unfolding after_poll
wait_in_queue env policy [] = leave_queue env (api_error Code.model_capacity_limited none)
wait_in_queue env policy (late ∷ rounds) =
    leave_queue env (api_error Code.model_capacity_limited none)
wait_in_queue env policy (interrupted ∷ rounds) = leave_queue_quietly env
wait_in_queue env policy (polled reply ∷ rounds) =
    after_poll env (read_pool_reply env policy reply) (wait_in_queue env policy rounds)

-- What the first answer leads to.
unfoldable pub after_admission :
    Environment → ModelPoolPolicy → ModelPoolDecision → Action (Unit {0})
unfolding after_status wait_in_queue
after_admission env policy decision =
    after_status decision.status (ask env.rounds >>= λ rounds. wait_in_queue env policy rounds)

-- A ValueError is internal.
unfoldable pub after_check :
    Result String (Unit {0}) → Action ModelPoolDecision → Action ModelPoolDecision
after_check (ok t) m = m
after_check (err message) m = throw internal

-- The limiter checks its limits first.
unfoldable pub enter_pool : Environment → ModelPoolPolicy → Action ModelPoolDecision
unfolding after_check
enter_pool env policy =
    after_check
      (validate_limits policy.active_limit env.global_queue_limit env.caller_queue_limit
        env.queue_wait_seconds)
      (redis (λ log. read_pool_reply env policy (env.redis admit_pool log)))

unfoldable pub known_pool : Option ModelPoolPolicy → Action ModelPoolPolicy
known_pool none = throw (api_error Code.model_unavailable none)
known_pool (some policy) = pure policy

unfoldable pub acquire_model_pool : Environment → String → Action ModelPoolPolicy
unfolding enter_pool known_pool after_admission
acquire_model_pool env model_id = do
  policy ← known_pool (env.model_pool_policies model_id)
  decision ← enter_pool env policy
  after_admission env policy decision
  pure policy
