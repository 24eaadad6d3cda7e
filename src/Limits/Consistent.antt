-- ===== src/Limits/Consistent.antt =====
-- The consistency of a model-pool decision (backend/app/limits/model_pool.py) and the replies that
-- stand for consistent decisions.
use zangpu.Base.{
  ℕ, ℤ, pos, ◌≤ℤ◌, ◌-ℤ◌, ◌==ℤ◌, ltb_ℤ, Bool, false, List, [], ◌∷◌, Option, none, some, ok,
  bind-eq-ok, ◌≡◌, refl, sym, ◌∙◌, arith, raise_if, ◌>>◌, ◌||◌, not, between_ℤ,
}
use zangpu.Base.Int.Order.{between_ℤ-le, le-between_ℤ, ltb_ℤ-le, le-ltb_ℤ, not-==ℤ-eq, max_ℤ-rest}
use zangpu.Limits.Replies.{
  RedisReply, integers, fail_closed, parse_integer_sequence, eval_integers,
  control_plane_unavailable,
}
use zangpu.Limits.ModelPool.{
  ModelPoolStatus, admitted, queued, caller_queue_full, queue_full, ModelPoolDecision,
  status_of_value, is_bad_position, model_pool_decision, read_decision, admit_or_enqueue,
}

-- The place in the queue that goes with a status.
abbrev pub PositionFits : ModelPoolStatus → ℤ → ℤ → ℤ → Type 0
PositionFits admitted active position pool = (pos 1 ≤ℤ active) × (position ≡ pos 0)
PositionFits queued active position pool = (pos 1 ≤ℤ position) × (position ≤ℤ pool)
PositionFits caller_queue_full active position pool = position ≡ pos 0
PositionFits queue_full active position pool = position ≡ pos 0

pub record IsConsistent (d : ModelPoolDecision) : Type 0 where
  pub active_nonneg : pos 0 ≤ℤ d.active_count
  pub active_capped : d.active_count ≤ℤ pos d.active_limit
  pub active_rest : d.active_remaining ≡ pos d.active_limit -ℤ d.active_count
  pub pool_nonneg : pos 0 ≤ℤ d.pool_queue_count
  pub pool_within : d.pool_queue_count ≤ℤ d.queue_count
  pub queue_capped : d.queue_count ≤ℤ pos d.queue_limit
  pub queue_rest : d.queue_remaining ≡ pos d.queue_limit -ℤ d.queue_count
  pub ordered : d.observed_at_ms ≤ℤ d.expires_at_ms
  pub position : PositionFits d.status d.active_count d.queue_position d.pool_queue_count

-- A reply that passes a chain of five tests fails each of them.
five_tests :
    {A : Type 0} (a b c d e : Bool) (v w : A)
    → (raise_if (a || b || c || d || e) control_plane_unavailable >> ok v) ≡ ok w
    → (a ≡ false) × (b ≡ false) × (c ≡ false) × (d ≡ false) × (e ≡ false) × (v ≡ w)
five_tests a b c d e v w h = ground arith

is_bad_position-fits :
    (s : ModelPoolStatus) (active position pool : ℤ)
    → is_bad_position s active position pool ≡ false
    → PositionFits s active position pool
is_bad_position-fits admitted active position pool h =
    let tests : (ltb_ℤ active (pos 1) ≡ false) × (not (position ==ℤ pos 0) ≡ false) =
      parts (ltb_ℤ active (pos 1)) (not (position ==ℤ pos 0)) h in
    (ltb_ℤ-le active (pos 1) tests.0, not-==ℤ-eq position (pos 0) tests.1)
  where
    parts : (a b : Bool) → (a || b) ≡ false → (a ≡ false) × (b ≡ false)
    parts a b q = ground arith
is_bad_position-fits queued active position pool h = between_ℤ-le (pos 1) pool position h
is_bad_position-fits caller_queue_full active position pool h = not-==ℤ-eq position (pos 0) h
is_bad_position-fits queue_full active position pool h = not-==ℤ-eq position (pos 0) h

model_pool_decision-IsConsistent :
    (a q : ℕ) (s : ModelPoolStatus) (active queue pool position expires observed : ℤ)
    (d : ModelPoolDecision)
    → model_pool_decision a q (some s) active queue pool position expires observed ≡ ok d
    → IsConsistent d
unfolding model_pool_decision
model_pool_decision-IsConsistent a q s active queue pool position expires observed d h =
    let (t1, t2, t3, t4, t5, same) =
      five_tests (not (between_ℤ (pos 0) (pos a) active)) (not (between_ℤ (pos 0) (pos q) queue))
        (not (between_ℤ (pos 0) queue pool)) (ltb_ℤ expires observed)
        (is_bad_position s active position pool) _ d h in
    let (a0, a1) = between_ℤ-le (pos 0) (pos a) active t1 in
    let (q0, q1) = between_ℤ-le (pos 0) (pos q) queue t2 in
    let (p0, p1) = between_ℤ-le (pos 0) queue pool t3 in
    rw (← same) (record {
      active_nonneg = a0;
      active_capped = a1;
      active_rest = max_ℤ-rest a active a0 a1;
      pool_nonneg = p0;
      pool_within = p1;
      queue_capped = q1;
      queue_rest = max_ℤ-rest q queue q0 q1;
      ordered = ltb_ℤ-le expires observed t4;
      position = is_bad_position-fits s active position pool t5;
    })

read_decision-IsConsistent :
    (a q : ℕ) (values : List ℤ) (d : ModelPoolDecision)
    → read_decision a q values ≡ ok d
    → IsConsistent d
unfolding read_decision
read_decision-IsConsistent a q (s ∷ active ∷ queue ∷ pool ∷ position ∷ expires ∷ observed ∷ []) d
      h =
    known (status_of_value s) h
  where
    known :
        (o : Option ModelPoolStatus)
        → model_pool_decision a q o active queue pool position expires observed ≡ ok d
        → IsConsistent d
    known none k = absurd (unfold model_pool_decision in cc)
    known (some t) k =
        model_pool_decision-IsConsistent a q t active queue pool position expires observed d k
read_decision-IsConsistent a q _ d h = cc

-- Whatever Redis replies, a decision that `admit_or_enqueue` returns is consistent: the counts lie
-- within the limits, what remains is the limit less the count, the decision is not past its own
-- expiry, and the place in the queue fits the status.
pub admit_or_enqueue-IsConsistent :
    (active_limit queue_limit : ℕ) (reply : RedisReply) (d : ModelPoolDecision)
    → admit_or_enqueue active_limit queue_limit reply ≡ ok d
    → IsConsistent d
unfolding admit_or_enqueue
admit_or_enqueue-IsConsistent a q reply d h =
    let (values, read, rest) = bind-eq-ok (eval_integers reply 7) _ h in
    read_decision-IsConsistent a q values d rest

abbrev pub value_of_status : ModelPoolStatus → ℤ
value_of_status admitted = pos 1
value_of_status queued = pos 2
value_of_status caller_queue_full = pos 3
value_of_status queue_full = pos 4

-- The reply of the admission script that stands for a decision.
abbrev pub reply_of : ModelPoolDecision → RedisReply
reply_of d = integers (
    value_of_status d.status
    ∷ d.active_count
    ∷ d.queue_count
    ∷ d.pool_queue_count
    ∷ d.queue_position
    ∷ d.expires_at_ms
    ∷ d.observed_at_ms
    ∷ [])

fits-is_bad_position :
    (s : ModelPoolStatus) (active position pool : ℤ)
    → PositionFits s active position pool
    → is_bad_position s active position pool ≡ false
fits-is_bad_position admitted active position pool h = rw (h.1, le-ltb_ℤ active (pos 1) h.0) refl
fits-is_bad_position queued active position pool h = le-between_ℤ (pos 1) pool position h.0 h.1
fits-is_bad_position caller_queue_full active position pool h = rw h refl
fits-is_bad_position queue_full active position pool h = rw h refl

status_round : (s : ModelPoolStatus) → status_of_value (value_of_status s) ≡ some s
status_round admitted = refl
status_round queued = refl
status_round caller_queue_full = refl
status_round queue_full = refl

-- Every consistent decision is what its own reply is read as: no consistent reply is refused, and
-- no number of it is changed.
pub admit_or_enqueue-reply_of :
    (d : ModelPoolDecision)
    → IsConsistent d
    → admit_or_enqueue d.active_limit d.queue_limit (reply_of d) ≡ ok d
unfolding admit_or_enqueue eval_integers fail_closed parse_integer_sequence read_decision
    model_pool_decision
admit_or_enqueue-reply_of d c = rw (status_round d.status) (
    rw (le-between_ℤ (pos 0) (pos d.active_limit) d.active_count c.active_nonneg c.active_capped) (
      rw (le-between_ℤ (pos 0) (pos d.queue_limit) d.queue_count queue_nonneg c.queue_capped) (
        rw (le-between_ℤ (pos 0) d.queue_count d.pool_queue_count c.pool_nonneg c.pool_within) (
          rw (le-ltb_ℤ d.expires_at_ms d.observed_at_ms c.ordered) (
            rw
              (fits-is_bad_position d.status d.active_count d.queue_position d.pool_queue_count
                c.position)
              (λ i. ok (record d {
                active_remaining =
                    (max_ℤ-rest d.active_limit d.active_count c.active_nonneg c.active_capped
                        ∙ sym c.active_rest)
                      i;
                queue_remaining =
                    (max_ℤ-rest d.queue_limit d.queue_count queue_nonneg c.queue_capped
                        ∙ sym c.queue_rest)
                      i;
              })))))))
  where
    queue_nonneg : pos 0 ≤ℤ d.queue_count
    queue_nonneg = omega (arith, c.pool_nonneg, c.pool_within)
