-- ===== src/Limits/Examples.antt =====
-- Tests of the limiters, and their theorems at concrete inputs.
use zangpu.Base.{pos, negsuc, ◌∷◌, [], ok, ◌≡◌, refl, arith}
use zangpu.Limits.Replies.{
  redis_error, integers, refuse, eval_integers, fail_closed, parse_integer_sequence,
}
use zangpu.Limits.Windows.{admit}
use zangpu.Limits.ModelPool.{ModelPoolDecision, queued, admit_or_enqueue}
use zangpu.Limits.Consistent.{
  IsConsistent, admit_or_enqueue-IsConsistent, reply_of, admit_or_enqueue-reply_of,
}

abbrev waiting : ModelPoolDecision
waiting = record {
  status = queued;
  active_count = pos 4;
  active_limit = 4;
  active_remaining = pos 0;
  queue_count = pos 3;
  queue_limit = 200;
  queue_remaining = pos 197;
  pool_queue_count = pos 2;
  queue_position = pos 2;
  expires_at_ms = pos 1_700_000_030_000;
  observed_at_ms = pos 1_700_000_000_000;
}

waiting-IsConsistent : IsConsistent waiting
waiting-IsConsistent = ground arith

admit_or_enqueue-reply_of_example : admit_or_enqueue 4 200 (reply_of waiting) ≡ ok waiting
admit_or_enqueue-reply_of_example = admit_or_enqueue-reply_of waiting waiting-IsConsistent

admit_or_enqueue-IsConsistent_example : IsConsistent waiting
admit_or_enqueue-IsConsistent_example =
    admit_or_enqueue-IsConsistent 4 200 (reply_of waiting) waiting
      (admit_or_enqueue-reply_of waiting waiting-IsConsistent)

-- A count below zero is refused.
negative_count : admit 5 (integers (pos 1 ∷ negsuc 0 ∷ pos 9 ∷ pos 8 ∷ [])) ≡ refuse
unfolding admit eval_integers fail_closed parse_integer_sequence
negative_count = refl

error_refused : admit 5 redis_error ≡ refuse
unfolding admit eval_integers fail_closed
error_refused = refl
